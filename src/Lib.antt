-- ===== src/Lib.antt =====
-- A verification library for flagd, a feature flag daemon written in Go, and for its playground
-- and load test, which are written in TypeScript and JavaScript.
--
-- Parts and how they interact. The daemon takes flag definitions from its sync sources. A
-- payload goes to the evaluator (`JSON.SetState`), which puts shared evaluators in place, parses
-- the text, refuses default variants that are not variants, and hands the flags to the store
-- (`Store.Update`). The store keeps one flag for each key; the order of the sources decides
-- which one. A resolution (`Resolver.Resolve…Value`) reads a flag and its metadata from the
-- store, runs the flag's rule, and returns the value of the variant. The sync service lets other
-- daemons subscribe to the stored flags: its multiplexer keeps the texts and the subscriptions
-- and publishes after each update. The proxy watches a target for all its subscribers. The OFREP
-- and Connect services evaluate flags for requests. The playground runs the JavaScript version
-- of the evaluator in a browser; its component checks the edited definition and context,
-- evaluates a flag, and shares its state in a link. The load test calls the daemon for flags
-- that a generator has made.
--
-- Files:
--   Prelude: lists, Boolean tests and maps; Prelude/Dict has Go maps and JavaScript objects as
--     association lists with distinct keys.
--   Model: core/pkg/model and the Go values of `encoding/json`; Model/Equality:
--     `reflect.DeepEqual` on flags, which does not depend on the order of a map's entries.
--   Store: core/pkg/store/store.go, one function for each method; the library go-memdb is the
--     record `MemDb` of operations and laws, and Store/ListDb has an instance. Store/Table,
--     Priority, Merge, Update, Resync and Sources are about stored keys, priorities, events,
--     resyncs and metadata.
--   Evaluator: core/pkg/evaluator/json.go and ievaluator.go. `resolve` has the type parameter as
--     its first argument, a `Kind`. The store is the record `IStore`, as in the source. JSON
--     Logic and `json.Marshal` are the record `Engine`, and the parsers are the record `Parser`
--     of Evaluator/Config. Evaluator/Text has the text functions, Resolve the successful
--     resolutions, Failure the errors, BulkValues `ResolveAllValues`, Integer `ResolveIntValue`,
--     WellFormed and Reflected what `SetState` keeps of the store, and Stored the resolver over
--     the store.
--   Operations: core/pkg/evaluator, the operations that the rules call: `starts_with` and
--     `ends_with` of string_comparison.go, `sem_ver` of semver.go in Operations/SemVer, and
--     `fractional` of fractional.go in Operations/Fractional. The version library is the record
--     `Versions`, float64 arithmetic the record `Floats`, the hash a field of `Hashing`.
--   Ofrep: flagd/pkg/service/flag-evaluation/ofrep/handler.go and core/pkg/service/ofrep, the
--     HTTP handlers over the evaluator; Ofrep/Status, Context and BulkResponses are about the
--     status and the context of an evaluation and about bulk responses. `json.Marshal` is the
--     argument `marshal`.
--   Connect: flagd/pkg/service/flag-evaluation/flag_evaluator.go, flag_evaluator_v2.go and
--     flag_evaluator_types.go, the Connect methods of both schemas over the evaluator;
--     `structpb.NewStruct` is the argument `new_struct`, and a nil pointer that is written to is
--     the result `panics`. Connect/Typed and Listed compare the answers for all flags with those
--     for one, and Connect/Panics is about that nil pointer.
--   FlagSync: flagd/pkg/service/flag-sync, the multiplexer of sync-multiplexer.go.
--     FlagSync/Collect, Refill, Register, Delivered and Publish are about its texts,
--     subscriptions and publications; Handler has the unary calls of handler.go, Channels its
--     stream, Startup the tracker and `Emit` of sync_service.go. `json.Marshal` is the argument
--     `marshal`, and the store is that of Store.
--   Convert: core/pkg/utils, the conversion of a source's text to JSON.
--   HttpSync: core/pkg/sync/http/http_sync.go, the source that polls a URL; a `Server` is what
--     is answered to one request. HttpSync/Polls has the visits of a server, Answered and
--     Current what is sent over many polls, and Lost the body that breaks off.
--   RedisSync: core/pkg/sync/redis/redis_sync.go, the source that polls a key of Redis; a
--     `RedisClient` is what Redis replies at a time. RedisSync/Changes has runs of polls and
--     resyncs.
--   Runtime: flagd/pkg/runtime/runtime.go, `updateAndEmit` and the watcher that calls it, over
--     Evaluator/Config and FlagSync; the steps of the watcher are counted. Runtime/Emitted is
--     about what subscribers are sent and Runtime/Settles about resyncs.
--   Proxy: flagd-proxy/pkg/service/subscriptions/manager.go, the watched targets and their
--     subscribers; a goroutine that takes the lock is a `Turn`, and Proxy/Served is about runs
--     of turns.
--   Playground: playground-app/src/App.tsx, utils.ts and types.ts. The state hooks are the
--     record `App`; an event handler is a function on it (Playground/Handlers), and a commit
--     runs the effects of App.tsx (Checked, Effects). `JSON` and flagd-core are the record
--     `Platform`; Playground/Sample has an instance. Playground/View is what the component
--     renders and Playground/Shown the button Share; Opened is about the page that a shared
--     address opens; Notice is the copy notice over time and Theme the palette.
--   Scenarios: playground-app/src/scenarios, each scenario as data in Scenarios/Basic, Targeted
--     and Rollout; Scenarios/Consistent checks them, and Scenarios/Json reads back what is
--     printed.
--   Loadtest: test/loadtest/sample_k6.js and ff_gen.go.
--   The files named Tests run the definitions at concrete inputs.
--
-- Bounds: `settle` of the playground runs its effects two rounds, the number that
-- Playground/Convergence is about. All other loops are recursion over lists or texts. Numbers of
-- flags are float64, an integer over a power of two; an int64 is bounded where the code converts
-- to it. A Go map is iterated in the order of its list, which may be any.
--
-- Not modelled: the sync providers but those for HTTP and Redis, the event streams and the
-- servers of the Connect services, the sync sources and channels of the proxy, the set-up of the
-- sync server, telemetry, logging and the command line; JSON Logic itself; locks, since one
-- operation runs at a time; the JSON schema, whose result is only logged.
pub mod Prelude
pub mod Model
pub mod Store
pub mod Evaluator
pub mod Operations
pub mod Convert
pub mod HttpSync
pub mod RedisSync
pub mod FlagSync
pub mod Ofrep
pub mod Connect
pub mod Runtime
pub mod Proxy
pub mod Playground
pub mod Scenarios
pub mod Loadtest

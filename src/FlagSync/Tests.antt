-- ===== src/FlagSync/Tests.antt =====
-- Two sources, one of them with a flag, and three subscribers.
use flagd.Prelude.{
  ◌-◌, eqb, not, none, some, Option, List, [], ◌∷◌, String, ◌≡◌, ◌⊎◌, inl, inr, refl, true, false,
  if◌then◌else◌,
}
use Prim.Native.String.{◌++◌ as ◌<>◌}
use flagd.Prelude.Tests.{In}
use flagd.Prelude.Dict.{Dict, lookup}
use flagd.Model.{Flag, no_flag, Metadata, null, str}
use flagd.Store.{Store, update, get_all}
use flagd.Store.ListDb.{list_db}
use flagd.FlagSync.{
  Multiplexer, Sent, no_watcher, register, unregister, get_all_flags, refill, new_mux, publish,
  empty_config,
}
use flagd.FlagSync.Collect.{only}
use flagd.FlagSync.Register.{subscriptions, register-get_all_flags}
use flagd.FlagSync.Publish.{Reach, fresh, next, registered, publish-get_all_flags}
use flagd.FlagSync.Startup.{track_all, new_tracker, count, is_empty, track_all-closes}
use flagd.FlagSync.Handler.{fetch_all_flags, unimplemented, get_metadata}
use flagd.FlagSync.Channels.{forwarded, send_failed, sync_flags, deliver, publish_blocks}

program : Unit {0}
unfolding register unregister get_all_flags refill new_mux publish subscriptions sync_flags deliver
    only list_db update get_all lookup
program = tt

-- The keys of the flags, for a text.
abbrev pub keys : Dict Flag → Metadata → Option String
keys [] metadata = some ""
keys ((key, flag) ∷ rest) metadata = elim (keys rest metadata) [
  | none ↦ none
  | some text ↦ some (key <> ";" <> text)
]

abbrev stored : Store list_db
unfolding program
stored =
    (update list_db "file" ""
      (record {
        db = [];
        flag_sources = "file" ∷ "http" ∷ [];
        source_details = [];
        metadata_per_source = [];
      })
      (("a", record no_flag { state = "ENABLED" }) ∷ []) none).0

abbrev sources : List String
sources = "file" ∷ "http" ∷ []

abbrev started : Multiplexer
unfolding program
started = (new_mux keys list_db stored sources).0

abbrev two : Multiplexer
unfolding program
two = (register (register started 1 "" 10).0 2 "file" 20).0

-- Subscriber 1 gets all flags, subscriber 2 those of its file.
runs :
    ((publish keys list_db stored two).1 ≡ inr ((10, "a;") ∷ (20, "a;") ∷ []))
    × (get_all_flags two "http" ≡ inr empty_config)
    × (get_all_flags two "grpc" ≡ inl (no_watcher "grpc"))
    × ((publish keys list_db stored (unregister two 1 "")).1 ≡ inr ((20, "a;") ∷ []))
unfolding program stored started two
runs = (refl, refl, refl, refl)

-- The sources overwrite a context value of that name.
served :
    (fetch_all_flags two "file" ≡ inr "a;")
    × (get_metadata (λ src. lookup "sources" src) false (("sources", null) ∷ []) two
        ≡ inr (str "file,http"))
    × (get_metadata (λ src. some src) true [] two ≡ inl unimplemented)
unfolding program two fetch_all_flags get_metadata stored started
served = (refl, refl, refl)

register-get_all_flags_example :
    ((register two 3 "http" 30 ≡ (two, inl (no_watcher "http")))
      × (get_all_flags two "http" ≡ inl (no_watcher "http")))
    ⊎ ((text : String) × ((register two 3 "http" 30).1 ≡ inr ((30, text) ∷ []))
        × (get_all_flags two "http" ≡ inr text))
register-get_all_flags_example = register-get_all_flags two 3 "http" 30

two-Reach : Reach keys list_db stored sources two
unfolding two
two-Reach = next (next fresh (registered 1 "" 10)) (registered 2 "file" 20)

publish-get_all_flags_example :
    (text : String) × (get_all_flags (publish keys list_db stored two).0 "file" ≡ inr text)
    × In {A = Sent} (20, text) ((10, "a;") ∷ (20, "a;") ∷ [])
unfolding program stored started two
publish-get_all_flags_example =
    publish-get_all_flags keys list_db stored stored sources two ((10, "a;") ∷ (20, "a;") ∷ [])
      "file" 2 20 two-Reach refl (inl refl)

-- A third stream fails after one text.
publish_blocks_example :
    deliver (λ c. not (eqb c 30)) (30 ∷ []) ((10, "a;") ∷ (30, "{\"flags\":{}}") ∷ []) ≡ none
unfolding program stored started
publish_blocks_example =
    publish_blocks keys list_db stored stored stored sources (register started 1 "" 10).0 3 "http"
      30 (forwarded ∷ send_failed ∷ []) (λ c. not (eqb c 30)) [] (30 ∷ [])
      ((10, "a;") ∷ (30, "{\"flags\":{}}") ∷ []) ((10, "a;") ∷ (30, "{\"flags\":{}}") ∷ [])
      (next fresh (registered 1 "" 10)) refl refl refl refl refl refl

-- The file has not reported yet.
track_all-closes_example :
    ((k : String)
      → count k (track_all (new_tracker sources) ("http" ∷ [])).sources
        ≡ count k sources - count k ("http" ∷ []))
    × ((track_all (new_tracker sources) ("http" ∷ [])).closes
        ≡ (if is_empty (track_all (new_tracker sources) ("http" ∷ [])).sources then 1 else 0))
track_all-closes_example = track_all-closes sources ("http" ∷ []) refl

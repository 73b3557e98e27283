-- ===== src/FlagSync.antt =====
-- flagd/pkg/service/flag-sync/sync-multiplexer.go: the subscriptions to flag configurations and the
-- texts that are sent to them. An operation runs under the lock, so one at a time. What it sends to
-- channels is a list, in order; FlagSync/Channels has the channels themselves.
pub mod Collect
pub mod Refill
pub mod Register
pub mod Texts
pub mod Delivered
pub mod Publish
pub mod Channels
pub mod Handler
pub mod Startup
pub mod Tests
use mathlib.Core.List.{foldl}
use flagd.Prelude.{
  ℕ, eqb, Bool, true, false, not, ◌&&◌, ◌||◌, Option, none, some, List, [], ◌∷◌, ◌++◌, String, ◌==◌,
  ◌⊎◌, inl, inr, if◌then◌else◌,
}
use flagd.Prelude.Dict.{Dict, lookup, insert}
use flagd.Model.{Flag, Metadata}
use flagd.Store.{MemDb, Store, get_all, get_metadata_for_source}

-- `map[interface{}]subscription`: the channel of each subscriber.
abbrev pub Subscriptions : Type 0
Subscriptions = List (ℕ × ℕ)

unfoldable pub subscribe : ℕ → ℕ → Subscriptions → Subscriptions
subscribe id channel [] = (id, channel) ∷ []
subscribe id channel ((i, c) ∷ rest) =
    if eqb i id then (id, channel) ∷ rest else (i, c) ∷ subscribe id channel rest

unfoldable pub without : ℕ → Subscriptions → Subscriptions
without id [] = []
without id ((i, c) ∷ rest) = if eqb i id then without id rest else (i, c) ∷ without id rest

pub record Multiplexer : Type 0 where
  pub sources : List String
  pub subs : Subscriptions
  pub selector_subs : Dict Subscriptions
  pub all_flags : String
  pub selector_flags : Dict String

abbrev pub blank : List String → Multiplexer
blank sources = record {
  sources = sources;
  subs = [];
  selector_subs = [];
  all_flags = "";
  selector_flags = [];
}

-- A text that is sent to a channel.
abbrev pub Sent : Type 0
Sent = ℕ × String

pub data SyncError : Type 0 where
  no_watcher : String → SyncError
  marshalling : SyncError

-- `slices.Contains`
unfoldable pub contains : List String → String → Bool
contains [] source = false
contains (s ∷ rest) source = s == source || contains rest source

abbrev pub subscriptions_of : Option Subscriptions → Subscriptions
subscriptions_of none = []
subscriptions_of (some subs) = subs

abbrev pub text_of : Option String → String
text_of none = ""
text_of (some t) = t

unfoldable pub is_known : Multiplexer → String → Bool
unfolding contains
is_known r source = source == "" || contains r.sources source

-- `Register`: the initial text is sent at once.
unfoldable pub register : Multiplexer → ℕ → String → ℕ → Multiplexer × (SyncError ⊎ List Sent)
unfolding is_known subscribe insert lookup
register r id source channel =
    if not (is_known r source)
    then (r, inl (no_watcher source))
    else if source == ""
    then (record r { subs = subscribe id channel r.subs }, inr ((channel, r.all_flags) ∷ []))
    else (
      record r {
        selector_subs =
            insert source (subscribe id channel (subscriptions_of (lookup source r.selector_subs)))
              r.selector_subs;
      },
      inr ((channel, text_of (lookup source r.selector_flags)) ∷ []),
    )

unfoldable pub unregister : Multiplexer → ℕ → String → Multiplexer
unfolding without insert lookup
unregister r id selector =
    if selector == ""
    then record r { subs = without id r.subs }
    else elim (lookup selector r.selector_subs) [
      | none ↦ r
      | some subs ↦ record r { selector_subs = insert selector (without id subs) r.selector_subs }
    ]

unfoldable pub get_all_flags : Multiplexer → String → SyncError ⊎ String
unfolding contains lookup
get_all_flags r source =
    if source == ""
    then inr r.all_flags
    else if not (contains r.sources source)
    then inl (no_watcher source)
    else inr (text_of (lookup source r.selector_flags))

-- `{"flags":{}}`
abbrev pub empty_config : String
empty_config = "{\"flags\":{}}"

unfoldable pub empty_configs : List String → Dict String
unfolding insert
empty_configs sources = foldl (λ texts source. insert source empty_config texts) [] sources

abbrev pub flags_of : Option (Dict Flag) → Dict Flag
flags_of none = []
flags_of (some flags) = flags

-- The body of the first loop of `reFill`.
unfoldable pub collect_flag : Dict (Dict Flag) → String × Flag → Dict (Dict Flag)
unfolding insert lookup
collect_flag collector (key, flag) =
    insert flag.source (insert key flag (flags_of (lookup flag.source collector))) collector

unfoldable pub collect : Dict Flag → Dict (Dict Flag)
unfolding collect_flag
collect all = foldl collect_flag [] all

-- `marshal` is `json.Marshal` of `{"flags": …, "metadata": …}`; `none` is an error.
module _ (marshal : Dict Flag → Metadata → Option String) (m : MemDb) where
  -- The second loop: a text for each collected source. An error ends it, and what was set stays.
  unfoldable pub fill_selectors : Store m → Dict (Dict Flag) → Dict String → Dict String × Bool
  unfolding get_metadata_for_source insert
  fill_selectors s [] texts = (texts, true)
  fill_selectors s ((source, flags) ∷ rest) texts =
      elim (marshal flags (get_metadata_for_source m s source)) [
        | none ↦ (texts, false)
        | some text ↦ fill_selectors s rest (insert source text texts)
      ]

  -- `reFill` once all flags are marshalled. The result tells whether it succeeds.
  unfoldable pub refill_with : Store m → Multiplexer → Option String → Multiplexer × Bool
  unfolding fill_selectors collect empty_configs
  refill_with s r none = (record r { selector_flags = empty_configs r.sources }, false)
  refill_with s r (some text) =
      let (texts, done) = fill_selectors s (collect (get_all m s).0) (empty_configs r.sources) in
      (record r { all_flags = text; selector_flags = texts }, done)

  -- `GetAll` of the store never fails.
  unfoldable pub refill : Store m → Multiplexer → Multiplexer × Bool
  unfolding refill_with get_all
  refill s r = refill_with s r (marshal (get_all m s).0 (get_all m s).1)

  unfoldable pub new_mux : Store m → List String → Multiplexer × Bool
  unfolding refill
  new_mux s sources = refill s (blank sources)

-- One text to each subscriber.
unfoldable pub to_all : String → Subscriptions → List Sent
to_all text [] = []
to_all text ((id, channel) ∷ rest) = (channel, text) ∷ to_all text rest

unfoldable pub to_selectors : Dict Subscriptions → Dict String → List Sent
unfolding to_all lookup
to_selectors subs [] = []
to_selectors subs ((source, flags) ∷ rest) =
    to_all flags (subscriptions_of (lookup source subs)) ++ to_selectors subs rest

module _ (marshal : Dict Flag → Metadata → Option String) (m : MemDb) where
  unfoldable pub publish : Store m → Multiplexer → Multiplexer × (SyncError ⊎ List Sent)
  unfolding refill to_all to_selectors
  publish s r =
      let (r', done) = refill marshal m s r in
      if done
      then (
        r',
        inr (to_all r'.all_flags r'.subs ++ to_selectors r'.selector_subs r'.selector_flags),
      )
      else (r', inl marshalling)

-- ===== src/Proxy.antt =====
-- flagd-proxy/pkg/service/subscriptions/manager.go: which targets the proxy watches, for which
-- subscribers. A goroutine that takes the lock is a turn; the sync source itself, its resyncs
-- and the channels of the subscribers are left out.
pub mod Served
pub mod Tests
use mathlib.Core.List.{foldl}
use flagd.Prelude.{
  ℕ, ◌+◌, eqb, Bool, true, false, ◌||◌, Option, none, some, List, [], ◌∷◌, length, String,
  if◌then◌else◌,
}
use flagd.Prelude.Dict.{Dict, lookup, insert, remove}

-- The keys of the subscribers, and whether the context of the watch is cancelled.
pub record Watch : Type 0 where
  pub subs : List ℕ
  pub is_cancelled : Bool

abbrev pub Coordinator : Type 0
Coordinator = Dict Watch

-- The assignment to `subs[key]`, and `delete(subs, key)`.
unfoldable pub add_key : ℕ → List ℕ → List ℕ
add_key key [] = key ∷ []
add_key key (k ∷ rest) = if eqb k key then k ∷ rest else k ∷ add_key key rest

unfoldable pub delete_key : ℕ → List ℕ → List ℕ
delete_key key [] = []
delete_key key (k ∷ rest) = if eqb k key then delete_key key rest else k ∷ delete_key key rest

abbrev pub no_subs : List ℕ → Bool
no_subs [] = true
no_subs (k ∷ rest) = false

-- `RegisterSubscription`: a target that is there already keeps its watch.
unfoldable pub register_subscription : Coordinator → String → ℕ → Coordinator
unfolding insert lookup add_key
register_subscription s target key = elim (lookup target s) [
  | none ↦ insert target (record { subs = key ∷ []; is_cancelled = false }) s
  | some sh ↦ insert target (record sh { subs = add_key key sh.subs }) s
]

-- The goroutine that waits for the end of a subscriber's context.
unfoldable pub end_subscription : Coordinator → String → ℕ → Coordinator
unfolding insert lookup delete_key
end_subscription s target key = elim (lookup target s) [
  | none ↦ s
  | some sh ↦ insert target (record sh { subs = delete_key key sh.subs }) s
]

-- What cancels a watch besides `cleanup`: `watchResource` returns, after an error of the source or its
-- end, or the context of the manager, from which that of the watch comes, is done.
unfoldable pub end_watch : Coordinator → String → Coordinator
unfolding insert lookup
end_watch s target = elim (lookup target s) [
  | none ↦ s
  | some sh ↦ insert target (record sh { is_cancelled = true }) s
]

-- The goroutine that waits for the end of a watch's context; before that it does nothing.
unfoldable pub delete_watch : Coordinator → String → Coordinator
unfolding remove lookup
delete_watch s target = elim (lookup target s) [
  | none ↦ s
  | some sh ↦ if sh.is_cancelled then remove target s else s
]

-- One round of `cleanup`.
unfoldable pub cleanup : Coordinator → Coordinator
cleanup [] = []
cleanup ((target, sh) ∷ rest) =
    (target, record sh { is_cancelled = sh.is_cancelled || no_subs sh.subs }) ∷ cleanup rest

-- `GetActiveSubscriptionsInt64`
unfoldable pub get_active_subscriptions : Coordinator → ℕ
get_active_subscriptions [] = 0
get_active_subscriptions ((target, sh) ∷ rest) = length sh.subs + get_active_subscriptions rest

-- The end of the manager's context reaches the watches one by one, those that are started later too.
pub data Turn : Type 0 where
  registered : String → ℕ → Turn
  context_done : String → ℕ → Turn
  source_failed : String → Turn
  manager_done : String → Turn
  watch_done : String → Turn
  tick : Turn

unfoldable pub step : Coordinator → Turn → Coordinator
unfolding register_subscription end_subscription end_watch delete_watch cleanup
step s (registered target key) = register_subscription s target key
step s (context_done target key) = end_subscription s target key
step s (source_failed target) = end_watch s target
step s (manager_done target) = end_watch s target
step s (watch_done target) = delete_watch s target
step s tick = cleanup s

unfoldable pub run : Coordinator → List Turn → Coordinator
unfolding step
run s [] = s
run s (turn ∷ rest) = run (step s turn) rest

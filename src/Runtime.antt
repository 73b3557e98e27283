-- ===== src/Runtime.antt =====
-- flagd/pkg/runtime/runtime.go: what the daemon does with a payload of a source, from the evaluator
-- to the subscribers of both services, with flagd/pkg/service/flag-evaluation/eventing.go. The set-up
-- and the end of the services are left out.
pub mod Emitted
pub mod Settles
pub mod Tests
use flagd.Prelude.{
  ℕ, zero, suc, Bool, true, false, not, ◌&&◌, Option, none, some, List, [], ◌∷◌, ◌++◌, String, ◌⊎◌,
  inl, inr, if◌then◌else◌,
}
use flagd.Prelude.Dict.{Dict}
use flagd.Model.{Flag, Metadata, Notification}
use flagd.Store.{MemDb, Store}
use flagd.Evaluator.Config.{DataSync, Parser, ConfigError, set_state}
use flagd.FlagSync.{Subscriptions, Multiplexer, Sent, SyncError}
use flagd.FlagSync.Startup.{SyncTracker, emit}

-- `EmitToAll`: the notifications go to the channel of each subscriber of events.
unfoldable pub emit_to_all : Dict Notification → Subscriptions → List (ℕ × Dict Notification)
emit_to_all n [] = []
emit_to_all n ((id, channel) ∷ rest) = (channel, n) ∷ emit_to_all n rest

-- What `updateAndEmit` does to the outside: an error is logged and nothing is sent.
pub data Effect : Type 0 where
  refused : ConfigError → Effect
  emitted :
      (notified : List (ℕ × Dict Notification)) (sent : Option (SyncError ⊎ List Sent)) → Effect

-- `isReady`, over what `IsReady` of each provider says.
unfoldable pub is_ready : List Bool → Bool
is_ready [] = true
is_ready (ready ∷ rest) = ready && is_ready rest

module _ (p : Parser) (marshal : Dict Flag → Metadata → Option String) (m : MemDb) where
  -- The evaluator's store, the event subscriptions and the flag sync service.
  pub record Runtime : Type 0 where
    pub store : Store m
    pub subs : Subscriptions
    pub startup_tracker : SyncTracker
    pub mux : Multiplexer

  -- The result tells whether a resync is required.
  unfoldable pub update_and_emit : Runtime → DataSync → Runtime × Bool × Effect
  unfolding set_state emit emit_to_all
  update_and_emit r payload =
      let (store, result) = set_state p m r.store payload in
      elim result [
        | inl err ↦ (r, false, refused err)
        | inr (notifications, resync_required) ↦
            let (tracker, mux, sent) =
              emit marshal m store r.startup_tracker r.mux resync_required payload.source in
            (
              record r { store = store; startup_tracker = tracker; mux = mux },
              resync_required,
              emitted (emit_to_all notifications r.subs) sent,
            )
      ]

  -- The watcher of the channel `dataSync`: a required resync makes each source, with what it now
  -- holds, send again. `none` means that the steps given were too few for the channel to drain.
  unfoldable pub watch : ℕ → Runtime → List DataSync → List DataSync → Option Runtime
  unfolding update_and_emit
  watch steps r sources [] = some r
  watch zero r sources (payload ∷ queue) = none
  watch (suc steps) r sources (payload ∷ queue) =
      let (r', resync_required, effect) = update_and_emit r payload in
      watch steps r' sources (if resync_required then queue ++ sources else queue)

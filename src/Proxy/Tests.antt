-- ===== src/Proxy/Tests.antt =====
-- Two subscribers of one target; one leaves, the cleanup runs, and another registers too late.
use flagd.Prelude.{none, List, [], ◌∷◌, ◌≡◌, inr, refl, arith, eq_iff}
use flagd.Prelude.Dict.{lookup}
use flagd.Proxy.{
  Turn, registered, context_done, source_failed, watch_done, tick, register_subscription,
  get_active_subscriptions, run,
}
use flagd.Proxy.Served.{IsServed, run-IsServed}

program : Unit {0}
unfolding run get_active_subscriptions lookup
program = tt

abbrev quiet : List Turn
quiet = registered "file" 2 ∷ context_done "file" 2 ∷ tick ∷ source_failed "http" ∷ []

-- The third subscriber registers after the watch is cancelled and before it is deleted: it is
-- counted at first, and then no watch of the target is left.
abbrev late : List Turn
late = registered "file" 1 ∷ context_done "file" 1 ∷ tick ∷ registered "file" 3 ∷ []

runs :
    (get_active_subscriptions (run [] quiet) ≡ 0)
    × (get_active_subscriptions (run [] (registered "file" 1 ∷ quiet)) ≡ 1)
    × (get_active_subscriptions (run [] late) ≡ 1)
    × (lookup "file" (run (run [] late) (watch_done "file" ∷ [])) ≡ none)
unfolding program
runs = (refl, refl, refl, refl)

run-IsServed_example : IsServed (run (register_subscription [] "file" 1) quiet) "file" 1
unfolding program
run-IsServed_example = run-IsServed [] "file" 1 quiet refl (
  tt,
  (
    inr (λ e. absurd (ground (arith, e))),
    (tt, (λ e. absurd (ground (arith, e, eq_iff "http" "file")), tt)),
  ),
)

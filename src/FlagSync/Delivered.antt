-- ===== src/FlagSync/Delivered.antt =====
-- Which channels `Publish` sends to: those of every subscription.
use flagd.Prelude.{ℕ, some, [], ◌∷◌, String, ◌==◌, ◌≡◌, inl, inr, eq_iff, arith, Bool-cases, ap}
use flagd.Prelude.Tests.{In, In-append_left, In-append_right}
use flagd.Prelude.Dict.{Dict, lookup}
use flagd.FlagSync.{Subscriptions, subscriptions_of, to_all, to_selectors}

pub In-to_all :
    (id c : ℕ) (text : String) (subs : Subscriptions)
    → In (id, c) subs
    → In (c, text) (to_all text subs)
unfolding to_all
In-to_all id c text [] i = absurd i
In-to_all id c text ((j, d) ∷ rest) (inl e) = inl (ap (λ (p : ℕ × ℕ). (p.1, text)) e)
In-to_all id c text ((j, d) ∷ rest) (inr i) = inr (In-to_all id c text rest i)

pub In-to_selectors :
    (id c : ℕ) (k text : String) (subs : Dict Subscriptions) (texts : Dict String)
    → lookup k texts ≡ some text
    → In (id, c) (subscriptions_of (lookup k subs))
    → In (c, text) (to_selectors subs texts)
unfolding to_selectors lookup
In-to_selectors id c k text subs [] found i = absurd (ground (arith, found))
In-to_selectors id c k text subs ((source, flags) ∷ rest) found i =
    elim (Bool-cases (source == k)) [
      | inl e ↦
          let same = (eq_iff source k).0 e in
          let flags_text : flags ≡ text = ground (arith, e, found) in
          In-append_left (c, text) (to_all flags (subscriptions_of (lookup source subs)))
            (to_selectors subs rest)
            (rw (flags_text, same) (In-to_all id c text (subscriptions_of (lookup k subs)) i))
      | inr e ↦
          In-append_right (c, text) (to_all flags (subscriptions_of (lookup source subs)))
            (to_selectors subs rest) (In-to_selectors id c k text subs rest (rw e at found) i)
    ]

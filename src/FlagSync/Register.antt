-- ===== src/FlagSync/Register.antt =====
-- `Register`, `Unregister` and `GetAllFlags`.
use flagd.Prelude.{
  ◌&&◌, eq_refl, Option-cases, ℕ, eqb, true, [], ◌∷◌, String, ◌==◌, ◌≡◌, ◌≢◌, ◌⊎◌, ◌↔◌, refl, inl,
  inr, eq_iff, arith, Bool-cases, if◌then◌else◌,
}
use flagd.Prelude.Tests.{In}
use flagd.Prelude.Dict.{lookup, lookup-insert}
use flagd.FlagSync.{
  Subscriptions, subscribe, without, Multiplexer, no_watcher, contains, subscriptions_of, text_of,
  is_known, register, unregister, get_all_flags,
}

-- `Register` and `GetAllFlags` know the same sources: either both refuse the source, and nothing
-- changes, or the first text that the subscriber gets is the one that `GetAllFlags` returns.
pub register-get_all_flags :
    (r : Multiplexer) (id : ℕ) (source : String) (channel : ℕ)
    → ((register r id source channel ≡ (r, inl (no_watcher source)))
        × (get_all_flags r source ≡ inl (no_watcher source)))
      ⊎ ((text : String) × ((register r id source channel).1 ≡ inr ((channel, text) ∷ []))
          × (get_all_flags r source ≡ inr text))
unfolding register get_all_flags is_known
register-get_all_flags r id source channel = elim (Bool-cases (source == "")) [
  | inl e ↦ inr (r.all_flags, ground (arith, e), ground (arith, e))
  | inr e ↦ elim (Bool-cases (contains r.sources source)) [
    | inl c ↦
        inr (text_of (lookup source r.selector_flags), ground (arith, e, c), ground (arith, e, c))
    | inr c ↦ inl (ground (arith, e, c), ground (arith, e, c))
  ]
]

-- The subscriptions of a source; the empty text stands for all sources.
unfoldable pub subscriptions : Multiplexer → String → Subscriptions
unfolding lookup
subscriptions r source =
    if source == "" then r.subs else subscriptions_of (lookup source r.selector_subs)

In-subscribe :
    (id channel : ℕ) (subs : Subscriptions) → In (id, channel) (subscribe id channel subs)
unfolding subscribe
In-subscribe id channel [] = inl refl
In-subscribe id channel ((i, c) ∷ rest) = elim (Bool-cases (eqb i id)) [
  | inl e ↦ rw e (inl refl)
  | inr e ↦ rw e (inr (In-subscribe id channel rest))
]

pub In-without :
    (id j c : ℕ) (subs : Subscriptions) → In (j, c) (without id subs) ↔ (In (j, c) subs × (j ≢ id))
unfolding without
In-without id j c [] = (λ h. absurd h, λ h. absurd h.0)
In-without id j c ((i, d) ∷ rest) =
    (λ h. ground (arith, h, In-without id j c rest), λ h. ground (arith, h, In-without id j c rest))

-- A registration that is not refused sets the subscriber's channel for its source, and touches no
-- other source; one that is refused changes nothing.
pub subscriptions-register :
    (r : Multiplexer) (id : ℕ) (source : String) (channel : ℕ) (k : String)
    → subscriptions (register r id source channel).0 k ≡ (
        if is_known r source && source == k
        then subscribe id channel (subscriptions r k)
        else subscriptions r k)
unfolding register subscriptions is_known
subscriptions-register r id source channel k = ground (
  arith,
  lookup-insert source k (subscribe id channel (subscriptions_of (lookup source r.selector_subs)))
      r.selector_subs,
  eq_iff source k,
  eq_iff source "",
  eq_iff k "",
)

-- `Unregister` takes the subscriber out of its source, and touches no other source.
pub subscriptions-unregister :
    (r : Multiplexer) (id : ℕ) (source k : String)
    → subscriptions (unregister r id source) k
      ≡ (if source == k then without id (subscriptions r k) else subscriptions r k)
unfolding unregister subscriptions
subscriptions-unregister r id source k = elim (Option-cases (lookup source r.selector_subs)) [
  | inl n ↦ ground (arith, n, eq_iff source k, eq_iff source "", eq_iff k "")
  | inr (subs, n) ↦ ground (
    arith,
    n,
    lookup-insert source k (without id subs) r.selector_subs,
    eq_iff source k,
    eq_iff source "",
    eq_iff k "",
  )
]

-- After a registration that is not refused, the subscriber is among the source's.
pub register-In :
    (r : Multiplexer) (id : ℕ) (source : String) (channel : ℕ)
    → is_known r source ≡ true
    → In (id, channel) (subscriptions (register r id source channel).0 source)
register-In r id source channel known =
    rw (subscriptions-register r id source channel source, known, eq_refl source)
      (In-subscribe id channel (subscriptions r source))

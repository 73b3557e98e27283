-- ===== src/FlagSync/Publish.antt =====
-- `Publish` reaches every subscriber, in every state that the operations lead to.
use flagd.Prelude.{
  ℕ, true, false, ◌&&◌, Option, none, some, List, [], ◌++◌, String, ◌==◌, ◌≡◌, refl, inl, inr,
  eq_iff, arith, Bool-cases, sym, ap, ◌∙◌, subst,
}
use flagd.Prelude.Tests.{In, In-append_left, In-append_right}
use flagd.Prelude.Dict.{Dict, lookup}
use flagd.Model.{Flag, Metadata}
use flagd.Store.{MemDb, Store}
use flagd.FlagSync.{
  blank, Multiplexer, Sent, contains, subscriptions_of, is_known, register, unregister,
  get_all_flags, refill_with, refill, new_mux, to_all, to_selectors, publish,
}
use flagd.FlagSync.Delivered.{In-to_all, In-to_selectors}
use flagd.FlagSync.Refill.{refill_known}
use flagd.FlagSync.Register.{
  subscriptions, subscriptions-register, subscriptions-unregister, In-without,
}

module _ (marshal : Dict Flag → Metadata → Option String) (m : MemDb) where
  pub data Step (r : Multiplexer) : Multiplexer → Type 0 where
    registered : (id : ℕ) (source : String) (channel : ℕ) → Step r (register r id source channel).0
    unregistered : (id : ℕ) (source : String) → Step r (unregister r id source)
    published : (s : Store m) → Step r (publish marshal m s r).0

  -- What the operations make of a new multiplexer.
  pub data Reach (s : Store m) (sources : List String) : Multiplexer → Type 0 where
    fresh : Reach s sources (new_mux marshal m s sources).0
    next : {r r' : Multiplexer} → Reach s sources r → Step r r' → Reach s sources r'

  -- The subscribers and the sources are left alone.
  abbrev IsKept : Multiplexer → Multiplexer → Type 0
  IsKept r r' = (r'.sources ≡ r.sources) × (r'.subs ≡ r.subs) × (r'.selector_subs ≡ r.selector_subs)

  refill_with-IsKept :
      (s : Store m) (r : Multiplexer) (text : Option String)
      → IsKept r (refill_with marshal m s r text).0
  unfolding refill_with
  refill_with-IsKept s r none = (refl, refl, refl)
  refill_with-IsKept s r (some text) = (refl, refl, refl)

  pub refill-IsKept : (s : Store m) (r : Multiplexer) → IsKept r (refill marshal m s r).0
  unfolding refill
  refill-IsKept s r = refill_with-IsKept s r _

  pub publish-refill :
      (s : Store m) (r : Multiplexer) → (publish marshal m s r).0 ≡ (refill marshal m s r).0
  unfolding publish
  publish-refill s r = ground arith

  publish-IsKept : (s : Store m) (r : Multiplexer) → IsKept r (publish marshal m s r).0
  publish-IsKept s r = rw (publish-refill s r) (refill-IsKept s r)

  kept-subscriptions :
      (r r' : Multiplexer) (k : String) → IsKept r r' → subscriptions r' k ≡ subscriptions r k
  unfolding subscriptions
  kept-subscriptions r r' k h = ground (arith, h)

  kept-is_known : (r r' : Multiplexer) (k : String) → IsKept r r' → is_known r' k ≡ is_known r k
  unfolding is_known
  kept-is_known r r' k h = ground (arith, h)

  register-is_known :
      (r : Multiplexer) (id : ℕ) (source : String) (c : ℕ) (k : String)
      → is_known (register r id source c).0 k ≡ is_known r k
  unfolding is_known register
  register-is_known r id source c k = ground arith

  unregister-is_known :
      (r : Multiplexer) (id : ℕ) (source k : String)
      → is_known (unregister r id source) k ≡ is_known r k
  unfolding is_known unregister
  unregister-is_known r id source k = ground arith

  -- Only known sources have subscribers.
  abbrev IsServed : Multiplexer → Type 0
  IsServed r = (k : String) (id c : ℕ) → In (id, c) (subscriptions r k) → is_known r k ≡ true

  Step-IsServed : {r r' : Multiplexer} → Step r r' → IsServed r → IsServed r'
  Step-IsServed {r} (registered id source channel) h k j c i =
      register-is_known r id source channel k
      ∙ elim (Bool-cases (is_known r source && source == k)) [
        | inl e ↦ ground (arith, e, eq_iff source k)
        | inr e ↦ h k j c (rw (subscriptions-register r id source channel k, e) at i)
      ]
  Step-IsServed {r} (unregistered id source) h k j c i =
      unregister-is_known r id source k ∙ elim (Bool-cases (source == k)) [
        | inl e ↦
            h k j c
              ((In-without id j c (subscriptions r k)).0
                (rw (subscriptions-unregister r id source k, e) at i)).0
        | inr e ↦ h k j c (rw (subscriptions-unregister r id source k, e) at i)
      ]
  Step-IsServed {r} (published s) h k j c i =
      let kept = publish-IsKept s r in
      kept-is_known r (publish marshal m s r).0 k kept
      ∙ h k j c (rw (kept-subscriptions r (publish marshal m s r).0 k kept) at i)

  subscriptions-blank : (sources : List String) (k : String) → subscriptions (blank sources) k ≡ []
  unfolding subscriptions lookup
  subscriptions-blank sources k = ground arith

  new_mux-empty :
      (s : Store m) (sources : List String) (k : String)
      → subscriptions (new_mux marshal m s sources).0 k ≡ []
  unfolding new_mux
  new_mux-empty s sources k =
      kept-subscriptions (blank sources) (refill marshal m s (blank sources)).0 k
        (refill-IsKept s (blank sources))
      ∙ subscriptions-blank sources k

  pub Reach-IsServed :
      {s : Store m} {sources : List String} {r : Multiplexer} → Reach s sources r → IsServed r
  Reach-IsServed {s} {sources} fresh = λ k id c i. absurd (rw (new_mux-empty s sources k) at i)
  Reach-IsServed (next reach step) = Step-IsServed step (Reach-IsServed reach)

  pub publish_sent :
      (s : Store m) (r : Multiplexer) (sends : List Sent)
      → (publish marshal m s r).1 ≡ inr sends
      → ((refill marshal m s r).1 ≡ true)
        × (sends
            ≡ to_all (refill marshal m s r).0.all_flags (refill marshal m s r).0.subs
              ++ to_selectors
                  (refill marshal m s r).0.selector_subs
                  (refill marshal m s r).0.selector_flags)
  unfolding publish
  publish_sent s r sends h = elim (Bool-cases (refill marshal m s r).1) [
    | inl e ↦ (e, ground (arith, e, h))
    | inr e ↦ absurd (ground (arith, e, h))
  ]

  get_all_flags_everything :
      (r : Multiplexer) (k : String) → (k == "") ≡ true → get_all_flags r k ≡ inr r.all_flags
  unfolding get_all_flags
  get_all_flags_everything r k e = ground (arith, e)

  get_all_flags_source :
      (r : Multiplexer) (k text : String)
      → (k == "") ≡ false
      → contains r.sources k ≡ true
      → lookup k r.selector_flags ≡ some text
      → get_all_flags r k ≡ inr text
  unfolding get_all_flags
  get_all_flags_source r k text e known found = ground (arith, e, known, found)

  subscriptions_everything :
      (r : Multiplexer) (k : String) → (k == "") ≡ true → subscriptions r k ≡ r.subs
  unfolding subscriptions
  subscriptions_everything r k e = ground (arith, e)

  subscriptions_source :
      (r : Multiplexer) (k : String)
      → (k == "") ≡ false
      → subscriptions r k ≡ subscriptions_of (lookup k r.selector_subs)
  unfolding subscriptions
  subscriptions_source r k e = ground (arith, e)

  contains_of_is_known :
      (r : Multiplexer) (k : String)
      → (k == "") ≡ false
      → is_known r k ≡ true
      → contains r.sources k ≡ true
  unfolding is_known
  contains_of_is_known r k e h = ground (arith, e, h)

  pub subscriptions-publish :
      (s : Store m) (r : Multiplexer) (k : String)
      → subscriptions (publish marshal m s r).0 k ≡ subscriptions r k
  subscriptions-publish s r k =
      kept-subscriptions r (publish marshal m s r).0 k (publish-IsKept s r)

  -- In every state that registrations, unregistrations and publications lead to: if `Publish`
  -- succeeds, each subscriber of a source, or of all sources, is sent the text that `GetAllFlags`
  -- then returns for its source.
  pub publish-get_all_flags :
      (s0 s : Store m) (sources : List String) (r : Multiplexer) (sends : List Sent) (k : String)
      (id c : ℕ)
      → Reach s0 sources r
      → (publish marshal m s r).1 ≡ inr sends
      → In (id, c) (subscriptions r k)
      → (text : String) × (get_all_flags (publish marshal m s r).0 k ≡ inr text)
        × In (c, text) sends
  publish-get_all_flags s0 s sources r sends k id c reach h i =
      let (done, sent) = publish_sent s r sends h in
      let r' = (refill marshal m s r).0 in
      let kept = refill-IsKept s r in
      let same = kept-subscriptions r r' k kept in
      let known = kept-is_known r r' k kept ∙ Reach-IsServed reach k id c i in
      elim (Bool-cases (k == "")) [
        | inl e ↦
            let here =
              subst (λ subs. In (id, c) subs) (sym same ∙ subscriptions_everything r' k e) i in
            (
              r'.all_flags,
              rw (publish-refill s r) (get_all_flags_everything r' k e),
              rw sent (
                  In-append_left (c, r'.all_flags) (to_all r'.all_flags r'.subs)
                    (to_selectors r'.selector_subs r'.selector_flags)
                    (In-to_all id c r'.all_flags r'.subs here)),
            )
        | inr e ↦
            let here = subst (λ subs. In (id, c) subs) (sym same ∙ subscriptions_source r' k e) i in
            let (text, found, expected) =
              refill_known marshal m s k r done
                (ap (λ l. contains l k) (sym kept.0) ∙ contains_of_is_known r' k e known) in
            (
              text,
              rw (publish-refill s r)
                  (get_all_flags_source r' k text e (contains_of_is_known r' k e known) found),
              rw sent (
                  In-append_right (c, text) (to_all r'.all_flags r'.subs)
                    (to_selectors r'.selector_subs r'.selector_flags)
                    (In-to_selectors id c k text r'.selector_subs r'.selector_flags found here)),
            )
      ]

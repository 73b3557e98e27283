-- ===== src/Runtime/Settles.antt =====
-- Resyncs do not go on for ever: the comment in `Start` on resync events that trigger others.
use flagd.Prelude.{
  ℕ, ◌≤◌, zero, suc, true, false, Option, some, List, [], ◌∷◌, ◌++◌, length, String, ◌≡◌, ◌⊎◌, inl,
  inr, refl, ap, subst, ◌∙◌, arith, Bool-cases, if◌then◌else◌,
}
use flagd.Prelude.Tests.{In, All}
use flagd.Prelude.Dict.{Dict}
use flagd.Model.{Flag, Metadata}
use flagd.Store.{MemDb, Store}
use flagd.Evaluator.Config.{DataSync, Parser, config_to_flag_definition, set_state}
use flagd.Evaluator.WellFormed.{Result-cases}
use flagd.Evaluator.Reflected.{
  same_source, IsReflected, resyncs, set_state-IsReflected, set_state-kept, resyncs-IsReflected,
}
use flagd.Runtime.{Runtime, update_and_emit, watch}

All-In :
    (sources l : List DataSync)
    → ((c : DataSync) → In c l → In c sources)
    → All (λ c. In c sources) l
All-In sources [] h = tt
All-In sources (c ∷ rest) h = (h c (inl refl), All-In sources rest (λ d j. h d (inr j)))

module _ (p : Parser) (marshal : Dict Flag → Metadata → Option String) (m : MemDb) where
  store-update_and_emit :
      (r : Runtime p marshal m) (payload : DataSync)
      → (update_and_emit p marshal m r payload).0.store ≡ (set_state p m r.store payload).0
  unfolding update_and_emit set_state
  store-update_and_emit r payload =
      elim (Result-cases (config_to_flag_definition p payload.flag_data)) [
        | inl (err, n) ↦ ground (arith, n)
        | inr (definition, n) ↦ ground (arith, n)
      ]

  resync-update_and_emit :
      (r : Runtime p marshal m) (payload : DataSync)
      → (update_and_emit p marshal m r payload).1 ≡ resyncs p m r.store payload
  unfolding update_and_emit set_state
  resync-update_and_emit r payload =
      elim (Result-cases (config_to_flag_definition p payload.flag_data)) [
        | inl (err, n) ↦ ground (arith, n)
        | inr (definition, n) ↦ ground (arith, n)
      ]

  watch-empty :
      (steps : ℕ) (r : Runtime p marshal m) (sources : List DataSync)
      → watch p marshal m steps r sources [] ≡ some r
  unfolding watch
  watch-empty zero r sources = refl
  watch-empty (suc steps) r sources = refl

  -- One step of the watcher, with and without a resync.
  watch-resync :
      (steps : ℕ) (r : Runtime p marshal m) (sources queue : List DataSync) (payload : DataSync)
      → (update_and_emit p marshal m r payload).1 ≡ true
      → watch p marshal m (suc steps) r sources (payload ∷ queue)
        ≡ watch p marshal m steps
            (update_and_emit p marshal m r payload).0
            sources
            (queue ++ sources)
  unfolding watch
  watch-resync steps r sources queue payload h =
      ap
        (λ b.
          watch p marshal m steps (update_and_emit p marshal m r payload).0 sources
            (if b then queue ++ sources else queue))
        h

  watch-no_resync :
      (steps : ℕ) (r : Runtime p marshal m) (sources queue : List DataSync) (payload : DataSync)
      → (update_and_emit p marshal m r payload).1 ≡ false
      → watch p marshal m (suc steps) r sources (payload ∷ queue)
        ≡ watch p marshal m steps (update_and_emit p marshal m r payload).0 sources queue
  unfolding watch
  watch-no_resync steps r sources queue payload h =
      ap
        (λ b.
          watch p marshal m steps (update_and_emit p marshal m r payload).0 sources
            (if b then queue ++ sources else queue))
        h

  module _ (sources : List DataSync) where
    -- Two payloads of one source and selector are the same.
    abbrev pub IsConsistent : Type 0
    IsConsistent = (a b : DataSync) → In a sources → In b sources → same_source a b ≡ true → a ≡ b

    -- The store has nothing of a source that the source does not give.
    abbrev pub AllReflected : Store m → Type 0
    AllReflected s = (c : DataSync) → In c sources → IsReflected p m s c

    set_state-AllReflected :
        (s : Store m) (payload : DataSync)
        → IsConsistent
        → In payload sources
        → ((c : DataSync) → In c sources → (same_source payload c ≡ true) ⊎ IsReflected p m s c)
        → AllReflected (set_state p m s payload).0
    set_state-AllReflected s payload consistent i h c j =
        elim (Bool-cases (same_source payload c)) [
          | inl same ↦
              subst (λ d. IsReflected p m (set_state p m s payload).0 d)
                (consistent payload c i j same) (set_state-IsReflected p m s payload)
          | inr apart ↦ set_state-kept p m s payload c apart (elim (h c j) [
            | inl same ↦ absurd (ground (arith, same, apart))
            | inr reflected ↦ reflected
          ])
        ]

    -- A channel of what the sources hold drains without a resync.
    watch_quiet :
        (steps : ℕ) (r : Runtime p marshal m) (queue : List DataSync)
        → IsConsistent
        → AllReflected r.store
        → All (λ c. In c sources) queue
        → length queue ≤ steps
        → (r' : Runtime p marshal m) × (watch p marshal m steps r sources queue ≡ some r')
          × AllReflected r'.store
    unfolding watch
    watch_quiet steps r [] consistent h i enough = (r, refl, h)
    watch_quiet zero r (payload ∷ queue) consistent h (i, is) enough =
        absurd (ground (arith, enough))
    watch_quiet (suc steps) r (payload ∷ queue) consistent h (i, is) enough =
        let after = (update_and_emit p marshal m r payload).0 in
        let reflected : AllReflected after.store =
          rw (store-update_and_emit r payload)
            (set_state-AllReflected r.store payload consistent i (λ c j. inr (h c j))) in
        let (r', drained, h') =
          watch_quiet steps after queue consistent reflected is (ground (arith, enough)) in
        let quiet : (update_and_emit p marshal m r payload).1 ≡ false =
          resync-update_and_emit r payload
          ∙ resyncs-IsReflected p m r.store payload (h payload i) in
        (r', watch-no_resync steps r sources queue payload quiet ∙ drained, h')

  -- If the sources' payloads are given once for each source and selector, and every source but the
  -- one of `payload` is reflected in the store, then the channel that starts with `payload` drains,
  -- in no more than one step and one for each source, whatever resyncs are required.
  pub watch_settles :
      (r : Runtime p marshal m) (payload : DataSync) (sources : List DataSync)
      → IsConsistent sources
      → In payload sources
      → ((c : DataSync) → In c sources → (same_source payload c ≡ true) ⊎ IsReflected p m r.store c)
      → (r' : Runtime p marshal m) × (watch p marshal m
            (suc (length sources))
            r
            sources
            (payload ∷ [])
          ≡ some r')
        × AllReflected sources r'.store
  watch_settles r payload sources consistent i h =
      let after = (update_and_emit p marshal m r payload).0 in
      let reflected : AllReflected sources after.store =
        rw (store-update_and_emit r payload)
          (set_state-AllReflected sources r.store payload consistent i h) in
      elim (Bool-cases (update_and_emit p marshal m r payload).1) [
        | inl asked ↦
            let (r', drained, h') =
              watch_quiet sources (length sources) after sources consistent reflected
                (All-In sources sources (λ c j. j)) (ground arith) in
            (r', watch-resync (length sources) r sources [] payload asked ∙ drained, h')
        | inr quiet ↦ (
          after,
          watch-no_resync (length sources) r sources [] payload quiet
              ∙ watch-empty (length sources) after sources,
          reflected,
        )
      ]

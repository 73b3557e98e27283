-- ===== src/Evaluator/Reflected.antt =====
-- When the store has nothing of a source that its payload does not give, and what `SetState` makes
-- of that.
use flagd.Prelude.{
  Bool, true, false, ◌&&◌, Option, none, some, List, String, ◌==◌, ◌≡◌, ◌≢◌, ◌⊎◌, inl, inr, sym, ap,
  ◌∙◌, arith, eq_iff, Bool-cases, Option-cases, is_some,
}
use flagd.Prelude.Dict.{has, lookup}
use flagd.Model.{Flag}
use flagd.Store.{MemDb, Store, update, has_priority}
use flagd.Store.Update.{settled, update-settled}
use flagd.Store.Resync.{update-resync_iff}
use flagd.Evaluator.Config.{DataSync, Definition, Parser, config_to_flag_definition, set_state}
use flagd.Evaluator.WellFormed.{
  Result-cases, config-HasDistinctKeys, set_state_ok, set_state_failed,
}

-- Whether two payloads are of the same source and selector.
abbrev pub same_source : DataSync → DataSync → Bool
same_source a b = a.source == b.source && a.selector == b.selector

module _ (p : Parser) (m : MemDb) where
  -- Each stored flag of the payload's source and selector is one that the payload gives.
  abbrev pub IsReflected : Store m → DataSync → Type 0
  IsReflected s payload =
      (definition : Definition)
      → config_to_flag_definition p payload.flag_data ≡ inr definition
      → (k : String) (flag : Flag) → m.first s.db k ≡ some flag
      → flag.source ≡ payload.source
      → flag.selector ≡ payload.selector
      → has k definition.flags ≡ true

  -- A payload that is refused, or taken in without a resync.
  abbrev pub resyncs : Store m → DataSync → Bool
  resyncs s payload = elim (set_state p m s payload).1 [
    | inl err ↦ false
    | inr (events, resync) ↦ resync
  ]

  -- What was stored under a key that is kept, or that the payload gives.
  settled-kept :
      (sources : List String) (source selector k : String) (old given : Option Flag) (flag : Flag)
      → settled sources source selector k old given ≡ some flag
      → ((old ≡ some flag)
          × (((flag.source == source && flag.selector == selector) ≡ false)
              ⊎ (is_some given ≡ true)))
        ⊎ ((is_some given ≡ true) × (flag.source ≡ source) × (flag.selector ≡ selector))
  unfolding settled
  settled-kept sources source selector k none none flag e = absurd (ground (arith, e))
  settled-kept sources source selector k (some old) none flag e = ground (arith, e)
  settled-kept sources source selector k none (some given) flag e = ground (arith, e)
  settled-kept sources source selector k (some old) (some given) flag e =
      elim (Bool-cases (has_priority sources old.source source)) [
        | inl wins ↦ ground (arith, e, wins)
        | inr loses ↦ ground (arith, e, loses)
      ]

  set_state-settled :
      (s : Store m) (payload : DataSync) (definition : Definition) (k : String)
      → config_to_flag_definition p payload.flag_data ≡ inr definition
      → k ≢ ""
      → m.first (set_state p m s payload).0.db k
        ≡ settled s.flag_sources payload.source payload.selector k
            (m.first s.db k)
            (lookup k definition.flags)
  set_state-settled s payload definition k parsed named =
      ap (λ (t : Store m). m.first t.db k) (set_state_ok p m s payload definition parsed)
      ∙ update-settled m payload.source payload.selector s definition.flags definition.metadata
          (config-HasDistinctKeys p m s payload definition parsed) k named

  -- A flag that is stored after a payload was accepted.
  set_state-stored :
      (s : Store m) (payload : DataSync) (definition : Definition) (k : String) (flag : Flag)
      → config_to_flag_definition p payload.flag_data ≡ inr definition
      → m.first (set_state p m s payload).0.db k ≡ some flag
      → ((m.first s.db k ≡ some flag)
          × (((flag.source == payload.source && flag.selector == payload.selector) ≡ false)
              ⊎ (has k definition.flags ≡ true)))
        ⊎ ((has k definition.flags ≡ true)
            × (flag.source ≡ payload.source)
            × (flag.selector ≡ payload.selector))
  set_state-stored s payload definition k flag parsed stored =
      settled-kept s.flag_sources payload.source payload.selector k (m.first s.db k)
        (lookup k definition.flags) flag
        (sym (
            set_state-settled s payload definition k parsed
              (m.key-nonempty (set_state p m s payload).0.db k flag stored))
          ∙ stored)

  -- Taking in a payload makes it reflected.
  pub set_state-IsReflected :
      (s : Store m) (payload : DataSync) → IsReflected (set_state p m s payload).0 payload
  set_state-IsReflected s payload definition parsed k flag stored same_src same_sel =
      elim (set_state-stored s payload definition k flag parsed stored) [
        | inl (was, inl apart) ↦ absurd (
            ground (
              arith,
              apart,
              same_src,
              same_sel,
              eq_iff flag.source payload.source,
              eq_iff flag.selector payload.selector,
            ))
        | inl (was, inr given) ↦ given
        | inr (given, src, sel) ↦ given
      ]

  -- A payload of another source or selector leaves it reflected.
  pub set_state-kept :
      (s : Store m) (payload other : DataSync)
      → same_source payload other ≡ false
      → IsReflected s other
      → IsReflected (set_state p m s payload).0 other
  set_state-kept s payload other apart h definition parsed k flag stored same_src same_sel =
      elim (Result-cases (config_to_flag_definition p payload.flag_data)) [
        | inl (err, n) ↦
            h definition parsed k flag (rw (set_state_failed p m s payload err n) at stored)
              same_src same_sel
        | inr (taken, n) ↦ elim (set_state-stored s payload taken k flag n stored) [
          | inl (was, why) ↦ h definition parsed k flag was same_src same_sel
          | inr (given, src, sel) ↦ absurd (
              ground (
                arith,
                apart,
                src,
                sel,
                same_src,
                same_sel,
                eq_iff payload.source other.source,
                eq_iff payload.selector other.selector,
              ))
        ]
      ]

  resyncs-update :
      (s : Store m) (payload : DataSync) (definition : Definition)
      → config_to_flag_definition p payload.flag_data ≡ inr definition
      → resyncs s payload
        ≡ (update m payload.source payload.selector s definition.flags definition.metadata).2
  unfolding set_state
  resyncs-update s payload definition n = ground (arith, n)

  update-quiet :
      (s : Store m) (payload : DataSync) (definition : Definition)
      → config_to_flag_definition p payload.flag_data ≡ inr definition
      → ((k : String) (flag : Flag)
          → m.first s.db k ≡ some flag
          → flag.source ≡ payload.source
          → flag.selector ≡ payload.selector
          → has k definition.flags ≡ true)
      → (update m payload.source payload.selector s definition.flags definition.metadata).2 ≡ false
  unfolding settled
  update-quiet s payload definition n h =
      let changed =
        update m payload.source payload.selector s definition.flags definition.metadata in
      let distinct = config-HasDistinctKeys p m s payload definition n in
      elim (Bool-cases changed.2) [
        | inr quiet ↦ quiet
        | inl asked ↦
            let (k, was, gone) =
              (update-resync_iff m payload.source payload.selector s definition.flags
                  definition.metadata distinct).0
                asked in
            elim (Option-cases (m.first s.db k)) [
              | inl none_stored ↦ absurd (was none_stored)
              | inr (flag, stored) ↦ absurd (
                  ground (
                    arith,
                    stored,
                    gone,
                    h k flag stored,
                    eq_iff flag.source payload.source,
                    eq_iff flag.selector payload.selector,
                    update-settled m payload.source payload.selector s definition.flags
                        definition.metadata distinct k (m.key-nonempty s.db k flag stored),
                  ))
            ]
      ]

  -- A payload that is reflected asks for no resync.
  pub resyncs-IsReflected :
      (s : Store m) (payload : DataSync) → IsReflected s payload → resyncs s payload ≡ false
  resyncs-IsReflected s payload h =
      elim (Result-cases (config_to_flag_definition p payload.flag_data)) [
        | inl (err, n) ↦ ground (arith, set_state_failed p m s payload err n)
        | inr (definition, n) ↦
            resyncs-update s payload definition n
            ∙ update-quiet s payload definition n (h definition n)
      ]

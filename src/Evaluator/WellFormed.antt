-- ===== src/Evaluator/WellFormed.antt =====
-- Every stored flag has its default variant, whatever payloads come, accepted or refused.
use flagd.Prelude.{
  List, sym, ◌∙◌, Option, none, some, String, ◌≡◌, ◌⊎◌, inl, inr, true, arith, eq_iff, refl,
  Option-cases, [], ◌∷◌,
}
use flagd.Prelude.Dict.{Dict, lookup, has, HasDistinctKeys}
use flagd.Model.{Flag, entries}
use flagd.Store.{MemDb, Store, update}
use flagd.Store.Update.{settled, update-settled}
use flagd.Evaluator.Config.{
  DataSync, Definition, Parser, ConfigError, Result, validate_default_variants, unmarshal_valid,
  config_to_flag_definition, transpose_evaluators, set_state,
}

-- The default variant is missing or one of the flag's variants.
abbrev pub HasValidDefault : Flag → Type 0
HasValidDefault flag =
    (flag.default_variant ≡ "") ⊎ (has flag.default_variant (entries flag.variants) ≡ true)

abbrev pub IsWellFormed : (m : MemDb) → Store m → Type 0
IsWellFormed m s = (k : String) (flag : Flag) → m.first s.db k ≡ some flag → HasValidDefault flag

validate_default_variants-HasValidDefault :
    (flags : Dict Flag) (k : String) (flag : Flag)
    → validate_default_variants flags ≡ none
    → lookup k flags ≡ some flag
    → HasValidDefault flag
unfolding validate_default_variants lookup
validate_default_variants-HasValidDefault [] k flag h l = absurd (ground (arith, l))
validate_default_variants-HasValidDefault ((name, f) ∷ rest) k flag h l = ground (
  arith,
  h,
  l,
  eq_iff f.default_variant "",
  validate_default_variants-HasValidDefault rest k flag,
)

pub Result-cases :
    {A : Type 0} (r : Result A) → ((err : ConfigError) × (r ≡ inl err)) ⊎ ((a : A) × (r ≡ inr a))
Result-cases (inl err) = inl (err, refl)
Result-cases (inr a) = inr (a, refl)

module _ (p : Parser) (m : MemDb) (s : Store m) (payload : DataSync) where
  unmarshal_valid_ok :
      (text : String) (definition : Definition)
      → unmarshal_valid p text ≡ inr definition
      → (p.unmarshal_definition text ≡ some definition)
        × (validate_default_variants definition.flags ≡ none)
  unfolding unmarshal_valid
  unmarshal_valid_ok text definition h = elim (Option-cases (p.unmarshal_definition text)) [
    | inl n ↦ absurd (ground (arith, h, n))
    | inr (d, n) ↦ elim (Option-cases (validate_default_variants d.flags)) [
      | inl v ↦ ground (arith, h, n, v)
      | inr (err, v) ↦ absurd (ground (arith, h, n, v))
    ]
  ]

  config_ok :
      (definition : Definition)
      → config_to_flag_definition p payload.flag_data ≡ inr definition
      → (text : String) × (unmarshal_valid p text ≡ inr definition)
  unfolding config_to_flag_definition
  config_ok definition h = elim (Result-cases (transpose_evaluators p payload.flag_data)) [
    | inl (err, n) ↦ absurd (ground (arith, h, n))
    | inr (text, n) ↦ (text, ground (arith, h, n))
  ]

  pub config-HasDistinctKeys :
      (definition : Definition)
      → config_to_flag_definition p payload.flag_data ≡ inr definition
      → HasDistinctKeys definition.flags
  config-HasDistinctKeys definition h =
      let (text, valid) = config_ok definition h in
      p.flags-HasDistinctKeys text definition (unmarshal_valid_ok text definition valid).0

  pub set_state_ok :
      (definition : Definition)
      → config_to_flag_definition p payload.flag_data ≡ inr definition
      → (set_state p m s payload).0
        ≡ (update m payload.source payload.selector s definition.flags definition.metadata).0
  unfolding set_state
  set_state_ok definition h = ground (arith, h)

  pub set_state_failed :
      (err : ConfigError)
      → config_to_flag_definition p payload.flag_data ≡ inl err
      → set_state p m s payload ≡ (s, inl err)
  unfolding set_state
  set_state_failed err h = ground (arith, h)

  settled-HasValidDefault :
      (sources : List String) (k : String) (stored given : Option Flag) (flag : Flag)
      → ((f : Flag) → stored ≡ some f → HasValidDefault f)
      → ((f : Flag) → given ≡ some f → HasValidDefault f)
      → settled sources payload.source payload.selector k stored given ≡ some flag
      → HasValidDefault flag
  unfolding settled
  settled-HasValidDefault sources k none none flag hs hg e = ground (arith, e)
  settled-HasValidDefault sources k (some old) none flag hs hg e = ground (arith, e, hs old)
  settled-HasValidDefault sources k none (some new) flag hs hg e = ground (arith, e, hg new)
  settled-HasValidDefault sources k (some old) (some new) flag hs hg e =
      ground (arith, e, hs old, hg new)

  -- If every stored flag either has no default variant or has one of its own variants as default,
  -- then this is still so after a payload was taken in, accepted or refused.
  pub set_state-IsWellFormed : IsWellFormed m s → IsWellFormed m (set_state p m s payload).0
  set_state-IsWellFormed h = elim (Result-cases (config_to_flag_definition p payload.flag_data)) [
    | inl (err, n) ↦ rw (set_state_failed err n) h
    | inr (definition, n) ↦
        let (text, valid) = config_ok definition n in
        let (parsed, all_valid) = unmarshal_valid_ok text definition valid in
        λ k flag e.
          let named = m.key-nonempty (set_state p m s payload).0.db k flag e in
          let holds =
            update-settled m payload.source payload.selector s definition.flags definition.metadata
              (p.flags-HasDistinctKeys text definition parsed) k named in
          settled-HasValidDefault s.flag_sources k (m.first s.db k) (lookup k definition.flags) flag
            (h k)
            (λ f g. validate_default_variants-HasValidDefault definition.flags k f all_valid g)
            (sym holds ∙ rw (set_state_ok definition n) at e)
  ]

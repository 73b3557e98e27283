-- ===== src/Loadtest/Requests.antt =====
-- The load test asks for flags that the generator makes, of the type that it asks for.
use flagd.Prelude.{
  ℕ, zero, suc, ◌+◌, ◌*◌, ◌/◌, ◌≤◌, ◌<◌, Bool, true, false, some, [], String, ◌==◌, ◌≡◌, inl, inr,
  refl, ◌∙◌, eq_iff, arith, Bool-cases,
}
use flagd.Prelude.Dict.{Dict, lookup, insert, lookup-insert}
use flagd.Model.{bool}
use Prim.Native.String.{◌++◌ as ◌<>◌}
use native.Mathlib.Nat.{div-lt_iff_lt-mul, mul-lt-mul_of_pos_right}
use native.Mathlib.Decide.{ℕ_discrete}
use flagd.Loadtest.{
  GeneratedFlag, ff_count, prefix, gen_url, iteration, generate, generate_flags, bool_flag,
  set_bool_flags,
}

-- The default variant of a flag is one of its variants, and a Boolean.
abbrev pub IsBooleanFlag : GeneratedFlag → Type 0
IsBooleanFlag f = (v : Bool) × (lookup f.default_variant f.variants ≡ some (bool v))

index-lt : (num den count : ℕ) → num < den → 0 < count → num * count / den < count
index-lt num den count h pos =
    (div-lt_iff_lt-mul (omega arith)).1 (omega (arith, mul-lt-mul_of_pos_right h pos))

module _ (decimal : ℕ → String) (pick : ℕ → Bool) where
  abbrev Found : String → Dict GeneratedFlag → Type 0
  Found k flags = (f : GeneratedFlag) × (lookup k flags ≡ some f) × IsBooleanFlag f

  bool_flag-IsBooleanFlag : (i : ℕ) → IsBooleanFlag (bool_flag decimal pick i)
  unfolding bool_flag lookup
  bool_flag-IsBooleanFlag i = elim (Bool-cases (pick i)) [
    | inl e ↦ (true, rw e refl)
    | inr e ↦ (false, rw e refl)
  ]

  insert-Found :
      (k : String) (i : ℕ) (j : String) (flags : Dict GeneratedFlag)
      → Found k flags
      → Found k (insert j (bool_flag decimal pick i) flags)
  insert-Found k i j flags (f, e, b) = elim (Bool-cases (j == k)) [
    | inl s ↦ (
      bool_flag decimal pick i,
      lookup-insert j k (bool_flag decimal pick i) flags ∙ rw s refl,
      bool_flag-IsBooleanFlag i,
    )
    | inr d ↦ (f, lookup-insert j k (bool_flag decimal pick i) flags ∙ rw d e, b)
  ]

  generate-keeps :
      (k : String) (i rounds : ℕ) (flags : Dict GeneratedFlag)
      → Found k flags
      → Found k (generate decimal pick (bool_flag decimal pick) i rounds flags)
  unfolding generate
  generate-keeps k i zero flags h = h
  generate-keeps k i (suc rounds) flags h =
      generate-keeps k (i + 1) rounds
        (insert ("flag" <> decimal i) (bool_flag decimal pick i) flags)
        (insert-Found k i ("flag" <> decimal i) flags h)

  generate-Found :
      (j i rounds : ℕ) (flags : Dict GeneratedFlag)
      → i ≤ j
      → j < i + rounds
      → Found (prefix <> decimal j) (generate decimal pick (bool_flag decimal pick) i rounds flags)
  unfolding generate
  generate-Found j i zero flags lo hi = absurd (omega arith)
  generate-Found j i (suc rounds) flags lo hi = elim (ℕ_discrete i j) [
    | yes e ↦
        generate-keeps (prefix <> decimal j) (i + 1) rounds
          (insert ("flag" <> decimal i) (bool_flag decimal pick i) flags)
          (
            bool_flag decimal pick i,
            lookup-insert ("flag" <> decimal i) (prefix <> decimal j) (bool_flag decimal pick i)
                  flags
                ∙ ground (arith, e, eq_iff ("flag" <> decimal i) (prefix <> decimal j)),
            bool_flag-IsBooleanFlag i,
          )
    | no n ↦
        generate-Found j (i + 1) rounds
          (insert ("flag" <> decimal i) (bool_flag decimal pick i) flags) (omega arith)
          (omega arith)
  ]

  -- With at least as many Boolean flags generated as the script counts on, every request asks the
  -- Boolean endpoint for a flag that was generated, whose default variant is a Boolean.
  pub iteration-generate_flags :
      (numerator denominator count : ℕ)
      → numerator < denominator
      → ff_count ≤ count
      → ((iteration decimal numerator denominator).url ≡ gen_url "boolean")
        × ((f : GeneratedFlag) × (lookup
                (iteration decimal numerator denominator).flag_key
                (generate_flags decimal pick "boolean" count)
              ≡ some f)
            × IsBooleanFlag f)
  unfolding iteration generate_flags set_bool_flags
  iteration-generate_flags numerator denominator count h enough = (
    refl,
    generate-Found (numerator * ff_count / denominator) 0 count [] (omega arith)
        (omega (arith, index-lt numerator denominator ff_count h (omega arith))),
  )

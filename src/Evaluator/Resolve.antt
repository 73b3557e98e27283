-- ===== src/Evaluator/Resolve.antt =====
-- What a resolution means: which value is returned, with which reason, and what an error returns.
use flagd.Prelude.{
  ℕ, true, false, none, some, String, ◌==◌, ◌≡◌, ◌≢◌, ◌⊎◌, inl, inr, eq_iff, arith, Bool-cases,
  Option-cases,
}
use flagd.Prelude.Dict.{lookup, has}
use flagd.Model.{
  Value, GoMap, entries, Flag, Metadata, targeting_match_reason, default_reason, static_reason,
}
use flagd.Evaluator.Text.{trim_space, remove_quotes}
use flagd.Evaluator.{
  IStore, Engine, Evaluation, Kind, disabled, has_kind, has_targeting, rule_of, flag_metadata,
  set_flagd_properties, flagd_properties, pick_variant, run_targeting, evaluate_flag,
  evaluate_variant, assert_kind, resolve,
}

module _ (e : Engine) (now : ℕ) (s : IStore) (flag_key : String) (context : GoMap Value) where
  -- Why the flag's variant was chosen.
  abbrev pub FromDefault : Flag → String → String → Type 0
  FromDefault flag variant reason =
      (has_targeting flag.targeting ≡ false)
      × (flag.default_variant ≢ "")
      × (variant ≡ flag.default_variant)
      × (reason ≡ static_reason)

  abbrev pub FromRule : Flag → String → String → Type 0
  FromRule flag variant reason =
      (has_targeting flag.targeting ≡ true)
      × ((b : String) × (result : String) × (e.marshal
              (set_flagd_properties context (flagd_properties flag_key now))
            ≡ some b)
          × (e.apply (rule_of flag.targeting) b ≡ some result)
          × (((trim_space result ≡ "null")
                × (flag.default_variant ≢ "")
                × (variant ≡ flag.default_variant)
                × (reason ≡ default_reason))
              ⊎ ((trim_space result ≢ "null")
                  × (variant ≡ remove_quotes (trim_space result))
                  × (has variant (entries flag.variants) ≡ true)
                  × (reason ≡ targeting_match_reason))))

  pick_variant-ok :
      (flag : Flag) (metadata : Metadata) (result : String)
      → (pick_variant flag metadata result).error ≡ none
      → ((trim_space result ≡ "null")
          × (flag.default_variant ≢ "")
          × ((pick_variant flag metadata result).variant ≡ flag.default_variant)
          × ((pick_variant flag metadata result).reason ≡ default_reason))
        ⊎ ((trim_space result ≢ "null")
            × ((pick_variant flag metadata result).variant ≡ remove_quotes (trim_space result))
            × (has (pick_variant flag metadata result).variant (entries flag.variants) ≡ true)
            × ((pick_variant flag metadata result).reason ≡ targeting_match_reason))
  unfolding pick_variant
  pick_variant-ok flag metadata result h = elim (Bool-cases (trim_space result == "null")) [
    | inl n ↦
        inl
          (ground (arith, h, n, eq_iff (trim_space result) "null", eq_iff flag.default_variant ""))
    | inr n ↦ inr (ground (arith, h, n, eq_iff (trim_space result) "null"))
  ]

  pick_variant-variants :
      (flag : Flag) (metadata : Metadata) (result : String)
      → (pick_variant flag metadata result).variants ≡ flag.variants
  unfolding pick_variant
  pick_variant-variants flag metadata result = ground arith

  assert_kind-ok :
      (kind : Kind) (v : Evaluation)
      → (assert_kind e now s kind v).error ≡ none
      → (lookup v.variant (entries v.variants) ≡ some (assert_kind e now s kind v).value)
        × (has_kind kind (assert_kind e now s kind v).value ≡ true)
        × ((assert_kind e now s kind v).variant ≡ v.variant)
        × ((assert_kind e now s kind v).reason ≡ v.reason)
  unfolding assert_kind
  assert_kind-ok kind v h = elim (Option-cases (lookup v.variant (entries v.variants))) [
    | inl n ↦ absurd (ground (arith, h, n))
    | inr (value, n) ↦ ground (arith, h, n)
  ]

  -- Why the flag was resolved as it was.
  abbrev pub Reasoned : Flag → String → String → Type 0
  Reasoned flag variant reason =
      (flag.state ≢ disabled) × (FromDefault flag variant reason ⊎ FromRule flag variant reason)

  run_targeting-variants :
      (flag : Flag) (metadata : Metadata)
      → (run_targeting e now s flag_key flag metadata context).variants ≡ flag.variants
  unfolding run_targeting
  run_targeting-variants flag metadata =
      elim (Option-cases
        (e.marshal (set_flagd_properties context (flagd_properties flag_key now)))) [
          | inl n ↦ ground (arith, n)
          | inr (b, n) ↦ elim (Option-cases (e.apply (rule_of flag.targeting) b)) [
            | inl a ↦ ground (arith, n, a)
            | inr (result, a) ↦ ground (arith, n, a, pick_variant-variants flag metadata result)
          ]
        ]

  pub run_targeting-pick_variant :
      (flag : Flag) (metadata : Metadata) (b result : String)
      → e.marshal (set_flagd_properties context (flagd_properties flag_key now)) ≡ some b
      → e.apply (rule_of flag.targeting) b ≡ some result
      → run_targeting e now s flag_key flag metadata context ≡ pick_variant flag metadata result
  unfolding run_targeting
  run_targeting-pick_variant flag metadata b result n a = ground (arith, n, a)

  run_targeting-ok :
      (flag : Flag) (metadata : Metadata)
      → (run_targeting e now s flag_key flag metadata context).error ≡ none
      → has_targeting flag.targeting ≡ true
      → FromRule flag
          (run_targeting e now s flag_key flag metadata context).variant
          (run_targeting e now s flag_key flag metadata context).reason
  unfolding run_targeting
  run_targeting-ok flag metadata h t =
      elim (Option-cases
        (e.marshal (set_flagd_properties context (flagd_properties flag_key now)))) [
          | inl n ↦ absurd (ground (arith, h, n))
          | inr (b, n) ↦ elim (Option-cases (e.apply (rule_of flag.targeting) b)) [
            | inl a ↦ absurd (ground (arith, h, n, a))
            | inr (result, a) ↦
                let r = run_targeting-pick_variant flag metadata b result n a in
                (t, (b, result, n, a, rw r (pick_variant-ok flag metadata result (rw r at h))))
          ]
        ]

  pub evaluate_flag-run_targeting :
      (flag : Flag) (metadata : Metadata)
      → (flag.state == disabled) ≡ false
      → has_targeting flag.targeting ≡ true
      → evaluate_flag e now s flag_key flag metadata context
        ≡ run_targeting e now s flag_key flag metadata context
  unfolding evaluate_flag
  evaluate_flag-run_targeting flag metadata d t = ground (arith, d, t)

  evaluate_flag-ok :
      (flag : Flag) (metadata : Metadata)
      → (evaluate_flag e now s flag_key flag metadata context).error ≡ none
      → Reasoned flag
          (evaluate_flag e now s flag_key flag metadata context).variant
          (evaluate_flag e now s flag_key flag metadata context).reason
        × ((evaluate_flag e now s flag_key flag metadata context).variants ≡ flag.variants)
  unfolding evaluate_flag
  evaluate_flag-ok flag metadata h = elim (Bool-cases (flag.state == disabled)) [
    | inl d ↦ absurd (ground (arith, h, d))
    | inr d ↦ elim (Bool-cases (has_targeting flag.targeting)) [
      | inl t ↦
          let r = evaluate_flag-run_targeting flag metadata d t in
          (
            (
              λ p. ground (arith, p, d, eq_iff flag.state disabled),
              inr (rw r (run_targeting-ok flag metadata (rw r at h) t)),
            ),
            rw r (run_targeting-variants flag metadata),
          )
      | inr t ↦ (
        (
          λ p. ground (arith, p, d, eq_iff flag.state disabled),
          inl (ground (arith, h, d, t, eq_iff flag.default_variant "")),
        ),
        ground (arith, d, t),
      )
    ]
  ]

  pub evaluate_variant-evaluate_flag :
      (flag : Flag)
      → (s.get flag_key).0 ≡ some flag
      → evaluate_variant e now s flag_key context
        ≡ evaluate_flag e now s flag_key flag (flag_metadata s flag (s.get flag_key).1) context
  unfolding evaluate_variant
  evaluate_variant-evaluate_flag flag n = ground (arith, n)

  evaluate_variant-ok :
      (evaluate_variant e now s flag_key context).error ≡ none
      → (flag : Flag) × ((s.get flag_key).0 ≡ some flag)
        × Reasoned flag
            (evaluate_variant e now s flag_key context).variant
            (evaluate_variant e now s flag_key context).reason
        × ((evaluate_variant e now s flag_key context).variants ≡ flag.variants)
  unfolding evaluate_variant
  evaluate_variant-ok h = elim (Option-cases (s.get flag_key).0) [
    | inl n ↦ absurd (ground (arith, h, n))
    | inr (flag, n) ↦
        let r = evaluate_variant-evaluate_flag flag n in
        let ok = evaluate_flag-ok flag (flag_metadata s flag (s.get flag_key).1) (rw r at h) in
        (flag, n, rw r ok.0, rw r ok.1)
  ]

  pub resolve-assert_kind :
      (kind : Kind)
      → (evaluate_variant e now s flag_key context).error ≡ none
      → resolve e now s kind flag_key context
        ≡ assert_kind e now s kind (evaluate_variant e now s flag_key context)
  unfolding resolve
  resolve-assert_kind kind n = ground (arith, n)

  resolve-evaluated :
      (kind : Kind)
      → (resolve e now s kind flag_key context).error ≡ none
      → (evaluate_variant e now s flag_key context).error ≡ none
  unfolding resolve
  resolve-evaluated kind h = elim (Option-cases (evaluate_variant e now s flag_key context).error) [
    | inl n ↦ n
    | inr (code, n) ↦ absurd (ground (arith, h, n))
  ]

  -- If a flag resolves without an error, the store has the flag under the key, the flag is not
  -- disabled, the value is the one the flag gives to the variant and has the type asked for, and the
  -- reason tells how the variant was chosen: with no rule it is the default variant (STATIC); with a
  -- rule that gives null it is the default variant (DEFAULT); else it is the rule's result without
  -- quotes (TARGETING_MATCH).
  pub resolve-ok :
      (kind : Kind)
      → (resolve e now s kind flag_key context).error ≡ none
      → (flag : Flag) × ((s.get flag_key).0 ≡ some flag)
        × Reasoned flag
            (resolve e now s kind flag_key context).variant
            (resolve e now s kind flag_key context).reason
        × (lookup (resolve e now s kind flag_key context).variant (entries flag.variants)
            ≡ some (resolve e now s kind flag_key context).value)
        × (has_kind kind (resolve e now s kind flag_key context).value ≡ true)
  resolve-ok kind h =
      let n = resolve-evaluated kind h in
      let r = resolve-assert_kind kind n in
      let (flag, found, why, vs) = evaluate_variant-ok n in
      let (at, typed, variant, reason) =
        assert_kind-ok kind (evaluate_variant e now s flag_key context) (rw r at h) in
      rw r (flag, found, rw (variant, reason) why, rw (variant, ← vs) at, typed)

-- ===== src/Evaluator/Failure.antt =====
-- What an error of the resolver returns.
use flagd.Prelude.{ℕ, some, String, ◌≡◌, inl, inr, arith, Option-cases}
use flagd.Prelude.Dict.{lookup}
use flagd.Model.{GoMap, Value, entries, Flag, Metadata, error_reason}
use flagd.Evaluator.{
  IStore, Engine, Evaluation, Kind, zero_value, rule_of, flag_metadata, set_flagd_properties,
  flagd_properties, pick_variant, run_targeting, evaluate_flag, evaluate_variant, assert_kind,
  resolve,
}

module _ (e : Engine) (now : ℕ) (s : IStore) (flag_key : String) (context : GoMap Value) where
  -- The reason of an evaluation that fails is ERROR.
  abbrev FailsAsError : Evaluation → Type 0
  FailsAsError v = (code : String) → v.error ≡ some code → v.reason ≡ error_reason

  pick_variant-FailsAsError :
      (flag : Flag) (metadata : Metadata) (result : String)
      → FailsAsError (pick_variant flag metadata result)
  unfolding pick_variant
  pick_variant-FailsAsError flag metadata result code h = ground arith

  run_targeting-FailsAsError :
      (flag : Flag) (metadata : Metadata)
      → FailsAsError (run_targeting e now s flag_key flag metadata context)
  unfolding run_targeting
  run_targeting-FailsAsError flag metadata code h =
      elim (Option-cases
        (e.marshal (set_flagd_properties context (flagd_properties flag_key now)))) [
          | inl n ↦ ground (arith, n)
          | inr (b, n) ↦ elim (Option-cases (e.apply (rule_of flag.targeting) b)) [
            | inl a ↦ ground (arith, n, a)
            | inr (result, a) ↦
                ground (arith, h, n, a, pick_variant-FailsAsError flag metadata result code)
          ]
        ]

  evaluate_flag-FailsAsError :
      (flag : Flag) (metadata : Metadata)
      → FailsAsError (evaluate_flag e now s flag_key flag metadata context)
  unfolding evaluate_flag
  evaluate_flag-FailsAsError flag metadata code h =
      ground (arith, h, run_targeting-FailsAsError flag metadata code)

  evaluate_variant-FailsAsError : FailsAsError (evaluate_variant e now s flag_key context)
  unfolding evaluate_variant
  evaluate_variant-FailsAsError code h = elim (Option-cases (s.get flag_key).0) [
    | inl n ↦ ground (arith, n)
    | inr (flag, n) ↦ ground (
      arith,
      h,
      n,
      evaluate_flag-FailsAsError flag (flag_metadata s flag (s.get flag_key).1) code,
    )
  ]

  assert_kind-error :
      (kind : Kind) (v : Evaluation) (code : String)
      → (assert_kind e now s kind v).error ≡ some code
      → ((assert_kind e now s kind v).value ≡ zero_value kind)
        × ((assert_kind e now s kind v).reason ≡ error_reason)
  unfolding assert_kind
  assert_kind-error kind v code h = elim (Option-cases (lookup v.variant (entries v.variants))) [
    | inl n ↦ ground (arith, n)
    | inr (value, n) ↦ ground (arith, h, n)
  ]

  -- If a flag resolves with an error, the value is the zero value of the type asked for and the
  -- reason is ERROR.
  pub resolve-error :
      (kind : Kind) (code : String)
      → (resolve e now s kind flag_key context).error ≡ some code
      → ((resolve e now s kind flag_key context).value ≡ zero_value kind)
        × ((resolve e now s kind flag_key context).reason ≡ error_reason)
  unfolding resolve
  resolve-error kind code h =
      elim (Option-cases (evaluate_variant e now s flag_key context).error) [
        | inl n ↦
            ground
              (arith, h, n, assert_kind-error kind (evaluate_variant e now s flag_key context) code)
        | inr (c, n) ↦ ground (arith, n, evaluate_variant-FailsAsError c)
      ]

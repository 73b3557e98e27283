-- ===== src/Ofrep/Status.antt =====
-- The status of a response, for each flag in the store.
use flagd.Prelude.{
  ℕ, Bool, true, false, not, ◌&&◌, ◌||◌, Option, none, some, String, ◌==◌, ◌≡◌, refl, inl, inr,
  arith, ◌∙◌, Option-cases, is_some, if◌then◌else◌,
}
use flagd.Prelude.Dict.{Dict, lookup}
use flagd.Model.{
  Value, GoMap, entries, Flag, Metadata, flag_not_found_error_code, flag_disabled_error_code,
}
use flagd.Evaluator.Text.{trim_space}
use flagd.Evaluator.{
  Engine, IStore, Evaluation, Kind, any, AnyValue, disabled, has_targeting, rule_of, flag_metadata,
  set_flagd_properties, flagd_properties, pick_variant, run_targeting, evaluate_flag,
  evaluate_variant, assert_kind, resolve, resolve_as_any_value,
}
use flagd.Ofrep.{
  Payload, single, Headers, decoded, key_in, flagd_context, evaluation_error_response_from, reply,
  write_json_to_response, handle_flag_evaluation,
}

-- The error of a flag that is not there for the client.
abbrev is_absent : Option String → Bool
is_absent none = false
is_absent (some code) = code == flag_not_found_error_code || code == flag_disabled_error_code

abbrev gives_null : Option String → Bool
gives_null none = false
gives_null (some result) = trim_space result == "null"

abbrev apply_to : Engine → Option String → Option String → Option String
apply_to e rule none = none
apply_to e rule (some b) = e.apply (rule_of rule) b

module _ (e : Engine) (now : ℕ) (s : IStore) (flag_key : String) (context : GoMap Value) where
  -- What the flag's rule gives for the context, if it is marshalled and applied.
  abbrev pub rule_result : Flag → Option String
  rule_result flag =
      apply_to e flag.targeting
        (e.marshal (set_flagd_properties context (flagd_properties flag_key now)))

  -- No flag, a disabled flag, or one without a default variant that no rule gives a variant.
  abbrev pub is_hidden : Option Flag → Bool
  is_hidden none = true
  is_hidden (some flag) =
      flag.state == disabled
      || (flag.default_variant == ""
          && (not (has_targeting flag.targeting) || gives_null (rule_result flag)))

  is_absent-pick_variant :
      (flag : Flag) (metadata : Metadata) (result : String)
      → is_absent (pick_variant flag metadata result).error
        ≡ (flag.default_variant == "" && trim_space result == "null")
  unfolding pick_variant
  is_absent-pick_variant flag metadata result = ground arith

  is_absent-run_targeting :
      (flag : Flag) (metadata : Metadata)
      → is_absent (run_targeting e now s flag_key flag metadata context).error
        ≡ (flag.default_variant == "" && gives_null (rule_result flag))
  unfolding run_targeting
  is_absent-run_targeting flag metadata =
      elim (Option-cases
        (e.marshal (set_flagd_properties context (flagd_properties flag_key now)))) [
          | inl n ↦ ground (arith, n)
          | inr (b, n) ↦ elim (Option-cases (e.apply (rule_of flag.targeting) b)) [
            | inl a ↦ ground (arith, n, a)
            | inr (result, a) ↦ ground (arith, n, a, is_absent-pick_variant flag metadata result)
          ]
        ]

  is_absent-evaluate_flag :
      (flag : Flag) (metadata : Metadata)
      → is_absent (evaluate_flag e now s flag_key flag metadata context).error
        ≡ is_hidden (some flag)
  unfolding evaluate_flag
  is_absent-evaluate_flag flag metadata = ground (arith, is_absent-run_targeting flag metadata)

  is_absent-evaluate_variant :
      is_absent (evaluate_variant e now s flag_key context).error ≡ is_hidden (s.get flag_key).0
  unfolding evaluate_variant
  is_absent-evaluate_variant = elim (Option-cases (s.get flag_key).0) [
    | inl n ↦ ground (arith, n)
    | inr (flag, n) ↦
        ground (arith, n, is_absent-evaluate_flag flag (flag_metadata s flag (s.get flag_key).1))
  ]

  is_absent-assert_kind :
      (kind : Kind) (v : Evaluation) → is_absent (assert_kind e now s kind v).error ≡ false
  unfolding assert_kind
  is_absent-assert_kind kind v = elim (Option-cases (lookup v.variant (entries v.variants))) [
    | inl n ↦ ground (arith, n)
    | inr (value, n) ↦ ground (arith, n)
  ]

  is_absent-resolve :
      (kind : Kind)
      → is_absent (resolve e now s kind flag_key context).error ≡ is_hidden (s.get flag_key).0
  unfolding resolve
  is_absent-resolve kind = elim (Option-cases (evaluate_variant e now s flag_key context).error) [
    | inl n ↦ ground (
      arith,
      n,
      is_absent-evaluate_variant,
      is_absent-assert_kind kind (evaluate_variant e now s flag_key context),
    )
    | inr (code, n) ↦ ground (arith, n, is_absent-evaluate_variant)
  ]

status-reply :
    (result : AnyValue)
    → (reply result).0 ≡ (
        if is_absent result.resolution.error
        then 404
        else if is_some result.resolution.error
        then 400
        else 200)
unfolding reply evaluation_error_response_from
status-reply result = elim (Option-cases result.resolution.error) [
  | inl n ↦ ground (arith, n)
  | inr (code, n) ↦ ground (arith, n)
]

module _ (marshal : Payload → Option String) (e : Engine) (now : ℕ) (s : IStore)
    (static : Dict Value) (mappings : Dict String) where
  status-write_json_to_response :
      (status : ℕ) (payload : Payload)
      → is_some (marshal payload) ≡ true
      → (write_json_to_response marshal status payload).0 ≡ status
  unfolding write_json_to_response
  status-write_json_to_response status payload h = elim (Option-cases (marshal payload)) [
    | inl n ↦ absurd (ground (arith, h, n))
    | inr (body, n) ↦ ground (arith, n)
  ]

  -- A request for a flag, whose body is read and whose response is marshalled, is answered with
  -- 404 just when the store has no such flag, it is disabled, or it has no default variant and no
  -- rule, or one that gives null; else with 400 if it does not resolve, and with 200 if it does.
  pub status-handle_flag_evaluation :
      (vars : Dict String) (request : Value) (headers : Headers)
      → ((payload : Payload) → is_some (marshal payload) ≡ true)
      → (handle_flag_evaluation marshal e now s static mappings
          (some vars)
          (decoded request)
          headers).0
        ≡ (if is_hidden e now s
              (key_in vars)
              (some (flagd_context request static headers mappings))
              (s.get (key_in vars)).0
            then 404
            else if is_some
                (resolve e now s any
                  (key_in vars)
                  (some (flagd_context request static headers mappings))).error
            then 400
            else 200)
  unfolding handle_flag_evaluation resolve_as_any_value
  status-handle_flag_evaluation vars request headers total =
      let context = flagd_context request static headers mappings in
      let result = resolve_as_any_value e now s (key_in vars) (some context) in
      status-write_json_to_response (reply result).0 (single (reply result).1)
        (total (single (reply result).1))
      ∙ status-reply result
      ∙ rw (is_absent-resolve e now s (key_in vars) (some context) any) refl

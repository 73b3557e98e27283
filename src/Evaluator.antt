-- ===== src/Evaluator.antt =====
-- core/pkg/evaluator/json.go and ievaluator.go: how a flag is resolved. Logging, tracing and the
-- request id are left out.
pub mod Text
pub mod Config
pub mod Reflected
pub mod Resolve
pub mod Failure
pub mod BulkValues
pub mod WellFormed
pub mod Stored
pub mod Integer
pub mod Tests
use mathlib.Core.List.{foldl}
use flagd.Prelude.{
  ℕ, ltb, Bool, true, false, not, ◌&&◌, Option, none, some, List, [], ◌∷◌, ◌++◌, String, ◌==◌,
  if◌then◌else◌,
}
use flagd.Prelude.Dict.{Dict, lookup, insert, has}
use flagd.Model.{
  ℤ, pos, negsuc, Float64, truncate, Value, null, bool, str, num, arr, obj, Fields, field,
  no_fields, GoMap, entries, Metadata, Flag, flag_not_found_error_code, parse_error_code,
  type_mismatch_error_code, general_error_code, flag_disabled_error_code, targeting_match_reason,
  default_reason, error_reason, static_reason,
}
use flagd.Evaluator.Text.{trim_space, remove_quotes}

-- `store.IStore`. No flags are an error of `GetAll`.
pub record IStore : Type 0 where
  pub get_all : Option (Dict Flag) × Metadata
  pub get : String → Option Flag × Metadata
  pub selector_for_flag : Flag → String

-- What the resolver calls: `json.Marshal` on a context, `jsonlogic.Apply` on a rule and a context
-- (`none` is an error), and the conversion to int64 of a float64 that is out of its range, which Go
-- leaves to the implementation.
pub record Engine : Type 0 where
  pub marshal : Dict Value → Option String
  pub apply : String → String → Option String
  pub out_of_range : Float64 → ℤ

abbrev pub disabled : String
disabled = "DISABLED"

abbrev pub selector_metadata_key : String
selector_metadata_key = "scope"

abbrev pub flagd_properties_key : String
flagd_properties_key = "$flagd"

-- What `evaluateVariant` returns.
pub record Evaluation : Type 0 where
  pub variant : String
  pub variants : GoMap Value
  pub reason : String
  pub metadata : Metadata
  pub error : Option String

-- What `resolve` returns; a nil map or interface is `null`.
pub record Resolution : Type 0 where
  pub value : Value
  pub variant : String
  pub reason : String
  pub metadata : Metadata
  pub error : Option String

-- `AnyValue`; `NewAnyValue` puts its arguments into the fields.
pub record AnyValue : Type 0 where
  pub resolution : Resolution
  pub flag_key : String

-- The type parameter of `resolve`.
pub data Kind : Type 0 where
  boolean string float object any : Kind

-- The type assertion `.(T)`. A nil interface has no type, so it fails for `interface{}` too.
abbrev pub has_kind : Kind → Value → Bool
has_kind boolean (bool b) = true
has_kind string (str s) = true
has_kind float (num x) = true
has_kind object (obj fs) = true
has_kind any null = false
has_kind any v = true
has_kind kind v = false

abbrev pub zero_value : Kind → Value
zero_value boolean = bool false
zero_value string = str ""
zero_value float = num (record { significand = pos 0; fraction_bits = 0 })
zero_value object = null
zero_value any = null

-- `flagdProperties` as `json.Marshal` shows it to the rules.
abbrev pub flagd_properties : String → ℕ → Value
flagd_properties flag_key timestamp = obj (
    field "flagKey" (str flag_key) (
      field "timestamp" (num (record { significand = pos timestamp; fraction_bits = 0 }))
        no_fields))

unfoldable pub set_flagd_properties : GoMap Value → Value → Dict Value
unfolding insert
set_flagd_properties context properties = insert flagd_properties_key properties (entries context)

-- One entry of the flag's metadata; a nil value is skipped.
unfoldable pub add_entry : Metadata → String × Value → Metadata
add_entry metadata (key, null) = metadata
add_entry metadata (key, value) = insert key value metadata

unfoldable pub flag_metadata : IStore → Flag → Metadata → Metadata
unfolding add_entry insert
flag_metadata s flag metadata =
    let selector = s.selector_for_flag flag in
    foldl add_entry
      (if selector == "" then metadata else insert selector_metadata_key (str selector) metadata)
      (entries flag.metadata)

abbrev pub has_targeting : Option String → Bool
has_targeting none = false
has_targeting (some rule) = not (rule == "{}")

abbrev pub rule_of : Option String → String
rule_of none = ""
rule_of (some rule) = rule

abbrev pub failed : Flag → Metadata → String → Evaluation
failed flag metadata code = record {
  variant = "";
  variants = flag.variants;
  reason = error_reason;
  metadata = metadata;
  error = some code;
}

abbrev pub chosen : Flag → Metadata → String → String → Evaluation
chosen flag metadata variant reason = record {
  variant = variant;
  variants = flag.variants;
  reason = reason;
  metadata = metadata;
  error = none;
}

-- What becomes of the rule's result.
unfoldable pub pick_variant : Flag → Metadata → String → Evaluation
unfolding lookup
pick_variant flag metadata result =
    let trimmed = trim_space result in
    let variant = remove_quotes trimmed in
    if trimmed == "null"
    then if flag.default_variant == ""
      then failed flag metadata flag_not_found_error_code
      else chosen flag metadata flag.default_variant default_reason
    else if has variant (entries flag.variants)
    then chosen flag metadata variant targeting_match_reason
    else failed flag metadata general_error_code

-- The type switch on the default value; other values have no case.
abbrev pub default_kind : Option Value → Option Kind
default_kind (some (bool b)) = some boolean
default_kind (some (str t)) = some string
default_kind (some (num x)) = some float
default_kind (some (obj fs)) = some object
default_kind v = none

-- The variables that `ResolveAllValues` declares before its loop, and the values so far.
pub record Bulk : Type 0 where
  pub values : List AnyValue
  pub last : Resolution

abbrev pub nothing : Resolution
nothing = record { value = null; variant = ""; reason = ""; metadata = []; error = none }

-- `negsuc n` is `-(n + 1)`.
abbrev pub is_int64 : ℤ → Bool
is_int64 (pos n) = ltb n 0x8000000000000000
is_int64 (negsuc n) = ltb n 0x8000000000000000

module _ (e : Engine) (now : ℕ) (s : IStore) where
  unfoldable pub run_targeting : String → Flag → Metadata → GoMap Value → Evaluation
  unfolding pick_variant set_flagd_properties
  run_targeting flag_key flag metadata context =
      elim (e.marshal (set_flagd_properties context (flagd_properties flag_key now))) [
        | none ↦ failed flag metadata error_reason
        | some b ↦ elim (e.apply (rule_of flag.targeting) b) [
          | none ↦ failed flag metadata parse_error_code
          | some result ↦ pick_variant flag metadata result
        ]
      ]

  unfoldable pub evaluate_flag : String → Flag → Metadata → GoMap Value → Evaluation
  unfolding run_targeting
  evaluate_flag flag_key flag metadata context =
      if flag.state == disabled
      then failed flag metadata flag_disabled_error_code
      else if has_targeting flag.targeting
      then run_targeting flag_key flag metadata context
      else if flag.default_variant == ""
      then failed flag metadata flag_not_found_error_code
      else chosen flag metadata flag.default_variant static_reason

  unfoldable pub evaluate_variant : String → GoMap Value → Evaluation
  unfolding evaluate_flag flag_metadata
  evaluate_variant flag_key context = elim (s.get flag_key).0 [
    | none ↦ record {
      variant = "";
      variants = some [];
      reason = error_reason;
      metadata = (s.get flag_key).1;
      error = some flag_not_found_error_code;
    }
    | some flag ↦ evaluate_flag flag_key flag (flag_metadata s flag (s.get flag_key).1) context
  ]

  abbrev mismatch : Kind → Evaluation → Resolution
  mismatch kind v = record {
    value = zero_value kind;
    variant = v.variant;
    reason = error_reason;
    metadata = v.metadata;
    error = some type_mismatch_error_code;
  }

  -- The type assertion on the variant's value.
  unfoldable pub assert_kind : Kind → Evaluation → Resolution
  unfolding lookup
  assert_kind kind v = elim (lookup v.variant (entries v.variants)) [
    | none ↦ mismatch kind v
    | some value ↦
        if has_kind kind value
        then record {
          value = value;
          variant = v.variant;
          reason = v.reason;
          metadata = v.metadata;
          error = none;
        }
        else mismatch kind v
  ]

  unfoldable pub resolve : Kind → String → GoMap Value → Resolution
  unfolding assert_kind evaluate_variant
  resolve kind flag_key context =
      let v = evaluate_variant flag_key context in
      elim v.error [
        | none ↦ assert_kind kind v
        | some code ↦ record {
          value = zero_value kind;
          variant = v.variant;
          reason = v.reason;
          metadata = v.metadata;
          error = some code;
        }
      ]

  unfoldable pub resolve_boolean_value : String → GoMap Value → Resolution
  unfolding resolve
  resolve_boolean_value flag_key context = resolve boolean flag_key context

  unfoldable pub resolve_string_value : String → GoMap Value → Resolution
  unfolding resolve
  resolve_string_value flag_key context = resolve string flag_key context

  unfoldable pub resolve_float_value : String → GoMap Value → Resolution
  unfolding resolve
  resolve_float_value flag_key context = resolve float flag_key context

  unfoldable pub resolve_object_value : String → GoMap Value → Resolution
  unfolding resolve
  resolve_object_value flag_key context = resolve object flag_key context

  -- `int64(val)`
  abbrev pub to_int64 : Value → ℤ
  to_int64 (num x) = if is_int64 (truncate x) then truncate x else e.out_of_range x
  to_int64 v = pos 0

  -- `ResolveIntValue`: the value, and the rest of the resolution.
  unfoldable pub resolve_int_value : String → GoMap Value → ℤ × Resolution
  unfolding resolve truncate
  resolve_int_value flag_key context =
      let r = resolve float flag_key context in (to_int64 r.value, r)

  unfoldable pub resolve_as_any_value : String → GoMap Value → AnyValue
  unfolding resolve
  resolve_as_any_value flag_key context = record {
    resolution = resolve any flag_key context;
    flag_key = flag_key;
  }

  unfoldable pub bulk_step : GoMap Value → Bulk → String × Flag → Bulk
  unfolding resolve lookup
  bulk_step context b (flag_key, flag) =
      if flag.state == disabled
      then b
      else let last : Resolution =
          elim (default_kind (lookup flag.default_variant (entries flag.variants))) [
            | none ↦ b.last
            | some kind ↦ resolve kind flag_key context
          ] in
        record {
          values = b.values ++ record { resolution = last; flag_key = flag_key } ∷ [];
          last = last;
        }

  unfoldable pub resolve_all_values : GoMap Value → Option (List AnyValue) × Metadata
  unfolding bulk_step
  resolve_all_values context = elim s.get_all.0 [
    | none ↦ (none, s.get_all.1)
    | some flags ↦ (
      some (foldl (bulk_step context) (record { values = []; last = nothing }) flags).values,
      s.get_all.1,
    )
  ]

-- ===== src/Connect.antt =====
-- flagd/pkg/service/flag-evaluation/flag_evaluator.go, flag_evaluator_v2.go and
-- flag_evaluator_types.go: the Connect services. The service of the older schema is the one with no
-- header mappings. Metrics, tracing, logging and the event streams are left out.
pub mod Typed
pub mod Listed
pub mod Panics
pub mod Tests
use mathlib.Core.List.{foldl}
use flagd.Prelude.{
  ℕ, Bool, ◌||◌, Option, none, some, List, [], ◌∷◌, String, ◌==◌, ◌⊎◌, inl, inr, if◌then◌else◌,
}
use flagd.Prelude.Dict.{Dict, lookup, insert}
use flagd.Model.{
  ℤ, Float64, Value, null, bool, str, num, arr, obj, Metadata, get_error_message,
  flag_not_found_error_code, flag_disabled_error_code, type_mismatch_error_code, parse_error_code,
  general_error_code,
}
use flagd.Evaluator.{
  Engine, IStore, Resolution, AnyValue, resolve_boolean_value, resolve_string_value,
  resolve_float_value, resolve_object_value, resolve_int_value, resolve_all_values,
}
use flagd.Ofrep.{Headers, members, copy_into, add_header}

pub data Code : Type 0 where
  not_found invalid_argument data_loss unknown : Code

-- An error with a code, the error of the evaluator as it is, or that the response was not made.
pub data ServiceError : Type 0 where
  coded : Code → String → ServiceError
  uncoded : String → ServiceError
  setting_result : ServiceError

unfoldable pub err_format : String → ServiceError
unfolding get_error_message
err_format err =
    if err == flag_not_found_error_code || err == flag_disabled_error_code
    then coded not_found (get_error_message err)
    else if err == type_mismatch_error_code
    then coded invalid_argument (get_error_message err)
    else if err == parse_error_code
    then coded data_loss (get_error_message err)
    else if err == general_error_code
    then coded unknown (get_error_message err)
    else uncoded err

unfoldable pub merge_contexts : Dict Value → Dict Value → Headers → Dict String → Dict Value
unfolding copy_into add_header
merge_contexts request static headers mappings =
    foldl (add_header headers) (copy_into (copy_into [] request) static) mappings

pub data FlagValue (Struct : Type 0) : Type 0 where
  bool_value : Bool → FlagValue Struct
  string_value : String → FlagValue Struct
  int_value : ℤ → FlagValue Struct
  double_value : Float64 → FlagValue Struct
  object_value : Struct → FlagValue Struct

-- A response to one flag, and a flag of the response to all.
pub record AnyFlag (Struct : Type 0) : Type 0 where
  pub reason : String
  pub variant : String
  pub value : FlagValue Struct
  pub metadata : Option Struct

-- The case of the switch on a value's type: a struct may fail to be made.
pub data Switched (Struct : Type 0) : Type 0 where
  typed : FlagValue Struct → Switched Struct
  unmade untyped : Switched Struct

-- What the loop over the resolutions comes to.
pub data LoopResult (Struct : Type 0) : Type 0 where
  going : Dict (AnyFlag Struct) → LoopResult Struct
  fails panics : LoopResult Struct

pub data AllFlags (Struct : Type 0) : Type 0 where
  answered : (flags : Dict (AnyFlag Struct)) → (metadata : Option Struct) → AllFlags Struct
  all_fails all_panics : AllFlags Struct

-- The response with its value, without metadata.
abbrev pub any_flag : {Struct : Type 0} → FlagValue Struct → Resolution → AnyFlag Struct
any_flag value r = record { reason = r.reason; variant = r.variant; value = value; metadata = none }

-- `new_struct` is `structpb.NewStruct`; `none` is an error.
module _ {Struct : Type 0} (new_struct : Dict Value → Option Struct) where
  abbrev of_struct : Option Struct → Switched Struct
  of_struct none = unmade
  of_struct (some made) = typed (object_value made)

  -- A `null` with an error is the nil map of an object that did not resolve; without one, it is the
  -- nil interface of the first variable of the loop.
  unfoldable pub switch_value : Value → Option String → Switched Struct
  switch_value (bool b) err = typed (bool_value b)
  switch_value (str s) err = typed (string_value s)
  switch_value (num x) err = typed (double_value x)
  switch_value (obj fs) err = of_struct (new_struct (members fs))
  switch_value null (some err) = of_struct (new_struct [])
  switch_value null none = untyped
  switch_value (arr items) err = untyped

  -- `SetResult`; `none` is an error.
  unfoldable pub set_result : Switched Struct → Resolution → Option (AnyFlag Struct)
  set_result (typed value) r = elim (new_struct r.metadata) [
    | none ↦ none
    | some made ↦ some (record (any_flag value r) { metadata = some made })
  ]
  set_result unmade r = none
  set_result untyped r = none

  abbrev set_or_fail : Option (AnyFlag Struct) → ServiceError ⊎ AnyFlag Struct
  set_or_fail none = inl setting_result
  set_or_fail (some response) = inr response

  -- `resolve` after the evaluation; a response that goes with an error is not sent.
  unfoldable pub respond : Switched Struct → Resolution → ServiceError ⊎ AnyFlag Struct
  unfolding err_format set_result
  respond value r = elim r.error [
    | some err ↦ inl (err_format err)
    | none ↦ set_or_fail (set_result value r)
  ]

  unfoldable pub set_metadata : Dict (AnyFlag Struct) → String → Option Struct → LoopResult Struct
  unfolding lookup insert
  set_metadata flags flag_key none = fails
  set_metadata flags flag_key (some made) = elim (lookup flag_key flags) [
    | none ↦ panics
    | some flag ↦ going (insert flag_key (record flag { metadata = some made }) flags)
  ]

  -- One turn of the loop of `ResolveAll`. An entry that is not there is a nil pointer.
  unfoldable pub add_flag : Dict (AnyFlag Struct) → AnyValue → LoopResult Struct
  unfolding switch_value insert set_metadata
  add_flag flags resolved =
      let r = resolved.resolution in
      let metadata = new_struct r.metadata in
      elim (switch_value r.value r.error) [
        | unmade ↦ going flags
        | untyped ↦ set_metadata flags resolved.flag_key metadata
        | typed value ↦
            set_metadata (insert resolved.flag_key (any_flag value r) flags) resolved.flag_key
              metadata
      ]

  unfoldable pub add_flags : Dict (AnyFlag Struct) → List AnyValue → LoopResult Struct
  unfolding add_flag
  add_flags flags [] = going flags
  add_flags flags (resolved ∷ rest) = elim (add_flag flags resolved) [
    | going more ↦ add_flags more rest
    | fails ↦ fails
    | panics ↦ panics
  ]

  -- The loop of the older schema, which gives no metadata.
  unfoldable pub add_old_flags : Dict (AnyFlag Struct) → List AnyValue → Dict (AnyFlag Struct)
  unfolding switch_value insert
  add_old_flags flags [] = flags
  add_old_flags flags (resolved ∷ rest) =
      let r = resolved.resolution in
      elim (switch_value r.value r.error) [
        | unmade ↦ add_old_flags flags rest
        | untyped ↦ add_old_flags flags rest
        | typed value ↦ add_old_flags (insert resolved.flag_key (any_flag value r) flags) rest
      ]

  abbrev flag_set : LoopResult Struct → Option Struct → AllFlags Struct
  flag_set (going flags) (some metadata) = answered flags (some metadata)
  flag_set (going flags) none = all_fails
  flag_set fails metadata = all_fails
  flag_set panics metadata = all_panics

  -- `ResolveAll` after the evaluation.
  unfoldable pub write_all : Option (List AnyValue) × Metadata → AllFlags Struct
  unfolding add_flags
  write_all (none, metadata) = all_fails
  write_all (some values, metadata) = flag_set (add_flags [] values) (new_struct metadata)

  unfoldable pub write_old : Option (List AnyValue) × Metadata → AllFlags Struct
  unfolding add_old_flags
  write_old (none, metadata) = all_fails
  write_old (some values, metadata) = answered (add_old_flags [] values) none

  module _ (e : Engine) (now : ℕ) (s : IStore) (static : Dict Value) (mappings : Dict String) where
    abbrev respond_by : Resolution → ServiceError ⊎ AnyFlag Struct
    unfolding respond switch_value
    respond_by r = respond (switch_value r.value r.error) r

    unfoldable pub resolve_boolean : String → Dict Value → Headers → ServiceError ⊎ AnyFlag Struct
    unfolding respond_by resolve_boolean_value
    resolve_boolean flag_key request headers = respond_by (
        resolve_boolean_value e now s flag_key
          (some (merge_contexts request static headers mappings)))

    unfoldable pub resolve_string : String → Dict Value → Headers → ServiceError ⊎ AnyFlag Struct
    unfolding respond_by resolve_string_value
    resolve_string flag_key request headers = respond_by (
        resolve_string_value e now s flag_key
          (some (merge_contexts request static headers mappings)))

    unfoldable pub resolve_int : String → Dict Value → Headers → ServiceError ⊎ AnyFlag Struct
    unfolding respond resolve_int_value
    resolve_int flag_key request headers =
        let (value, r) =
          resolve_int_value e now s flag_key
            (some (merge_contexts request static headers mappings)) in
        respond (typed (int_value value)) r

    unfoldable pub resolve_float : String → Dict Value → Headers → ServiceError ⊎ AnyFlag Struct
    unfolding respond_by resolve_float_value
    resolve_float flag_key request headers = respond_by (
        resolve_float_value e now s flag_key
          (some (merge_contexts request static headers mappings)))

    unfoldable pub resolve_object : String → Dict Value → Headers → ServiceError ⊎ AnyFlag Struct
    unfolding respond_by resolve_object_value
    resolve_object flag_key request headers = respond_by (
        resolve_object_value e now s flag_key
          (some (merge_contexts request static headers mappings)))

    unfoldable pub resolve_all : Dict Value → Headers → AllFlags Struct
    unfolding write_all resolve_all_values
    resolve_all request headers =
        write_all
          (resolve_all_values e now s (some (merge_contexts request static headers mappings)))

    unfoldable pub resolve_all_old : Dict Value → Headers → AllFlags Struct
    unfolding write_old resolve_all_values
    resolve_all_old request headers =
        write_old
          (resolve_all_values e now s (some (merge_contexts request static headers mappings)))

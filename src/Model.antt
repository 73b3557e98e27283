-- ===== src/Model.antt =====
-- core/pkg/model/flag.go, error.go, reason.go, notification.go, and the Go values that flags and
-- evaluation contexts hold (`any` after `encoding/json`).
--
-- A nested object is kept with its keys in ascending order, so that equal objects are equal
-- values; its order of iteration plays no part in the code. A finite float64 is an integer over a
-- power of two in lowest terms, and negative zero is read as zero; `encoding/json` makes no NaN and
-- no infinity. A nil map, or a nil `json.RawMessage`, is `none`.
pub mod Equality
use flagd.Prelude.{
  ℕ, zero, suc, ◌/◌, ◌^◌, Bool, true, false, Option, none, some, List, String, if◌then◌else◌, ◌==◌,
  ◌++◌,
}
use flagd.Prelude.Dict.{Dict}
use Prim.Native.String.{◌++◌ as ◌<>◌}

-- `negsuc n` is -(n + 1).
pub data ℤ : Type 0 where
  pos : ℕ → ℤ
  negsuc : ℕ → ℤ

abbrev pub neg : ℕ → ℤ
neg zero = pos 0
neg (suc n) = negsuc n

-- `significand / 2 ^ fraction_bits`
pub record Float64 : Type 0 where
  pub significand : ℤ
  pub fraction_bits : ℕ

abbrev pub truncate_by : ℤ → ℕ → ℤ
truncate_by (pos n) d = pos (n / d)
truncate_by (negsuc n) d = neg (suc n / d)

-- Go's `int(x)`: the fraction is cut off, towards zero.
unfoldable pub truncate : Float64 → ℤ
truncate x = truncate_by x.significand (2 ^ x.fraction_bits)

-- An array is `no_items` or `item`s, and an object `no_fields` or `field`s.
mutual
  pub data Value : Type 0 where
    null : Value
    bool : Bool → Value
    str : String → Value
    num : Float64 → Value
    arr : Items → Value
    obj : Fields → Value

  pub data Items : Type 0 where
    no_items : Items
    item : (head : Value) → (rest : Items) → Items

  pub data Fields : Type 0 where
    no_fields : Fields
    field : (name : String) → (content : Value) → (rest : Fields) → Fields

abbrev pub GoMap : Type 0 → Type 0
GoMap V = Option (Dict V)

abbrev pub entries : {V : Type 0} → GoMap V → Dict V
entries none = List.[]
entries (some m) = m

abbrev pub Metadata : Type 0
Metadata = Dict Value

pub record Flag : Type 0 where
  pub key : String
  pub state : String
  pub default_variant : String
  pub variants : GoMap Value
  pub targeting : Option String
  pub source : String
  pub selector : String
  pub metadata : GoMap Value

-- The zero value `model.Flag{}`.
abbrev pub no_flag : Flag
no_flag = record {
  key = "";
  state = "";
  default_variant = "";
  variants = none;
  targeting = none;
  source = "";
  selector = "";
  metadata = none;
}

abbrev pub flag_not_found_error_code : String
flag_not_found_error_code = "FLAG_NOT_FOUND"

abbrev pub parse_error_code : String
parse_error_code = "PARSE_ERROR"

abbrev pub type_mismatch_error_code : String
type_mismatch_error_code = "TYPE_MISMATCH"

abbrev pub general_error_code : String
general_error_code = "GENERAL"

abbrev pub flag_disabled_error_code : String
flag_disabled_error_code = "FLAG_DISABLED"

abbrev pub invalid_context_code : String
invalid_context_code = "INVALID_CONTEXT"

unfoldable pub get_error_message : String → String
get_error_message c =
    if c == flag_not_found_error_code
    then "Flag not found"
    else if c == parse_error_code
    then "Error parsing input or configuration"
    else if c == type_mismatch_error_code
    then "Type mismatch error"
    else if c == general_error_code
    then "General error"
    else if c == flag_disabled_error_code
    then "Flag is disabled"
    else if c == invalid_context_code
    then "Invalid context provided"
    else "Unknown error code: " <> c

abbrev pub targeting_match_reason : String
targeting_match_reason = "TARGETING_MATCH"

abbrev pub default_reason : String
default_reason = "DEFAULT"

abbrev pub error_reason : String
error_reason = "ERROR"

abbrev pub static_reason : String
static_reason = "STATIC"

-- `StateChangeNotificationType`, and an entry of the map that `Store.Update` returns.
pub data NotificationType : Type 0 where
  delete create update : NotificationType

pub record Notification : Type 0 where
  pub kind : NotificationType
  pub source : String

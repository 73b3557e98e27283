-- ===== src/Operations/SemVer.antt =====
-- core/pkg/evaluator/semver.go: the operation `sem_ver` of the rules. Logging is left out.
pub mod Order
pub mod Tests
use Prim.Native.String.{◌++◌ as ◌<>◌}
use text.Mathlib.Text.{starts_with}
use flagd.Prelude.{
  Bool, true, false, not, ◌||◌, Option, none, some, String, ◌==◌, ◌≡◌, if◌then◌else◌,
}
use flagd.Model.{Value, bool, str, arr, item, no_items}

-- The results -1, 0 and +1 of `semver.Compare`.
pub data Sign : Type 0 where
  less same more : Sign

abbrev pub opposite : Sign → Sign
opposite less = more
opposite same = same
opposite more = less

abbrev pub is_less : Sign → Bool
is_less less = true
is_less s = false

abbrev pub is_same : Sign → Bool
is_same same = true
is_same s = false

abbrev pub is_more : Sign → Bool
is_more more = true
is_more s = false

-- The package golang.org/x/mod/semver, and `show` is `fmt.Sprintf("%v", …)`. The law is that
-- `Compare` is an order: it reads its arguments either way round.
pub record Versions : Type 0 where
  pub show : Value → String
  pub is_valid : String → Bool
  pub compare : String → String → Sign
  pub major : String → String
  pub major_minor : String → String
  pub compare_opposite : (v w : String) → compare w v ≡ opposite (compare v w)

abbrev pub equals : String
equals = "="

abbrev pub not_equal : String
not_equal = "!="

abbrev pub less_than : String
less_than = "<"

abbrev pub less_or_equal : String
less_or_equal = "<="

abbrev pub greater_or_equal : String
greater_or_equal = ">="

abbrev pub greater : String
greater = ">"

abbrev pub match_major : String
match_major = "^"

abbrev pub match_minor : String
match_minor = "~"

-- An error is logged, and the answer is false.
abbrev pub answer : Option Bool → Value
answer none = bool false
answer (some result) = bool result

module _ (vs : Versions) where
  -- `SemVerOperator.compare`; `none` is an error.
  unfoldable pub compare_by : String → String → String → Option Bool
  compare_by svo v1 v2 =
      let result = vs.compare v1 v2 in
      if svo == less_than
      then some (is_less result)
      else if svo == equals
      then some (is_same result)
      else if svo == not_equal
      then some (not (is_same result))
      else if svo == less_or_equal
      then some (is_less result || is_same result)
      else if svo == greater_or_equal
      then some (is_more result || is_same result)
      else if svo == greater
      then some (is_more result)
      else if svo == match_minor
      then some (is_same (vs.compare (vs.major_minor v1) (vs.major_minor v2)))
      else if svo == match_major
      then some (is_same (vs.compare (vs.major v1) (vs.major v2)))
      else none

  abbrev pub ensure_string : Value → String
  ensure_string (str text) = text
  ensure_string v = vs.show v

  -- A text without the leading `v` gets one.
  abbrev pub prefixed : String → String
  prefixed text = if starts_with text "v" then text else "v" <> text

  unfoldable pub parse_semantic_version : Value → Option String
  parse_semantic_version v =
      let version = prefixed (ensure_string v) in if vs.is_valid version then some version else none

  abbrev pub parse_operator : Value → Option String
  parse_operator (str text) = some text
  parse_operator v = none

  -- The two versions and the operator; `none` is an error.
  unfoldable pub parse_semver_evaluation_data : Value → Option (String × String × String)
  unfolding parse_semantic_version
  parse_semver_evaluation_data (arr (item actual (item operator (item target no_items)))) =
      elim (parse_semantic_version actual) [
        | none ↦ none
        | some v1 ↦ elim (parse_operator operator) [
          | none ↦ none
          | some svo ↦ elim (parse_semantic_version target) [
            | none ↦ none
            | some v2 ↦ some (v1, v2, svo)
          ]
        ]
      ]
  parse_semver_evaluation_data values = none

  unfoldable pub sem_ver_evaluation : Value → Value
  unfolding parse_semver_evaluation_data compare_by
  sem_ver_evaluation values = elim (parse_semver_evaluation_data values) [
    | none ↦ bool false
    | some (v1, v2, svo) ↦ answer (compare_by svo v1 v2)
  ]

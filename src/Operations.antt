-- ===== src/Operations.antt =====
-- core/pkg/evaluator/string_comparison.go: the operations `starts_with` and `ends_with` that the
-- rules call, after JSON Logic has resolved their arguments. Logging is left out.
pub mod Comparison
pub mod Fractional
pub mod SemVer
pub mod Tests
use flagd.Prelude.{Bool, true, false, ◌||◌, Option, none, some, String, ◌==◌}
use text.Mathlib.Text.{starts_with}
use flagd.Model.{Value, null, bool, str, arr, item, no_items}

-- `strings.HasSuffix`
unfoldable pub has_suffix : (text suffix : String) → Bool
has_suffix String.[] suffix = "" == suffix
has_suffix (String.◌∷◌ c s) suffix = (String.◌∷◌ c s == suffix) || has_suffix s suffix

-- The property and the target; `none` is an error.
abbrev pub parse_string_comparison_evaluation_data : Value → Option (String × String)
parse_string_comparison_evaluation_data (arr (item (str property) (item (str target) no_items))) =
    some (property, target)
parse_string_comparison_evaluation_data v = none

unfoldable pub starts_with_evaluation : Value → Value
starts_with_evaluation values = elim (parse_string_comparison_evaluation_data values) [
  | none ↦ null
  | some (property, target) ↦ bool (starts_with property target)
]

unfoldable pub ends_with_evaluation : Value → Value
unfolding has_suffix
ends_with_evaluation values = elim (parse_string_comparison_evaluation_data values) [
  | none ↦ bool false
  | some (property, target) ↦ bool (has_suffix property target)
]

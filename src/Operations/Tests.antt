-- ===== src/Operations/Tests.antt =====
-- The text comparisons at an email address, and at arguments that are not two texts.
use text.Mathlib.TextBridge.{IsSuffix}
use flagd.Prelude.{String, ◌≡◌, ◌↔◌, refl, true, false}
use flagd.Model.{null, bool, str}
use flagd.Operations.{starts_with_evaluation, ends_with_evaluation}
use flagd.Operations.Comparison.{pair_of, ends_with_evaluation_iff}

ends_with_evaluation_iff_example :
    (ends_with_evaluation (pair_of "user@faas.com" "faas.com") ≡ bool true) ↔ (
      (property : String) × (target : String) × (pair_of "user@faas.com" "faas.com"
        ≡ pair_of property target)
      × IsSuffix target property)
ends_with_evaluation_iff_example = ends_with_evaluation_iff (pair_of "user@faas.com" "faas.com")

runs :
    (starts_with_evaluation (pair_of "user@faas.com" "user@faas") ≡ bool true)
    × (ends_with_evaluation (pair_of "user@faas.com" "faas.com") ≡ bool true)
    × (ends_with_evaluation (pair_of "faas.com" "user@faas.com") ≡ bool false)
    × (starts_with_evaluation (str "user") ≡ null)
    × (ends_with_evaluation (str "user") ≡ bool false)
unfolding starts_with_evaluation ends_with_evaluation
runs = (refl, refl, refl, refl, refl)

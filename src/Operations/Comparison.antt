-- ===== src/Operations/Comparison.antt =====
-- When `starts_with` and `ends_with` are true.
use Prim.Native.String.append
use Prim.Native.String.{◌++◌ as ◌<>◌}
use text.Mathlib.TextBridge.{IsPrefix, IsSuffix}
use text.Mathlib.TextEquality.{starts_with_iff}
use flagd.Prelude.{
  true, some, String, ◌==◌, ◌≡◌, ◌↔◌, refl, sym, arith, eq_iff, Bool-cases, Option-cases, inl, inr,
  ap, ◌∙◌, eq_refl,
}
use flagd.Model.{Value, bool, str, arr, item, no_items}
use flagd.Operations.{
  has_suffix, parse_string_comparison_evaluation_data, starts_with_evaluation, ends_with_evaluation,
}

-- The two texts of an array that holds exactly two texts.
abbrev pub pair_of : String → String → Value
pair_of property target = arr (item (str property) (item (str target) no_items))

parsed :
    (values : Value) (property target : String)
    → parse_string_comparison_evaluation_data values ≡ some (property, target)
    → values ≡ pair_of property target
parsed (arr (item (str p) (item (str t) no_items))) property target h = ground (arith, h)
parsed values property target h = absurd (ground (arith, h))

-- The text itself is a suffix.
whole-suffix : (text suffix : String) → (text == suffix) ≡ true → IsSuffix suffix text
whole-suffix text suffix h = ("", append.nil suffix ∙ sym ((eq_iff text suffix).0 h))

suffix-has_suffix : (text suffix : String) → has_suffix text suffix ≡ true → IsSuffix suffix text
unfolding has_suffix
suffix-has_suffix String.[] suffix h = whole-suffix "" suffix h
suffix-has_suffix (String.◌∷◌ c s) suffix h = elim (Bool-cases (String.◌∷◌ c s == suffix)) [
  | inl e ↦ whole-suffix (String.◌∷◌ c s) suffix e
  | inr e ↦
      let (front, p) = suffix-has_suffix s suffix (ground (arith, h, e)) in
      (String.◌∷◌ c front, append.cons c front suffix ∙ ap (λ r. String.◌∷◌ c r) p)
]

has_suffix_self : (text : String) → has_suffix text text ≡ true
unfolding has_suffix
has_suffix_self String.[] = eq_refl ""
has_suffix_self (String.◌∷◌ c s) = ground (arith, eq_refl (String.◌∷◌ c s))

has_suffix-append : (front suffix : String) → has_suffix (front <> suffix) suffix ≡ true
unfolding has_suffix
has_suffix-append String.[] suffix = rw (append.nil suffix) (has_suffix_self suffix)
has_suffix-append (String.◌∷◌ c s) suffix =
    rw (append.cons c s suffix) (ground (arith, has_suffix-append s suffix))

-- `starts_with` is true just for an array of two texts of which the second begins the first.
starts_with_evaluation_iff :
    (values : Value)
    → (starts_with_evaluation values ≡ bool true) ↔ (
        (property : String) × (target : String) × (values ≡ pair_of property target)
        × IsPrefix target property)
unfolding starts_with_evaluation
starts_with_evaluation_iff values = (
  λ h. elim (Option-cases (parse_string_comparison_evaluation_data values)) [
    | inl n ↦ absurd (ground (arith, h, n))
    | inr ((property, target), n) ↦ (
      property,
      target,
      parsed values property target n,
      (starts_with_iff property target).0 (ground (arith, h, n)),
    )
  ],
  λ (property, target, e, p). rw e (rw ((starts_with_iff property target).1 p) refl),
)

-- `ends_with` is true just for an array of two texts of which the second ends the first.
pub ends_with_evaluation_iff :
    (values : Value)
    → (ends_with_evaluation values ≡ bool true) ↔ (
        (property : String) × (target : String) × (values ≡ pair_of property target)
        × IsSuffix target property)
unfolding ends_with_evaluation
ends_with_evaluation_iff values = (
  λ h. elim (Option-cases (parse_string_comparison_evaluation_data values)) [
    | inl n ↦ absurd (ground (arith, h, n))
    | inr ((property, target), n) ↦ (
      property,
      target,
      parsed values property target n,
      suffix-has_suffix property target (ground (arith, h, n)),
    )
  ],
  λ (property, target, e, (front, p)). rw e (rw (← p) (ap bool (has_suffix-append front target))),
)

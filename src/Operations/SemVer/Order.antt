-- ===== src/Operations/SemVer/Order.antt =====
-- How the operators of `sem_ver` hang together.
use flagd.Prelude.{
  ◌+◌, Bool, false, not, ◌||◌, none, some, String, ◌==◌, ◌≡◌, ◌⊎◌, refl, arith, eq_iff, inl, inr,
  Option-cases, Bool-cases, if◌then◌else◌, sym, ap, ◌∙◌,
}
use flagd.Model.{Value, bool, str, arr, item, no_items}
use flagd.Operations.SemVer.{
  Versions, Sign, less, same, more, opposite, is_less, is_same, is_more, equals, not_equal,
  less_than, less_or_equal, greater_or_equal, greater, compare_by, answer, parse_semantic_version,
  parse_semver_evaluation_data, sem_ver_evaluation,
}

-- The arguments of a comparison in a rule.
abbrev pub comparison : Value → String → Value → Value
comparison actual svo target = arr (item actual (item (str svo) (item target no_items)))

-- The operator for the comparison read from right to left.
abbrev pub reversed : String → String
reversed svo =
    if svo == less_than
    then greater
    else if svo == greater
    then less_than
    else if svo == less_or_equal
    then greater_or_equal
    else if svo == greater_or_equal
    then less_or_equal
    else svo

-- One of three tests is true.
abbrev pub IsOneOf : Bool → Bool → Bool → Type 0
IsOneOf a b c = (if a then 1 else 0) + (if b then 1 else 0) + (if c then 1 else 0) ≡ 1

module _ (vs : Versions) where
  sem_ver_evaluation-parsed :
      (actual target : Value) (svo v1 v2 : String)
      → parse_semantic_version vs actual ≡ some v1
      → parse_semantic_version vs target ≡ some v2
      → sem_ver_evaluation vs (comparison actual svo target) ≡ answer (compare_by vs svo v1 v2)
  unfolding parse_semver_evaluation_data sem_ver_evaluation
  sem_ver_evaluation-parsed actual target svo v1 v2 p q = ground (arith, p, q)

  -- A value that is no version on the left or on the right.
  sem_ver_evaluation_left :
      (actual target : Value) (svo : String)
      → parse_semantic_version vs actual ≡ none
      → sem_ver_evaluation vs (comparison actual svo target) ≡ bool false
  unfolding parse_semver_evaluation_data sem_ver_evaluation
  sem_ver_evaluation_left actual target svo p = ground (arith, p)

  sem_ver_evaluation_right :
      (actual target : Value) (svo : String)
      → parse_semantic_version vs target ≡ none
      → sem_ver_evaluation vs (comparison actual svo target) ≡ bool false
  unfolding parse_semver_evaluation_data sem_ver_evaluation
  sem_ver_evaluation_right actual target svo p =
      elim (Option-cases (parse_semantic_version vs actual)) [
        | inl n ↦ ground (arith, n)
        | inr (v1, n) ↦ ground (arith, n, p)
      ]

  IsOneOf-Sign : (s : Sign) → IsOneOf (is_less s) (is_same s) (is_more s)
  IsOneOf-Sign less = refl
  IsOneOf-Sign same = refl
  IsOneOf-Sign more = refl

  -- Whatever two values are compared: either neither order nor equality nor any other operator
  -- holds, or just one of `<`, `=` and `>` is true and `!=`, `<=` and `>=` agree with these.
  pub sem_ver_evaluation-trichotomy :
      (actual target : Value)
      → ((svo : String) → sem_ver_evaluation vs (comparison actual svo target) ≡ bool false)
        ⊎ ((lt : Bool) × (eq : Bool) × (gt : Bool) × IsOneOf lt eq gt
            × (sem_ver_evaluation vs (comparison actual less_than target) ≡ bool lt)
            × (sem_ver_evaluation vs (comparison actual equals target) ≡ bool eq)
            × (sem_ver_evaluation vs (comparison actual greater target) ≡ bool gt)
            × (sem_ver_evaluation vs (comparison actual not_equal target) ≡ bool (not eq))
            × (sem_ver_evaluation vs (comparison actual less_or_equal target) ≡ bool (lt || eq))
            × (sem_ver_evaluation vs (comparison actual greater_or_equal target) ≡ bool (gt || eq)))
  unfolding compare_by
  sem_ver_evaluation-trichotomy actual target =
      elim (Option-cases (parse_semantic_version vs actual)) [
        | inl n ↦ inl (λ svo. sem_ver_evaluation_left actual target svo n)
        | inr (v1, p) ↦ elim (Option-cases (parse_semantic_version vs target)) [
          | inl n ↦ inl (λ svo. sem_ver_evaluation_right actual target svo n)
          | inr (v2, q) ↦
              let result = vs.compare v1 v2 in
              inr (
                is_less result,
                is_same result,
                is_more result,
                IsOneOf-Sign result,
                sem_ver_evaluation-parsed actual target less_than v1 v2 p q,
                sem_ver_evaluation-parsed actual target equals v1 v2 p q,
                sem_ver_evaluation-parsed actual target greater v1 v2 p q,
                sem_ver_evaluation-parsed actual target not_equal v1 v2 p q,
                sem_ver_evaluation-parsed actual target less_or_equal v1 v2 p q,
                sem_ver_evaluation-parsed actual target greater_or_equal v1 v2 p q,
              )
        ]
      ]

  is_same-opposite : (s : Sign) → is_same (opposite s) ≡ is_same s
  is_same-opposite less = refl
  is_same-opposite same = refl
  is_same-opposite more = refl

  is_less-opposite : (s : Sign) → is_less (opposite s) ≡ is_more s
  is_less-opposite less = refl
  is_less-opposite same = refl
  is_less-opposite more = refl

  is_more-opposite : (s : Sign) → is_more (opposite s) ≡ is_less s
  is_more-opposite less = refl
  is_more-opposite same = refl
  is_more-opposite more = refl

  -- The two sides of the operators that `reversed` exchanges, and of the others.
  compare_by-reversed :
      (svo v w : String) → compare_by vs svo v w ≡ compare_by vs (reversed svo) w v
  unfolding compare_by
  compare_by-reversed svo v w =
      rw
        (
          vs.compare_opposite v w,
          vs.compare_opposite (vs.major v) (vs.major w),
          vs.compare_opposite (vs.major_minor v) (vs.major_minor w),
          is_less-opposite (vs.compare v w),
          is_more-opposite (vs.compare v w),
          is_same-opposite (vs.compare v w),
          is_same-opposite (vs.compare (vs.major v) (vs.major w)),
          is_same-opposite (vs.compare (vs.major_minor v) (vs.major_minor w)),
        )
        (elim (Bool-cases (svo == less_than)) [
          | inl e ↦ rw ((eq_iff svo less_than).0 e) refl
          | inr lt ↦ elim (Bool-cases (svo == greater)) [
            | inl e ↦ rw ((eq_iff svo greater).0 e) refl
            | inr gt ↦ elim (Bool-cases (svo == less_or_equal)) [
              | inl e ↦ rw ((eq_iff svo less_or_equal).0 e) refl
              | inr le ↦ elim (Bool-cases (svo == greater_or_equal)) [
                | inl e ↦ rw ((eq_iff svo greater_or_equal).0 e) refl
                | inr ge ↦ ground (arith, lt, gt, le, ge)
              ]
            ]
          ]
        ])

  -- A comparison gives what the reversed operator gives on the values in the other order.
  sem_ver_evaluation-reversed :
      (actual target : Value) (svo : String)
      → sem_ver_evaluation vs (comparison actual svo target)
        ≡ sem_ver_evaluation vs (comparison target (reversed svo) actual)
  sem_ver_evaluation-reversed actual target svo =
      elim (Option-cases (parse_semantic_version vs actual)) [
        | inl n ↦
            sem_ver_evaluation_left actual target svo n
            ∙ sym (sem_ver_evaluation_right target actual (reversed svo) n)
        | inr (v, p) ↦ elim (Option-cases (parse_semantic_version vs target)) [
          | inl n ↦
              sem_ver_evaluation_right actual target svo n
              ∙ sym (sem_ver_evaluation_left target actual (reversed svo) n)
          | inr (w, q) ↦
              sem_ver_evaluation-parsed actual target svo v w p q
              ∙ ap answer (compare_by-reversed svo v w)
              ∙ sym (sem_ver_evaluation-parsed target actual (reversed svo) w v q p)
        ]
      ]

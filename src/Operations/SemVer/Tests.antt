-- ===== src/Operations/SemVer/Tests.antt =====
-- The operators of `sem_ver` over three known versions.
use flagd.Prelude.{
  ℕ, ltb, eqb, Bool, true, false, not, ◌||◌, String, ◌==◌, ◌≡◌, ◌⊎◌, refl, arith, if◌then◌else◌,
}
use flagd.Model.{null, bool, str}
use flagd.Operations.SemVer.{
  Versions, Sign, less, same, more, opposite, equals, not_equal, less_than, less_or_equal,
  greater_or_equal, greater, match_major, match_minor, sem_ver_evaluation,
}
use flagd.Operations.SemVer.Order.{comparison, IsOneOf, sem_ver_evaluation-trichotomy}

-- Major, minor; zero is no version.
abbrev rank : String → ℕ
rank version =
    if version == "v1.0.0"
    then 11
    else if version == "v1.1.0"
    then 12
    else if version == "v2.0.0"
    then 21
    else if version == "v1"
    then 11
    else if version == "v2"
    then 21
    else 0

abbrev compare_ranks : ℕ → ℕ → Sign
compare_ranks a b = if ltb a b then less else if ltb b a then more else same

compare_ranks-opposite : (a b : ℕ) → compare_ranks b a ≡ opposite (compare_ranks a b)
compare_ranks-opposite a b = ground arith

abbrev known : Versions
known = record {
  show = λ v. "";
  is_valid = λ version. not (eqb (rank version) 0);
  compare = λ v w. compare_ranks (rank v) (rank w);
  major = λ v. if ltb (rank v) 20 then "v1" else "v2";
  major_minor = λ v. v;
  compare_opposite = λ v w. compare_ranks-opposite (rank v) (rank w);
}

runs :
    (sem_ver_evaluation known (comparison (str "1.0.0") less_than (str "v1.1.0")) ≡ bool true)
    × (sem_ver_evaluation known (comparison (str "1.0.0") match_major (str "1.1.0")) ≡ bool true)
    × (sem_ver_evaluation known (comparison (str "1.0.0") match_minor (str "1.1.0")) ≡ bool false)
    × (sem_ver_evaluation known (comparison (str "1.0.0") "==" (str "1.0.0")) ≡ bool false)
    × (sem_ver_evaluation known (comparison null equals null) ≡ bool false)
    × (sem_ver_evaluation known (str "1.0.0") ≡ bool false)
unfolding sem_ver_evaluation
runs = (refl, refl, refl, refl, refl, refl)

sem_ver_evaluation-trichotomy_example :
    ((svo : String)
      → sem_ver_evaluation known (comparison (str "1.0.0") svo (str "2.0.0")) ≡ bool false)
    ⊎ ((lt : Bool) × (eq : Bool) × (gt : Bool) × IsOneOf lt eq gt
        × (sem_ver_evaluation known (comparison (str "1.0.0") less_than (str "2.0.0")) ≡ bool lt)
        × (sem_ver_evaluation known (comparison (str "1.0.0") equals (str "2.0.0")) ≡ bool eq)
        × (sem_ver_evaluation known (comparison (str "1.0.0") greater (str "2.0.0")) ≡ bool gt)
        × (sem_ver_evaluation known (comparison (str "1.0.0") not_equal (str "2.0.0"))
            ≡ bool (not eq))
        × (sem_ver_evaluation known (comparison (str "1.0.0") less_or_equal (str "2.0.0"))
            ≡ bool (lt || eq))
        × (sem_ver_evaluation known (comparison (str "1.0.0") greater_or_equal (str "2.0.0"))
            ≡ bool (gt || eq)))
sem_ver_evaluation-trichotomy_example =
    sem_ver_evaluation-trichotomy known (str "1.0.0") (str "2.0.0")

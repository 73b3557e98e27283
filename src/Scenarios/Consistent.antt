-- ===== src/Scenarios/Consistent.antt =====
-- The scenarios against each other's parts and against the daemon.
use flagd.Prelude.{
  ◌==◌, subst, Bool-cases, inl, inr, ℕ, none, some, String, ◌≡◌, [], ◌∷◌, refl, arith,
}
use flagd.Prelude.Tests.{All}
use flagd.Prelude.Dict.{Dict, lookup}
use flagd.Model.{Flag, no_flag, Value, bool, str}
use flagd.Evaluator.Config.{validate_default_variants}
use flagd.Playground.{Kind, boolean, string, number, object}
use flagd.Scenarios.{
  Sample, Variants, strings, numbers, booleans, objects, whole, FlagDefinition, at_time,
}
use flagd.Scenarios.Basic.{
  basic_boolean, basic_number, basic_string, basic_object, boolean_shorthand, flag_metadata,
}
use flagd.Scenarios.Targeted.{
  targeting_key, enable_by_domain, enable_by_locale, enable_by_version, enable_by_time,
  chainable_conditions,
}
use flagd.Scenarios.Rollout.{pseudo_random_split, progress_rollout, shared_evaluators}

abbrev pub scenarios : Dict Sample
scenarios =
    ("Basic boolean flag", basic_boolean)
    ∷ ("Basic numeric flag", basic_number)
    ∷ ("Basic string flag", basic_string)
    ∷ ("Basic object flag", basic_object)
    ∷ ("Enable for a specific email domain", enable_by_domain)
    ∷ ("Enable based on users locale", enable_by_locale)
    ∷ ("Enable based on release version", enable_by_version)
    ∷ ("Enable based on the current time", enable_by_time)
    ∷ ("Chainable if/else/then", chainable_conditions)
    ∷ ("Multi-variant experiment", pseudo_random_split)
    ∷ ("Progressive rollout", progress_rollout)
    ∷ ("Shared evaluators", shared_evaluators)
    ∷ ("Boolean variant shorthand", boolean_shorthand)
    ∷ ("Targeting key", targeting_key)
    ∷ ("Flag metadata", flag_metadata)
    ∷ []

-- The type of a flag's variants.
abbrev pub kind_of_variants : Variants → Kind
kind_of_variants (strings d) = string
kind_of_variants (numbers d) = number
kind_of_variants (booleans d) = boolean
kind_of_variants (objects d) = object

abbrev pub mapped : {A : Type 0} → (A → Value) → Dict A → Dict Value
mapped f [] = []
mapped f ((k, a) ∷ rest) = (k, f a) ∷ mapped f rest

abbrev pub variant_values : Variants → Dict Value
variant_values (strings d) = mapped str d
variant_values (numbers d) = mapped whole d
variant_values (booleans d) = mapped bool d
variant_values (objects d) = d

-- What the daemon's validation reads of the flags.
abbrev pub go_flags : Dict FlagDefinition → Dict Flag
go_flags [] = []
go_flags ((k, f) ∷ rest) =
    (
      k,
      record no_flag {
        state = f.state;
        default_variant = f.default_variant;
        variants = some (variant_values f.variants);
      },
    )
    ∷ go_flags rest

-- The flag that the scenario evaluates is defined and enabled, its variants have the type that the
-- scenario expects, and the daemon's check of default variants accepts all flags.
abbrev pub IsConsistent : ℕ → Sample → Type 0
IsConsistent now s =
    (f : FlagDefinition) × (lookup s.flag_key (at_time now s.flag_definition).flags ≡ some f)
    × (f.state ≡ "ENABLED")
    × (kind_of_variants f.variants ≡ s.return_type)
    × (validate_default_variants (go_flags (at_time now s.flag_definition).flags) ≡ none)

scenarios-AllConsistent : (now : ℕ) → All (λ entry. IsConsistent now entry.1) scenarios
unfolding lookup validate_default_variants
scenarios-AllConsistent now = (
  (_, refl, refl, refl, refl),
  (
    (_, refl, refl, refl, refl),
    (
      (_, refl, refl, refl, refl),
      (
        (_, refl, refl, refl, refl),
        (
          (_, refl, refl, refl, refl),
          (
            (_, refl, refl, refl, refl),
            (
              (_, refl, refl, refl, refl),
              (
                (_, refl, refl, refl, refl),
                (
                  (_, refl, refl, refl, refl),
                  (
                    (_, refl, refl, refl, refl),
                    (
                      (_, refl, refl, refl, refl),
                      (
                        (_, refl, refl, refl, refl),
                        (
                          (_, refl, refl, refl, refl),
                          ((_, refl, refl, refl, refl), ((_, refl, refl, refl, refl), tt)),
                        ),
                      ),
                    ),
                  ),
                ),
              ),
            ),
          ),
        ),
      ),
    ),
  ),
)

All-lookup :
    (now : ℕ) (name : String) (s : Sample) (table : Dict Sample)
    → All (λ entry. IsConsistent now entry.1) table
    → lookup name table ≡ some s
    → IsConsistent now s
unfolding lookup
All-lookup now name s [] h e = absurd (ground (arith, e))
All-lookup now name s ((title, sample) ∷ rest) (h, hs) e = elim (Bool-cases (title == name)) [
  | inl t ↦ subst (IsConsistent now) {x = sample} {y = s} (ground (arith, e, t)) h
  | inr t ↦ All-lookup now name s rest hs (rw t at e)
]

-- Every scenario of the playground, at every time: the flag that it evaluates is defined and
-- enabled, its variants have the type that the scenario expects, and the daemon's check of default
-- variants accepts all flags of the scenario.
pub scenarios-IsConsistent :
    (now : ℕ) (name : String) (s : Sample) → lookup name scenarios ≡ some s → IsConsistent now s
scenarios-IsConsistent now name s e =
    All-lookup now name s scenarios (scenarios-AllConsistent now) e

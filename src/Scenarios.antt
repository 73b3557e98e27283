-- ===== src/Scenarios.antt =====
-- playground-app/src/scenarios with the types of playground-app/src/types.ts: the flag definitions
-- that the playground offers, as data, and how playground-app/src/utils.ts prints them.
pub mod Basic
pub mod Targeted
pub mod Rollout
pub mod Consistent
pub mod Json
pub mod Tests
use Prim.Native.String.{◌++◌ as ◌<>◌}
use flagd.Prelude.{ℕ, Bool, Option, none, some, List, [], ◌∷◌, String}
use flagd.Prelude.Dict.{Dict}
use flagd.Model.{pos, Value, bool, str, num, obj, Fields, no_fields, field}
use flagd.Playground.{Kind, Platform, Outcome, value, thrown}

abbrev pub whole : ℕ → Value
whole n = num (record { significand = pos n; fraction_bits = 0 })

-- `StringVariants`, `NumberVariants`, `BooleanVariants` and `ObjectVariants`. The scenarios have
-- whole numbers only.
pub data Variants : Type 0 where
  strings : Dict String → Variants
  numbers : Dict ℕ → Variants
  booleans : Dict Bool → Variants
  objects : Dict Value → Variants

-- A member of `FeatureDefinition.flags`.
pub record FlagDefinition : Type 0 where
  pub state : String
  pub default_variant : String
  pub variants : Variants
  pub targeting : Option Value
  pub metadata : Option (Dict Value)

pub record FeatureDefinition : Type 0 where
  pub flags : Dict FlagDefinition
  pub evaluators : Option (Dict Value)
  pub metadata : Option (Dict Value)

-- What a scenario prints: fixed when the module is loaded, or made from the time in milliseconds.
pub data Printed (A : Type 0) : Type 0 where
  fixed : A → Printed A
  made : (ℕ → A) → Printed A

-- A `Scenario` before its texts are printed.
pub record Sample : Type 0 where
  pub description : String
  pub flag_definition : Printed FeatureDefinition
  pub flag_key : String
  pub return_type : Kind
  pub context : Printed (Dict Value)

-- `[…].join(" ")`
unfoldable pub joined : List String → String
joined [] = ""
joined (sentence ∷ []) = sentence
joined (sentence ∷ next ∷ rest) = sentence <> " " <> joined (next ∷ rest)

abbrev pub at_time : {A : Type 0} → ℕ → Printed A → A
at_time now (fixed a) = a
at_time now (made f) = f now

-- A member that is `undefined` is not printed.
abbrev pub optional : String → Option Value → Fields → Fields
optional name none rest = rest
optional name (some v) rest = field name v rest

abbrev pub object_of : {A : Type 0} → (A → Value) → Dict A → Fields
object_of f [] = no_fields
object_of f ((k, a) ∷ rest) = field k (f a) (object_of f rest)

abbrev pub variants_json : Variants → Fields
variants_json (strings d) = object_of str d
variants_json (numbers d) = object_of whole d
variants_json (booleans d) = object_of bool d
variants_json (objects d) = object_of (λ v. v) d

abbrev pub members : Option (Dict Value) → Option Value
members none = none
members (some d) = some (obj (object_of (λ v. v) d))

unfoldable pub flag_json : FlagDefinition → Value
flag_json f = obj (
    field "defaultVariant" (str f.default_variant) (
      optional "metadata" (members f.metadata) (
        field "state" (str f.state) (
          optional "targeting" f.targeting
            (field "variants" (obj (variants_json f.variants)) no_fields)))))

-- `{ ...schemaMixin, ...definition }`
unfoldable pub definition_json : FeatureDefinition → Value
unfolding flag_json
definition_json d = obj (
    optional "$evaluators" (members d.evaluators) (
      field "$schema" (str "https://flagd.dev/schema/v0/flags.json") (
        field "flags" (obj (object_of flag_json d.flags))
          (optional "metadata" (members d.metadata) no_fields))))

module _ (js : Platform) (encode : Value → js.Data) where
  open js use {parse, stringify, pretty}

  unfoldable pub pretty_print_json : String → Outcome String
  pretty_print_json json = elim (parse json) [ value d ↦ value (pretty d) | thrown e ↦ thrown e ]

  unfoldable pub feature_definition_to_pretty_json : FeatureDefinition → Outcome String
  unfolding pretty_print_json definition_json
  feature_definition_to_pretty_json definition =
      pretty_print_json (stringify (encode (definition_json definition)))

  unfoldable pub context_to_pretty_json : Dict Value → Outcome String
  unfolding pretty_print_json
  context_to_pretty_json context =
      pretty_print_json (stringify (encode (obj (object_of (λ v. v) context))))

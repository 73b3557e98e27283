-- ===== src/Scenarios/Json.antt =====
-- The texts that the scenarios print are JSON, and hold every part of what was printed.
use mathlib.Core.Option
use flagd.Prelude.{
  String, ◌==◌, ◌≡◌, refl, ◌∙◌, inl, inr, Option-cases, arith, Option, none, some, List, [], ◌∷◌,
  if◌then◌else◌, true,
}
use flagd.Prelude.Dict.{Dict, lookup}
use flagd.Model.{Value, bool, str, obj, Fields, no_fields, field}
use flagd.Playground.{Platform, value, is_valid_json}
use flagd.Scenarios.{
  FeatureDefinition, FlagDefinition, Variants, strings, numbers, booleans, objects, whole,
  flag_json, definition_json, object_of, members, variants_json, pretty_print_json,
  feature_definition_to_pretty_json,
}

member_of : String → Fields → Option Value
member_of name no_fields = none
member_of name (field k v rest) = if k == name then some v else member_of name rest

-- The member of a name; only an object has one.
abbrev pub member : String → Value → Option Value
unfolding member_of
member name (obj fs) = member_of name fs
member name v = none

-- What a path of names leads to.
unfoldable pub read_at : List String → Value → Option Value
unfolding member
read_at [] v = some v
read_at (name ∷ path) v = elim (member name v) [ none ↦ none | some inner ↦ read_at path inner ]

-- The value of a variant.
abbrev pub variant_value : String → Variants → Option Value
unfolding lookup
variant_value name (strings d) = Option.map str (lookup name d)
variant_value name (numbers d) = Option.map whole (lookup name d)
variant_value name (booleans d) = Option.map bool (lookup name d)
variant_value name (objects d) = lookup name d

-- A part of the flag of a key, if there is such a flag.
abbrev pub of_flag : (FlagDefinition → Option Value) → Option FlagDefinition → Option Value
of_flag part none = none
of_flag part (some flag) = part flag

member_of-object_of :
    {A : Type 0} (f : A → Value) (d : Dict A) (name : String)
    → member_of name (object_of f d) ≡ Option.map f (lookup name d)
unfolding member_of lookup
member_of-object_of f [] name = refl
member_of-object_of f ((k, a) ∷ rest) name = ground (arith, member_of-object_of f rest name)

map-same : (o : Option Value) → Option.map (λ (v : Value). v) o ≡ o
map-same none = refl
map-same (some v) = refl

member_of-variants_json :
    (variants : Variants) (name : String)
    → member_of name (variants_json variants) ≡ variant_value name variants
unfolding variant_value lookup
member_of-variants_json (strings d) name = member_of-object_of str d name
member_of-variants_json (numbers d) name = member_of-object_of whole d name
member_of-variants_json (booleans d) name = member_of-object_of bool d name
member_of-variants_json (objects d) name =
    member_of-object_of (λ v. v) d name ∙ map-same (lookup name d)

-- Every part of a definition, at its path.
abbrev pub HasParts : Value → FeatureDefinition → (key name : String) → Type 0
unfolding lookup
HasParts v definition key name =
    (read_at ("$schema" ∷ []) v ≡ some (str "https://flagd.dev/schema/v0/flags.json"))
    × (read_at ("$evaluators" ∷ []) v ≡ members definition.evaluators)
    × (read_at ("metadata" ∷ []) v ≡ members definition.metadata)
    × (read_at ("flags" ∷ key ∷ "state" ∷ []) v
        ≡ of_flag (λ flag. some (str flag.state)) (lookup key definition.flags))
    × (read_at ("flags" ∷ key ∷ "defaultVariant" ∷ []) v
        ≡ of_flag (λ flag. some (str flag.default_variant)) (lookup key definition.flags))
    × (read_at ("flags" ∷ key ∷ "targeting" ∷ []) v
        ≡ of_flag (λ flag. flag.targeting) (lookup key definition.flags))
    × (read_at ("flags" ∷ key ∷ "metadata" ∷ []) v
        ≡ of_flag (λ flag. members flag.metadata) (lookup key definition.flags))
    × (read_at ("flags" ∷ key ∷ "variants" ∷ name ∷ []) v
        ≡ of_flag (λ flag. variant_value name flag.variants) (lookup key definition.flags))

flag_json-parts :
    (flag : FlagDefinition) (name : String)
    → (read_at ("state" ∷ []) (flag_json flag) ≡ some (str flag.state))
      × (read_at ("defaultVariant" ∷ []) (flag_json flag) ≡ some (str flag.default_variant))
      × (read_at ("targeting" ∷ []) (flag_json flag) ≡ flag.targeting)
      × (read_at ("metadata" ∷ []) (flag_json flag) ≡ members flag.metadata)
      × (read_at ("variants" ∷ name ∷ []) (flag_json flag) ≡ variant_value name flag.variants)
unfolding flag_json read_at member_of member
flag_json-parts flag name = ground (arith, member_of-variants_json flag.variants name)

definition_json-HasParts :
    (definition : FeatureDefinition) (key name : String)
    → HasParts (definition_json definition) definition key name
unfolding definition_json read_at member_of member HasParts
definition_json-HasParts definition key name = elim (Option-cases (lookup key definition.flags)) [
  | inl n ↦ ground (arith, n, member_of-object_of flag_json definition.flags key)
  | inr (flag, n) ↦
      ground
        (arith, n, member_of-object_of flag_json definition.flags key, flag_json-parts flag name)
]

-- The data that `encode` makes of the definition's JSON is read back by `decode`. Then the printing
-- succeeds with a valid JSON text, and reading that text back gives an object that has, at their
-- paths, the schema, the shared evaluators and the metadata, and under each key the state, the
-- default variant, the rule, the metadata and every variant of the definition's flag, and nothing at
-- a path whose part is not defined.
pub feature_definition_to_pretty_json-HasParts :
    (js : Platform) (encode : Value → js.Data) (decode : js.Data → Value)
    (definition : FeatureDefinition) (key name : String)
    → decode (encode (definition_json definition)) ≡ definition_json definition
    → js.IsJson (encode (definition_json definition))
    → (text : String) × (feature_definition_to_pretty_json js encode definition ≡ value text)
      × (is_valid_json js text ≡ true)
      × (d : js.Data) × (js.parse text ≡ value d)
      × HasParts (decode d) definition key name
unfolding feature_definition_to_pretty_json pretty_print_json is_valid_json
feature_definition_to_pretty_json-HasParts js encode decode definition key name back j =
    let d = encode (definition_json definition) in
    (
      js.pretty d,
      ground (arith, js.parse-stringify d j),
      ground (arith, js.parse-pretty d j),
      d,
      js.parse-pretty d j,
      rw back (definition_json-HasParts definition key name),
    )

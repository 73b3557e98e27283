-- ===== src/Scenarios/Tests.antt =====
-- The scenarios' theorems at one of them.
use flagd.Prelude.{none, [], ◌∷◌, String, ◌≡◌, ◌==◌, true, false, refl, ap, arith, if◌then◌else◌}
use flagd.Prelude.Dict.{lookup}
use flagd.Model.{Value}
use flagd.Playground.{Platform, value, thrown, is_valid_json}
use flagd.Scenarios.{
  FeatureDefinition, FlagDefinition, booleans, definition_json, feature_definition_to_pretty_json,
}
use flagd.Scenarios.Basic.{flag_metadata}
use flagd.Scenarios.Consistent.{IsConsistent, scenarios-IsConsistent}
use flagd.Scenarios.Json.{HasParts, feature_definition_to_pretty_json-HasParts}

scenarios-IsConsistent_example : IsConsistent 0 flag_metadata
unfolding lookup
scenarios-IsConsistent_example = scenarios-IsConsistent 0 "Flag metadata" flag_metadata refl

abbrev on_off : FlagDefinition
on_off = record {
  state = "ENABLED";
  default_variant = "on";
  variants = booleans (("on", true) ∷ ("off", false) ∷ []);
  targeting = none;
  metadata = none;
}

abbrev small : FeatureDefinition
small = record { flags = ("new", on_off) ∷ []; evaluators = none; metadata = none }

-- A platform of one document: its printers print one text, and that text reads as the document.
abbrev document : Platform
document = record {
  Data = Value;
  parse = λ s. if s == "" then thrown "empty" else value (definition_json small);
  stringify = λ d. "{}";
  pretty = λ d. "{ }";
  parse_empty = λ d e. absurd (ground (arith, e));
  IsJson = λ d. definition_json small ≡ d;
  parse-stringify = λ d e. ap value e;
  parse-pretty = λ d e. ap value e;
  Core = Unit;
  empty_core = tt;
  set_configurations = λ s c. value c;
  flag_keys = λ c. [];
  resolve = λ core kind key context. value context;
}

feature_definition_to_pretty_json-HasParts_example :
    (text : String) × (feature_definition_to_pretty_json document (λ v. v) small ≡ value text)
    × (is_valid_json document text ≡ true)
    × (d : Value) × (document.parse text ≡ value d)
    × HasParts d small "new" "off"
feature_definition_to_pretty_json-HasParts_example =
    feature_definition_to_pretty_json-HasParts document (λ v. v) (λ v. v) small "new" "off" refl
      refl

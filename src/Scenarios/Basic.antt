-- ===== src/Scenarios/Basic.antt =====
-- The scenarios of playground-app/src/scenarios that have no rule, and the shorthand for Booleans.
use flagd.Prelude.{true, false, some, none, [], ◌∷◌}
use flagd.Model.{str, arr, obj, no_items, item, no_fields, field}
use flagd.Playground.{boolean, string, number, object}
use flagd.Scenarios.{Sample, fixed, joined, whole, strings, numbers, booleans, objects}

abbrev pub basic_boolean : Sample
basic_boolean = record {
  description = joined (
      "In this scenario, we have a feature flag with the key 'basic-boolean' that is enabled and has two variants: true and false."
      ∷ "The default variant is false. Try changing the 'defaultVariant' to 'true' or add a targeting rule."
      ∷ []);
  flag_definition = fixed (record {
    flags =
        (
          "basic-boolean",
          record {
            state = "ENABLED";
            default_variant = "false";
            variants = booleans (("true", true) ∷ ("false", false) ∷ []);
            targeting = some (obj no_fields);
            metadata = none;
          },
        )
        ∷ [];
    evaluators = none;
    metadata = none;
  });
  flag_key = "basic-boolean";
  return_type = boolean;
  context = fixed ([]);
}

abbrev pub basic_number : Sample
basic_number = record {
  description = joined (
      "In this scenario, we have a feature flag with the key \"basic-number\" that is enabled and has two variants: 1 and 2."
      ∷ "The default variant is 1. Try changing the \"defaultVariant\" to \"2\" or add a targeting rule."
      ∷ []);
  flag_definition = fixed (record {
    flags =
        (
          "basic-number",
          record {
            state = "ENABLED";
            default_variant = "1";
            variants = numbers (("1", 1) ∷ ("2", 2) ∷ []);
            targeting = some (obj no_fields);
            metadata = none;
          },
        )
        ∷ [];
    evaluators = none;
    metadata = none;
  });
  flag_key = "basic-number";
  return_type = number;
  context = fixed ([]);
}

abbrev pub basic_string : Sample
basic_string = record {
  description = joined (
      "In this scenario, we have a feature flag with the key \"basic-string\" that is enabled and has two variants: foo and bar."
      ∷ "The default variant is foo. Try changing the \"defaultVariant\" to \"bar\" or add a targeting rule."
      ∷ []);
  flag_definition = fixed (record {
    flags =
        (
          "basic-string",
          record {
            state = "ENABLED";
            default_variant = "foo";
            variants = strings (("foo", "foo") ∷ ("bar", "bar") ∷ []);
            targeting = some (obj no_fields);
            metadata = none;
          },
        )
        ∷ [];
    evaluators = none;
    metadata = none;
  });
  flag_key = "basic-string";
  return_type = string;
  context = fixed ([]);
}

abbrev pub basic_object : Sample
basic_object = record {
  description = joined (
      "In this scenario, we have a feature flag with the key \"basic-object\" that is enabled and has two variants: foo and bar."
      ∷ "The default variant is foo. Try changing the \"defaultVariant\" to \"bar\" or add a targeting rule."
      ∷ []);
  flag_definition = fixed (record {
    flags =
        (
          "basic-object",
          record {
            state = "ENABLED";
            default_variant = "foo";
            variants = objects (
                ("foo", obj (field "foo" (str "foo") no_fields))
                ∷ ("bar", obj (field "bar" (str "bar") no_fields))
                ∷ []);
            targeting = some (obj no_fields);
            metadata = none;
          },
        )
        ∷ [];
    evaluators = none;
    metadata = none;
  });
  flag_key = "basic-object";
  return_type = object;
  context = fixed ([]);
}

abbrev pub boolean_shorthand : Sample
boolean_shorthand = record {
  description = joined (
      "In this scenario, we have a feature flag with a targeting rule that returns true when the age is 18 or greater."
      ∷ "This targeting rule leverages the boolean shorthand syntax, which converts a boolean to its string equivalent."
      ∷ "The converted value is then used as the variant key."
      ∷ "Try changing the value of the context attribute 'age'." ∷ []);
  flag_definition = fixed (record {
    flags =
        (
          "feature-1",
          record {
            state = "ENABLED";
            default_variant = "false";
            variants = booleans (("true", true) ∷ ("false", false) ∷ []);
            targeting = some (
                obj (
                  field ">="
                    (arr
                      (item (obj (field "var" (str "age") no_fields)) (item (whole 18) no_items)))
                    no_fields));
            metadata = none;
          },
        )
        ∷ [];
    evaluators = none;
    metadata = none;
  });
  flag_key = "feature-1";
  return_type = boolean;
  context = fixed (("age", whole 20) ∷ []);
}

abbrev pub flag_metadata : Sample
flag_metadata = record {
  description = joined (
      "In this scenario, we have a feature flag with metadata about the flag."
      ∷ "There is top-level metadata for the flag set and metadata specific to the flag."
      ∷ "These values are merged together, with the flag metadata taking precedence." ∷ []);
  flag_definition = fixed (record {
    flags =
        (
          "flag-with-metadata",
          record {
            state = "ENABLED";
            default_variant = "on";
            variants = booleans (("on", true) ∷ ("off", false) ∷ []);
            targeting = none;
            metadata = some (("version", str "1") ∷ []);
          },
        )
        ∷ [];
    evaluators = none;
    metadata = some (("flagSetId", str "playground/dev") ∷ []);
  });
  flag_key = "flag-with-metadata";
  return_type = boolean;
  context = fixed ([]);
}

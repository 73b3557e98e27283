-- ===== src/Scenarios/Rollout.antt =====
-- The scenarios of playground-app/src/scenarios that split their users or share a rule.
use flagd.Prelude.{◌+◌, ◌/◌, true, false, some, none, [], ◌∷◌}
use flagd.Model.{str, arr, obj, no_items, item, no_fields, field}
use flagd.Playground.{boolean, string}
use flagd.Scenarios.{Sample, fixed, made, joined, whole, strings, booleans}

abbrev pub pseudo_random_split : Sample
pseudo_random_split = record {
  description = joined (
      "In this scenario, we have a feature flag with the key \"color-palette-experiment\" that is enabled and has four variants: red, blue, green, and grey."
      ∷ "The targeting rule uses the \"fractional\" operator, which deterministically splits the traffic based on the configuration."
      ∷ "This configuration splits the traffic evenly between the four variants by bucketing evaluations pseudorandomly using the \"targetingKey\" and feature flag key."
      ∷ "Experiment by changing the \"targetingKey\" to another value." ∷ []);
  flag_definition = fixed (record {
    flags =
        (
          "color-palette-experiment",
          record {
            state = "ENABLED";
            default_variant = "grey";
            variants = strings (
                ("red", "#b91c1c")
                ∷ ("blue", "#0284c7")
                ∷ ("green", "#16a34a")
                ∷ ("grey", "#4b5563")
                ∷ []);
            targeting = some (
                obj (
                  field "fractional"
                    (arr (
                      item (arr (item (str "red") (item (whole 25) no_items))) (
                        item (arr (item (str "blue") (item (whole 25) no_items))) (
                          item (arr (item (str "green") (item (whole 25) no_items)))
                            (item (arr (item (str "grey") (item (whole 25) no_items))) no_items)))))
                    no_fields));
            metadata = none;
          },
        )
        ∷ [];
    evaluators = none;
    metadata = none;
  });
  flag_key = "color-palette-experiment";
  return_type = string;
  context = fixed (("targetingKey", str "sessionId-123") ∷ []);
}

abbrev pub progress_rollout : Sample
progress_rollout = record {
  description = joined (
      "In this scenario, we have a feature flag with the key \"enable-new-llm-model\" with multiple variant for illustrative purposes."
      ∷ "This flag has a targeting rule defined that enables the flag for a percentage of users based on the release phase."
      ∷ "The \"targetingKey\" ensures that the user always sees the same results during a each phase of the rollout process."
      ∷ []);
  flag_definition = made (λ now. record {
    flags =
        (
          "enable-new-llm-model",
          record {
            state = "ENABLED";
            default_variant = "disabled";
            variants = booleans (
                ("disabled", false)
                ∷ ("phase1Enabled", true)
                ∷ ("phase1Disabled", false)
                ∷ ("phase2Enabled", true)
                ∷ ("phase2Disabled", false)
                ∷ ("phase3Enabled", true)
                ∷ ("phase3Disabled", false)
                ∷ ("enabled", true)
                ∷ []);
            targeting = some (
                obj (
                  field "if"
                    (arr (
                      item
                        (obj (
                          field ">="
                            (arr (
                              item (whole (now / 1000 + 5)) (
                                item (obj (field "var" (str "$flagd.timestamp") no_fields))
                                  no_items)))
                            no_fields))
                        (item (str "disabled") (
                          item
                            (obj (
                              field "<="
                                (arr (
                                  item (whole (now / 1000 + 5)) (
                                    item (obj (field "var" (str "$flagd.timestamp") no_fields))
                                      (item (whole (now / 1000 + 10)) no_items))))
                                no_fields))
                            (item
                              (obj (
                                field "fractional"
                                  (arr (
                                    item
                                      (arr (item (str "phase1Enabled") (item (whole 10) no_items)))
                                      (item
                                        (arr
                                          (item (str "phase1Disabled") (item (whole 90) no_items)))
                                        no_items)))
                                  no_fields))
                              (item
                                (obj (
                                  field "<="
                                    (arr (
                                      item (whole (now / 1000 + 10)) (
                                        item (obj (field "var" (str "$flagd.timestamp") no_fields))
                                          (item (whole (now / 1000 + 15)) no_items))))
                                    no_fields))
                                (item
                                  (obj (
                                    field "fractional"
                                      (arr (
                                        item
                                          (arr
                                            (item (str "phase2Enabled") (item (whole 25) no_items)))
                                          (item
                                            (arr (
                                              item (str "phase2Disabled")
                                                (item (whole 75) no_items)))
                                            no_items)))
                                      no_fields))
                                  (item
                                    (obj (
                                      field "<="
                                        (arr (
                                          item (whole (now / 1000 + 15)) (
                                            item
                                              (obj (field "var" (str "$flagd.timestamp") no_fields))
                                              (item (whole (now / 1000 + 20)) no_items))))
                                        no_fields))
                                    (item
                                      (obj (
                                        field "fractional"
                                          (arr (
                                            item
                                              (arr (
                                                item (str "phase3Enabled")
                                                  (item (whole 50) no_items)))
                                              (item
                                                (arr (
                                                  item (str "phase3Disabled")
                                                    (item (whole 50) no_items)))
                                                no_items)))
                                          no_fields))
                                      (item (str "enabled") no_items))))))))))
                    no_fields));
            metadata = none;
          },
        )
        ∷ [];
    evaluators = none;
    metadata = none;
  });
  flag_key = "enable-new-llm-model";
  return_type = boolean;
  context = made (λ now. ("targetingKey", str "sessionId-12345") ∷ []);
}

abbrev pub shared_evaluators : Sample
shared_evaluators = record {
  description = joined (
      "In this scenario, we have two feature flags that share targeting rule logic."
      ∷ "This is accomplished by defining a $evaluators object in the feature flag definition and referencing it by name in a targeting rule."
      ∷ "Experiment with changing the email domain in the shared evaluator." ∷ []);
  flag_definition = fixed (record {
    flags =
        (
          "feature-1",
          record {
            state = "ENABLED";
            default_variant = "false";
            variants = booleans (("true", true) ∷ ("false", false) ∷ []);
            targeting = some (
                obj (
                  field "if"
                    (arr (
                      item (obj (field "$ref" (str "emailWithFaas") no_fields))
                        (item (str "true") no_items)))
                    no_fields));
            metadata = none;
          },
        )
        ∷ (
          "feature-2",
          record {
            state = "ENABLED";
            default_variant = "false";
            variants = booleans (("true", true) ∷ ("false", false) ∷ []);
            targeting = some (
                obj (
                  field "if"
                    (arr (
                      item (obj (field "$ref" (str "emailWithFaas") no_fields))
                        (item (str "true") no_items)))
                    no_fields));
            metadata = none;
          },
        )
        ∷ [];
    evaluators = some (
        (
          "emailWithFaas",
          obj (
              field "ends_with"
                (arr (
                  item (obj (field "var" (str "email") no_fields))
                    (item (str "@faas.com") no_items)))
                no_fields),
        )
        ∷ []);
    metadata = none;
  });
  flag_key = "feature-1";
  return_type = boolean;
  context = fixed (("email", str "example@faas.com") ∷ []);
}

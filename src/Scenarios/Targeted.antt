-- ===== src/Scenarios/Targeted.antt =====
-- The scenarios of playground-app/src/scenarios whose rule reads the context or the time.
use flagd.Prelude.{◌+◌, ◌/◌, true, false, some, none, [], ◌∷◌}
use flagd.Model.{null, str, arr, obj, no_items, item, no_fields, field}
use flagd.Playground.{boolean, string}
use flagd.Scenarios.{Sample, fixed, made, joined, whole, strings, booleans}

abbrev pub targeting_key : Sample
targeting_key = record {
  description = joined (
      "In this scenario, we have a feature flag that is evaluated based on its targeting key."
      ∷ "The targeting key is contain a string uniquely identifying the subject of the flag evaluation, such as a user's email, or a session identifier."
      ∷ "In this case, null is returned from targeting if the targeting key doesn't match; this results in a reason of \"DEFAULT\", since no variant was matched by the targeting rule."
      ∷ []);
  flag_definition = fixed (record {
    flags =
        (
          "targeting-key-flag",
          record {
            state = "ENABLED";
            default_variant = "miss";
            variants = strings (("miss", "miss") ∷ ("hit", "hit") ∷ []);
            targeting = some (
                obj (
                  field "if"
                    (arr (
                      item
                        (obj (
                          field "=="
                            (arr (
                              item (obj (field "var" (str "targetingKey") no_fields))
                                (item (str "5c3d8535-f81a-4478-a6d3-afaa4d51199e") no_items)))
                            no_fields))
                        (item (str "hit") (item null no_items))))
                    no_fields));
            metadata = none;
          },
        )
        ∷ [];
    evaluators = none;
    metadata = none;
  });
  flag_key = "targeting-key-flag";
  return_type = string;
  context = fixed (("targetingKey", str "5c3d8535-f81a-4478-a6d3-afaa4d51199e") ∷ []);
}

abbrev pub enable_by_domain : Sample
enable_by_domain = record {
  description = joined (
      "In this scenario, we have a feature flag with the key \"enable-mainframe-access\" that is enabled and has two variants: true and false."
      ∷ "This flag has a targeting rule defined that enables the flag for users with an email address that ends with \"@ingen.com\"."
      ∷ "Experiment with changing the email address in the context or in the targeting rule." ∷ []);
  flag_definition = fixed (record {
    flags =
        (
          "enable-mainframe-access",
          record {
            state = "ENABLED";
            default_variant = "false";
            variants = booleans (("true", true) ∷ ("false", false) ∷ []);
            targeting = some (
                obj (
                  field "if"
                    (arr (
                      item
                        (obj (
                          field "ends_with"
                            (arr (
                              item (obj (field "var" (str "email") no_fields))
                                (item (str "@ingen.com") no_items)))
                            no_fields))
                        (item (str "true") no_items)))
                    no_fields));
            metadata = none;
          },
        )
        ∷ [];
    evaluators = none;
    metadata = none;
  });
  flag_key = "enable-mainframe-access";
  return_type = boolean;
  context = fixed (("email", str "john.arnold@ingen.com") ∷ []);
}

abbrev pub enable_by_locale : Sample
enable_by_locale = record {
  description = joined (
      "In this scenario, we have a feature flag with the key \"supports-one-hour-delivery\" that is enabled and has two variants: true and false."
      ∷ "This flag has a targeting rule defined that enables the flag for users with a locale of \"us\" or \"ca\"."
      ∷ "Experiment with changing the locale in the context or in the locale list in the targeting rule."
      ∷ []);
  flag_definition = fixed (record {
    flags =
        (
          "supports-one-hour-delivery",
          record {
            state = "ENABLED";
            default_variant = "false";
            variants = booleans (("true", true) ∷ ("false", false) ∷ []);
            targeting = some (
                obj (
                  field "if"
                    (arr (
                      item
                        (obj (
                          field "in"
                            (arr (
                              item (obj (field "var" (str "locale") no_fields))
                                (item (arr (item (str "us") (item (str "ca") no_items))) no_items)))
                            no_fields))
                        (item (str "true") no_items)))
                    no_fields));
            metadata = none;
          },
        )
        ∷ [];
    evaluators = none;
    metadata = none;
  });
  flag_key = "supports-one-hour-delivery";
  return_type = boolean;
  context = fixed (("locale", str "us") ∷ []);
}

abbrev pub enable_by_version : Sample
enable_by_version = record {
  description = joined (
      "In this scenario, we have a feature flag with the key \"enable-performance-mode\" that is enabled and has two variants: true and false."
      ∷ "This rule looks for the evaluation context \"version\". If the version is greater or equal to \"1.7.0\" the feature is enabled."
      ∷ "Otherwise, the \"defaultVariant\" is return. Experiment by changing the version in the context."
      ∷ []);
  flag_definition = fixed (record {
    flags =
        (
          "enable-performance-mode",
          record {
            state = "ENABLED";
            default_variant = "false";
            variants = booleans (("true", true) ∷ ("false", false) ∷ []);
            targeting = some (
                obj (
                  field "if"
                    (arr (
                      item
                        (obj (
                          field "sem_ver"
                            (arr (
                              item (obj (field "var" (str "version") no_fields))
                                (item (str ">=") (item (str "1.7.0") no_items))))
                            no_fields))
                        (item (str "true") no_items)))
                    no_fields));
            metadata = none;
          },
        )
        ∷ [];
    evaluators = none;
    metadata = none;
  });
  flag_key = "enable-performance-mode";
  return_type = boolean;
  context = fixed (("version", str "1.6.0") ∷ []);
}

abbrev pub enable_by_time : Sample
enable_by_time = record {
  description = joined (
      "In this scenario, we have a feature flag with the key \"enable-announcement-banner\" that is enabled and has two variants: true and false."
      ∷ "This flag has a targeting rule defined that enables the flag after a specified time."
      ∷ "The current time (epoch) can be accessed using \"$flagd.timestamp\" which is automatically provided by flagd."
      ∷ "Five seconds after loading this scenario, the response will change to \"true\"." ∷ []);
  flag_definition = made (λ now. record {
    flags =
        (
          "enable-announcement-banner",
          record {
            state = "ENABLED";
            default_variant = "false";
            variants = booleans (("true", true) ∷ ("false", false) ∷ []);
            targeting = some (
                obj (
                  field "if"
                    (arr (
                      item
                        (obj (
                          field ">"
                            (arr (
                              item (obj (field "var" (str "$flagd.timestamp") no_fields))
                                (item (whole (now / 1000 + 5)) no_items)))
                            no_fields))
                        (item (str "true") no_items)))
                    no_fields));
            metadata = none;
          },
        )
        ∷ [];
    evaluators = none;
    metadata = none;
  });
  flag_key = "enable-announcement-banner";
  return_type = boolean;
  context = made (λ now. []);
}

abbrev pub chainable_conditions : Sample
chainable_conditions = record {
  description = joined (
      "In this scenario, we have a feature flag with the key 'acceptable-feature-stability' with three variants: alpha, beta, and ga."
      ∷ "The flag has a targeting rule that enables the flag based on the customer ID."
      ∷ "The flag is enabled for customer-A in the alpha variant, for customer-B1 and customer-B2 in the beta variant, and for all other customers in the ga variant."
      ∷ "Experiment by changing the 'customerId' in the context." ∷ []);
  flag_definition = fixed (record {
    flags =
        (
          "acceptable-feature-stability",
          record {
            state = "ENABLED";
            default_variant = "ga";
            variants = strings (("alpha", "alpha") ∷ ("beta", "beta") ∷ ("ga", "ga") ∷ []);
            targeting = some (
                obj (
                  field "if"
                    (arr (
                      item
                        (obj (
                          field "==="
                            (arr (
                              item (obj (field "var" (str "customerId") no_fields))
                                (item (str "customer-A") no_items)))
                            no_fields))
                        (item (str "alpha") (
                          item
                            (obj (
                              field "in"
                                (arr (
                                  item (obj (field "var" (str "customerId") no_fields)) (
                                    item
                                      (arr (
                                        item (str "customer-B1")
                                          (item (str "customer-B2") no_items)))
                                      no_items)))
                                no_fields))
                            (item (str "beta") (item (str "ga") no_items))))))
                    no_fields));
            metadata = none;
          },
        )
        ∷ [];
    evaluators = none;
    metadata = none;
  });
  flag_key = "acceptable-feature-stability";
  return_type = string;
  context = fixed (("targetingKey", str "sessionId-123") ∷ ("customerId", str "customer-A") ∷ []);
}

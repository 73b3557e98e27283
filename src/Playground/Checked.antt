-- ===== src/Playground/Checked.antt =====
-- What it is for the validity flags and the core to belong to the shown texts, and what each step of
-- a commit does to that.
use flagd.Prelude.{
  ℕ, true, Option, none, some, String, ◌==◌, ◌≡◌, eq_iff, arith, if◌then◌else◌, Bool-cases, inl,
  inr, Option-cases, is_some,
}
use flagd.Prelude.Dict.{Dict, lookup}
use flagd.Playground.{
  Outcome, value, thrown, returns, Platform, Scenario, get_string, App, is_valid_json, reset_inputs,
  check_definition, check_context, refresh, recheck_definition, recheck_context,
}

module _ (js : Platform) where
  abbrev core_of : Outcome js.Core → Option js.Core
  core_of (value c) = some c
  core_of (thrown e) = none

  -- The core that a definition makes of `c`, if it is accepted.
  unfoldable pub accept : js.Core → String → Option js.Core
  unfolding is_valid_json
  accept c definition =
      if is_valid_json js definition then core_of (js.set_configurations definition c) else none

  -- Every template is accepted by every core, and its context is JSON.
  pub record HasValidTemplates (scenarios : Dict Scenario) : Type 0 where
    pub definition :
        (name : String) (template : Scenario) (now : ℕ) (c : js.Core)
        → lookup name scenarios ≡ some template
        → (c' : js.Core) × (accept c (get_string now template.flag_definition) ≡ some c')
    pub context :
        (name : String) (template : Scenario) (now : ℕ)
        → lookup name scenarios ≡ some template
        → returns (js.parse (get_string now template.context)) ≡ true

module _ (js : Platform) (scenarios : Dict Scenario) where
  -- The new core, or the old one.
  abbrev pub configured : js.Core → Option js.Core → js.Core
  configured c none = c
  configured c (some c') = c'

  abbrev pub Verdict : js.Core → Option js.Core → App js scenarios → Type 0
  Verdict c o a = (a.valid_feature_definition ≡ is_some o) × (a.core ≡ configured c o)

  -- The flag and the core are what the check of the shown definition gave, from some core.
  abbrev pub DefinitionIsChecked : App js scenarios → Type 0
  DefinitionIsChecked a = (c : js.Core) × Verdict c (accept js c a.feature_definition) a

  pub record IsChecked (a : App js scenarios) : Type 0 where
    pub definition : DefinitionIsChecked a
    pub context : a.valid_evaluation_context ≡ returns (js.parse a.evaluation_context)

  -- The check touches only what it is about.
  pub check_definition-Verdict :
      (definition : String) (a : App js scenarios)
      → Verdict a.core (accept js a.core definition) (check_definition js scenarios definition a)
        × ((check_definition js scenarios definition a).feature_definition ≡ a.feature_definition)
        × ((check_definition js scenarios definition a).evaluation_context ≡ a.evaluation_context)
        × ((check_definition js scenarios definition a).valid_evaluation_context
            ≡ a.valid_evaluation_context)
        × ((check_definition js scenarios definition a).selected_template ≡ a.selected_template)
  unfolding check_definition accept
  check_definition-Verdict definition a = ground arith

  -- What the later two effects of a commit leave alone.
  pub recheck_definition-kept :
      (seen shown a : App js scenarios)
      → ((recheck_definition js scenarios seen shown a).feature_definition ≡ a.feature_definition)
        × ((recheck_definition js scenarios seen shown a).evaluation_context ≡ a.evaluation_context)
        × ((recheck_definition js scenarios seen shown a).valid_evaluation_context
            ≡ a.valid_evaluation_context)
        × ((recheck_definition js scenarios seen shown a).selected_template ≡ a.selected_template)
  unfolding recheck_definition
  recheck_definition-kept seen shown a =
      ground (arith, check_definition-Verdict shown.feature_definition a)

  pub recheck_context-kept :
      (seen shown a : App js scenarios)
      → ((recheck_context js scenarios seen shown a).feature_definition ≡ a.feature_definition)
        × ((recheck_context js scenarios seen shown a).evaluation_context ≡ a.evaluation_context)
        × ((recheck_context js scenarios seen shown a).valid_feature_definition
            ≡ a.valid_feature_definition)
        × ((recheck_context js scenarios seen shown a).core ≡ a.core)
        × ((recheck_context js scenarios seen shown a).selected_template ≡ a.selected_template)
  unfolding recheck_context check_context
  recheck_context-kept seen shown a = ground arith

  module _ (ok : HasValidTemplates js scenarios) (now : ℕ) where
    -- A reset keeps the core, and its flags are right for the texts that it does not change.
    reset_inputs-kept :
        (a : App js scenarios)
        → ((reset_inputs js scenarios now a).core ≡ a.core)
          × ((reset_inputs js scenarios now a).selected_template ≡ a.selected_template)
    unfolding reset_inputs
    reset_inputs-kept a = ground arith

    pub reset_inputs-context :
        (a : App js scenarios)
        → a.evaluation_context ≡ (reset_inputs js scenarios now a).evaluation_context
        → a.valid_evaluation_context ≡ returns (js.parse a.evaluation_context)
        → (reset_inputs js scenarios now a).valid_evaluation_context
          ≡ returns (js.parse (reset_inputs js scenarios now a).evaluation_context)
    unfolding reset_inputs
    reset_inputs-context a same h = elim (Option-cases (lookup a.selected_template scenarios)) [
      | inl e ↦ ground (arith, e)
      | inr (template, e) ↦ ground (arith, e, ok.context a.selected_template template now e)
    ]

    pub reset_inputs-definition :
        (a : App js scenarios)
        → a.feature_definition ≡ (reset_inputs js scenarios now a).feature_definition
        → DefinitionIsChecked a
        → DefinitionIsChecked (reset_inputs js scenarios now a)
    unfolding reset_inputs
    reset_inputs-definition a same (c, (flag, core)) =
        elim (Option-cases (lookup a.selected_template scenarios)) [
          | inl e ↦ (c, (ground (arith, e), ground (arith, e)))
          | inr (template, e) ↦
              let (c', accepted) = ok.definition a.selected_template template now c e in
              (c, (ground (arith, e, accepted), ground (arith, e, accepted)))
        ]

    pub refresh-context :
        (seen a : App js scenarios)
        → a.evaluation_context ≡ (refresh js scenarios now seen a).evaluation_context
        → a.valid_evaluation_context ≡ returns (js.parse a.evaluation_context)
        → (refresh js scenarios now seen a).valid_evaluation_context
          ≡ returns (js.parse (refresh js scenarios now seen a).evaluation_context)
    unfolding refresh
    refresh-context seen a same h =
        elim (Bool-cases (seen.selected_template == a.selected_template)) [
          | inl e ↦ rw e h
          | inr e ↦ rw e (reset_inputs-context a (rw e at same) h)
        ]

    pub refresh-definition :
        (seen a : App js scenarios)
        → a.feature_definition ≡ (refresh js scenarios now seen a).feature_definition
        → DefinitionIsChecked a
        → DefinitionIsChecked (refresh js scenarios now seen a)
    unfolding refresh
    refresh-definition seen a same h =
        elim (Bool-cases (seen.selected_template == a.selected_template)) [
          | inl e ↦ rw e h
          | inr e ↦ rw e (reset_inputs-definition a (rw e at same) h)
        ]

    pub refresh-kept :
        (seen a : App js scenarios)
        → (refresh js scenarios now seen a).selected_template ≡ a.selected_template
    unfolding refresh
    refresh-kept seen a = ground (arith, reset_inputs-kept a)

    pub refresh-still :
        (seen a : App js scenarios)
        → seen.selected_template ≡ a.selected_template
        → refresh js scenarios now seen a ≡ a
    unfolding refresh
    refresh-still seen a same = ground (arith, eq_iff seen.selected_template a.selected_template)

-- ===== src/Playground/Mount.antt =====
-- The first render: whatever the page's address holds, it ends in a checked state.
use flagd.Prelude.{ℕ, Option, none, some, String, ◌≡◌, refl, ◌∙◌, ap, arith, is_some}
use flagd.Prelude.Dict.{Dict, lookup}
use flagd.Playground.{
  returns, Platform, Scenario, App, reset_inputs, check_definition, check_context,
}
use flagd.Playground.Handlers.{
  load_url, load_flags, load_scenario, set_formatted_context, initial, mount,
}
use flagd.Playground.Checked.{
  HasValidTemplates, IsChecked, configured, accept, DefinitionIsChecked, check_definition-Verdict,
}
use flagd.Playground.Effects.{settle-IsChecked}

module _ (js : Platform) (scenarios : Dict Scenario) where
  -- The address changes texts and the selection only.
  record Same (a b : App js scenarios) : Type 0 where
    flag : a.valid_feature_definition ≡ b.valid_feature_definition
    core : a.core ≡ b.core
    context : a.valid_evaluation_context ≡ b.valid_evaluation_context

  load_flags-Same :
      (params : Dict String) (flags : String) (a : App js scenarios)
      → Same (load_flags js scenarios params flags a) a
  unfolding load_flags set_formatted_context
  load_flags-Same params flags a = ground arith

  load_scenario-Same :
      (now : ℕ) (name : Option String) (a : App js scenarios)
      → Same (load_scenario js scenarios now name a) a
  unfolding load_scenario
  load_scenario-Same now none a = record { flag = refl; core = refl; context = refl }
  load_scenario-Same now (some name) a = ground arith

  abbrev shown : Option String → String
  shown none = ""
  shown (some s) = s

  load_url-Same :
      (now : ℕ) (params : Dict String) (a : App js scenarios)
      → Same (load_url js scenarios now params a) a
  unfolding load_url
  load_url-Same now params a = ground (
    arith,
    load_flags-Same params (shown (lookup "flags" params)) a,
    load_scenario-Same now (lookup "scenario-name" params) a,
  )

  module _ (ok : HasValidTemplates js scenarios) (now : ℕ) (params : Dict String) (name : String)
      (template : Scenario) where
    abbrev first : App js scenarios
    first = initial js scenarios now name template

    abbrev fresh : App js scenarios
    fresh = reset_inputs js scenarios now first

    abbrev checked : App js scenarios
    checked =
        check_context js scenarios first.evaluation_context
          (check_definition js scenarios first.feature_definition fresh)

    abbrev loaded : App js scenarios
    loaded = load_url js scenarios now params checked

    loaded-definition :
        first.feature_definition ≡ loaded.feature_definition
        → DefinitionIsChecked js scenarios loaded
    unfolding check_context
    loaded-definition same =
        let verdict = check_definition-Verdict js scenarios first.feature_definition fresh in
        let kept = load_url-Same now params checked in
        (
          fresh.core,
          (
            kept.flag ∙ verdict.0.0 ∙ ap (λ t. is_some (accept js fresh.core t)) same,
            kept.core
                ∙ verdict.0.1
                ∙ ap (λ t. configured js scenarios fresh.core (accept js fresh.core t)) same,
          ),
        )

    loaded-context :
        first.evaluation_context ≡ loaded.evaluation_context
        → loaded.valid_evaluation_context ≡ returns (js.parse loaded.evaluation_context)
    unfolding check_context
    loaded-context same =
        (load_url-Same now params checked).context ∙ ap (λ t. returns (js.parse t)) same

    -- After the first render the flags and the core belong to the texts that are shown.
    pub mount-IsChecked : IsChecked js scenarios (mount js scenarios now params name template)
    unfolding mount
    mount-IsChecked =
        settle-IsChecked js scenarios ok now first loaded loaded-definition loaded-context

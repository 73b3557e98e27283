-- ===== src/Playground/Opened.antt =====
-- What a page shows that is opened by the address that "Share" made.
use flagd.Prelude.{
  refl, ℕ, false, some, String, ◌==◌, ◌≡◌, sym, ap, ◌∙◌, arith, eq_iff, if◌then◌else◌,
}
use flagd.Prelude.Dict.{Dict, lookup}
use flagd.Playground.{
  value, Platform, Scenario, App, reset_inputs, check_definition, check_context, refresh,
  recheck_definition, recheck_context, effects, settle,
}
use flagd.Playground.Handlers.{initial, load_url, own_scenario, copy_url, mount}
use flagd.Playground.Share.{load_url-copy_url}

module _ (js : Platform) (scenarios : Dict Scenario) (now : ℕ) where
  -- The four inputs of a state.
  abbrev pub HasInputs : App js scenarios → (definition key kind context : String) → Type 0
  HasInputs a definition key kind context =
      (a.feature_definition ≡ definition)
      × (a.flag_key ≡ key)
      × (a.return_type ≡ kind)
      × (a.evaluation_context ≡ context)

  -- The effects leave the inputs alone while the selection stays.
  effects-inputs :
      (seen a : App js scenarios)
      → seen.selected_template ≡ a.selected_template
      → HasInputs
          (effects js scenarios now seen a)
          a.feature_definition
          a.flag_key
          a.return_type
          a.evaluation_context
        × ((effects js scenarios now seen a).selected_template ≡ a.selected_template)
  unfolding effects refresh recheck_definition recheck_context check_definition check_context
  effects-inputs seen a same =
      ground (arith, same, eq_iff seen.selected_template a.selected_template)

  settle-inputs :
      (seen a : App js scenarios)
      → seen.selected_template ≡ a.selected_template
      → HasInputs
          (settle js scenarios now 2 seen a)
          a.feature_definition
          a.flag_key
          a.return_type
          a.evaluation_context
  unfolding settle
  settle-inputs seen a same =
      let (first, kept) = effects-inputs seen a same in
      ground (arith, first, effects-inputs a (effects js scenarios now seen a) (sym kept))

  module _ (name : String) (template : Scenario)
      (found : lookup name scenarios ≡ some template) where
    abbrev checked : App js scenarios
    checked =
        check_context js scenarios (initial js scenarios now name template).evaluation_context (
          check_definition js scenarios (initial js scenarios now name template).feature_definition
            (reset_inputs js scenarios now (initial js scenarios now name template)))

    checked-template :
        (checked.selected_template ≡ name)
        × (checked.flag_key ≡ template.flag_key)
        × (checked.return_type ≡ template.return_type)
    unfolding initial reset_inputs check_definition check_context
    checked-template = ground (arith, found)

    initial-template : (initial js scenarios now name template).selected_template ≡ name
    unfolding initial
    initial-template = refl

  -- The definition is edited, and both editors hold JSON. Then Share makes an address, and the page
  -- that is opened by it, with the scenario `name` selected at first, shows in the end the same
  -- definition and context in indented form, and the same flag key and return type. The exception is
  -- an empty key or return type, for which the page shows that of the scenario.
  pub mount-copy_url :
      (a : App js scenarios) (definition context : js.Data) (name : String) (template : Scenario)
      → js.IsJson definition
      → js.IsJson context
      → js.parse a.feature_definition ≡ value definition
      → js.parse a.evaluation_context ≡ value context
      → own_scenario js scenarios a ≡ false
      → lookup name scenarios ≡ some template
      → (params : Dict String) × (copy_url js scenarios a ≡ value params)
        × HasInputs
            (mount js scenarios now params name template)
            (js.pretty definition)
            (if a.flag_key == "" then template.flag_key else a.flag_key)
            (if a.return_type == "" then template.return_type else a.return_type)
            (js.pretty context)
  unfolding mount
  mount-copy_url a definition context name template jd jc pd pc own found =
      let (params, shared, loads) =
        load_url-copy_url js scenarios now a definition context jd jc pd pc own in
      let (selected, key, kind) = checked-template name template found in
      let first = initial js scenarios now name template in
      let base = checked name template found in
      let loaded = load_url js scenarios now params base in
      let stays : first.selected_template ≡ loaded.selected_template =
        initial-template name template found
        ∙ sym selected
        ∙ sym (ap (λ (x : App js scenarios). x.selected_template) (loads base)) in
      let kept = settle-inputs first loaded stays in
      (params, shared, ground (arith, kept, loads base, key, kind))

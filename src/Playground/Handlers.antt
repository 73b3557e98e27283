-- ===== src/Playground/Handlers.antt =====
-- playground-app/src/App.tsx: the event handlers, the loading of the page's address and the
-- address that "Share" makes. An address is given by its search parameters.
use flagd.Prelude.{
  ℕ, Bool, true, false, not, ◌&&◌, Option, none, some, [], String, ◌==◌, if◌then◌else◌,
}
use flagd.Prelude.Dict.{Dict, lookup, insert, remove}
use flagd.Playground.{
  Outcome, value, thrown, Kind, boolean, string, number, object, Platform, get_string, is_text,
  Scenario, success, failure, App, format_json, shorten_json, reset_inputs, check_definition,
  check_context, settle,
}

-- A parameter that is there and is not the empty text.
abbrev pub truthy : Option String → Bool
truthy none = false
truthy (some s) = not (s == "")

-- The cases of `switch (returnType)`.
unfoldable pub kind_of : String → Option Kind
kind_of t =
    if t == "boolean"
    then some boolean
    else if t == "string"
    then some string
    else if t == "number"
    then some number
    else if t == "object"
    then some object
    else none

module _ (js : Platform) (scenarios : Dict Scenario) where
  -- `if (param) set(param)`
  abbrev when_given :
      Option String
      → (String → App js scenarios → App js scenarios)
      → App js scenarios
      → App js scenarios
  when_given none set a = a
  when_given (some s) set a = if s == "" then a else set s a

  abbrev set_feature_definition : String → App js scenarios → App js scenarios
  set_feature_definition s a = record a { feature_definition = s }

  abbrev set_flag_key : String → App js scenarios → App js scenarios
  set_flag_key s a = record a { flag_key = s }

  abbrev set_return_type : String → App js scenarios → App js scenarios
  set_return_type s a = record a { return_type = s }

  abbrev set_evaluation_context : String → App js scenarios → App js scenarios
  set_evaluation_context s a = record a { evaluation_context = s }

  -- What throws is caught; what was set before stays set.
  unfoldable pub set_formatted_context : String → App js scenarios → App js scenarios
  unfolding format_json
  set_formatted_context s a = elim (format_json js s) [
    | value formatted ↦ set_evaluation_context formatted a
    | thrown e ↦ a
  ]

  unfoldable pub load_flags : Dict String → String → App js scenarios → App js scenarios
  unfolding set_formatted_context format_json lookup
  load_flags params flags a = elim (format_json js flags) [
    | value formatted ↦ when_given (lookup "eval-context" params) set_formatted_context (
        when_given (lookup "return-type" params) set_return_type
          (when_given (lookup "flag-key" params) set_flag_key (set_feature_definition formatted a)))
    | thrown e ↦ a
  ]

  unfoldable pub load_scenario : ℕ → Option String → App js scenarios → App js scenarios
  unfolding lookup get_string
  load_scenario now none a = a
  load_scenario now (some name) a = if name == "" then a else elim (lookup name scenarios) [
    | none ↦ a
    | some scenario ↦ record a {
      selected_template = name;
      feature_definition = get_string now scenario.flag_definition;
    }
  ]

  -- The effect that runs once.
  unfoldable pub load_url : ℕ → Dict String → App js scenarios → App js scenarios
  unfolding load_flags load_scenario
  load_url now params a = elim (lookup "flags" params) [
    | none ↦ load_scenario now (lookup "scenario-name" params) a
    | some flags ↦
        if flags == ""
        then load_scenario now (lookup "scenario-name" params) a
        else load_flags params flags a
  ]

  -- The hooks' first values, for the template that is selected first.
  unfoldable pub initial : ℕ → String → Scenario → App js scenarios
  unfolding get_string
  initial now name template = record {
    selected_template = name;
    feature_definition = get_string now template.flag_definition;
    flag_key = template.flag_key;
    return_type = template.return_type;
    evaluation_context = get_string now template.context;
    show_output = false;
    output = some "";
    autocomplete_flag_keys = [];
    description = template.description;
    valid_feature_definition = true;
    valid_evaluation_context = true;
    show_copy_notification = false;
    status = success;
    core = js.empty_core;
  }

  -- The first commit runs all effects, in the order of the source.
  unfoldable pub mount : ℕ → Dict String → String → Scenario → App js scenarios
  unfolding load_url initial reset_inputs check_definition check_context settle
  mount now params name template =
      let first = initial now name template in
      settle js scenarios now 2 first (
        load_url now params (
          check_context js scenarios first.evaluation_context (
            check_definition js scenarios first.feature_definition
              (reset_inputs js scenarios now first))))

  -- `JSON.stringify(result, null, 2)`; without a matching case `result` is `undefined`.
  unfoldable pub run_evaluation : App js scenarios → js.Data → Outcome (Option String)
  unfolding kind_of
  run_evaluation a context = elim (kind_of a.return_type) [
    | none ↦ value none
    | some kind ↦ elim (js.resolve a.core kind a.flag_key context) [
      | value result ↦ value (some (js.pretty result))
      | thrown e ↦ thrown e
    ]
  ]

  abbrev parse_then_run : App js scenarios → Outcome js.Data → Outcome (Option String)
  parse_then_run a (value context) = run_evaluation a context
  parse_then_run a (thrown e) = thrown e

  unfoldable pub evaluate : App js scenarios → App js scenarios
  unfolding run_evaluation
  evaluate a = elim (parse_then_run a (js.parse a.evaluation_context)) [
    | value output ↦ record a { show_output = true; status = success; output = output }
    | thrown e ↦ record a { show_output = true; status = failure; output = some e }
  ]

  unfoldable pub own_scenario : App js scenarios → Bool
  unfolding lookup
  own_scenario a = elim (lookup a.selected_template scenarios) [
    | none ↦ false
    | some scenario ↦ is_text scenario.flag_definition a.feature_definition
  ]

  unfoldable pub share_params : App js scenarios → String → String → Dict String
  unfolding own_scenario insert remove
  share_params a flags context =
      if own_scenario a
      then insert "scenario-name" a.selected_template []
      else insert "eval-context" context (
          insert "return-type" a.return_type
            (insert "flag-key" a.flag_key (insert "flags" flags (remove "scenario-name" []))))

  -- The search parameters that `copyUrl` puts into the address and the clipboard.
  unfoldable pub copy_url : App js scenarios → Outcome (Dict String)
  unfolding share_params shorten_json
  copy_url a = elim (shorten_json js a.feature_definition) [
    | thrown e ↦ thrown e
    | value flags ↦ elim (shorten_json js a.evaluation_context) [
      | thrown e ↦ thrown e
      | value context ↦ value (share_params a flags context)
    ]
  ]

  -- `copied` and `expired` are the answer of the clipboard and the timer that `copyUrl` starts.
  pub data Event : Type 0 where
    select edit_definition edit_flag_key edit_return_type edit_context : String → Event
    press_evaluate press_reset copied expired : Event

  -- The two buttons are disabled otherwise.
  abbrev pub enabled : App js scenarios → Bool
  enabled a = a.valid_feature_definition && a.valid_evaluation_context

  -- An editor that is emptied reports no value.
  unfoldable pub handle : ℕ → App js scenarios → Event → App js scenarios
  unfolding evaluate reset_inputs
  handle now a (select name) = record a { selected_template = name }
  handle now a (edit_definition s) = if s == "" then a else record a { feature_definition = s }
  handle now a (edit_flag_key s) = record a { flag_key = s }
  handle now a (edit_return_type s) = record a { return_type = s }
  handle now a (edit_context s) = if s == "" then a else record a { evaluation_context = s }
  handle now a press_evaluate = if enabled a then evaluate a else a
  handle now a press_reset = reset_inputs js scenarios now a
  handle now a copied = record a { show_copy_notification = true }
  handle now a expired = record a { show_copy_notification = false }

  unfoldable pub dispatch : ℕ → App js scenarios → Event → App js scenarios
  unfolding handle settle
  dispatch now a e = settle js scenarios now 2 a (handle now a e)

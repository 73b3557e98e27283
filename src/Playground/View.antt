-- ===== src/Playground/View.antt =====
-- What App.tsx renders: the fields of the form, the buttons, the panel with the result and the
-- notice. Styles, the fixed texts and the layout are left out.
use Prim.Native.String.{◌++◌ as ◌<>◌}
use flagd.Prelude.{
  Bool, true, false, not, ◌||◌, Option, none, some, List, [], ◌∷◌, String, if◌then◌else◌,
}
use flagd.Prelude.Dict.{Dict}
use flagd.Playground.{Outcome, value, thrown, Platform, Scenario, Status, success, failure, App}

abbrev pub names : {A : Type 0} → Dict A → List String
names [] = []
names ((name, a) ∷ rest) = name ∷ names rest

-- `typeof` and `Object.entries` of a JSON value: `typeof null` is "object", and has no entries.
pub data Shape (js : Platform) : Type 0 where
  null primitive : Shape js
  members : Dict js.Data → Shape js

module _ (js : Platform) (shape : js.Data → Shape js) where
  -- `parsedOutput`: the parsed output, or the output itself. `JSON.parse(undefined)` throws.
  pub data Parsed : Type 0 where
    json : js.Data → Parsed
    plain : Option String → Parsed

  unfoldable pub parsed_output : Option String → Parsed
  parsed_output none = plain none
  parsed_output (some output) = elim (js.parse output) [
    | value d ↦ json d
    | thrown e ↦ plain (some output)
  ]

  -- The rows of an object, or one paragraph.
  pub data Body : Type 0 where
    rows : Dict String → Body
    paragraph : Parsed → Body

  abbrev pub printed_members : Dict js.Data → Dict String
  printed_members [] = []
  printed_members ((key, d) ∷ rest) = (key, js.stringify d) ∷ printed_members rest

  abbrev pub body_of : Parsed → Outcome Body
  body_of (plain s) = value (paragraph (plain s))
  body_of (json d) = elim (shape d) [
    | null ↦ thrown "Cannot convert undefined or null to object"
    | primitive ↦ value (paragraph (json d))
    | members m ↦ value (rows (printed_members m))
  ]

  pub record Panel : Type 0 where
    pub class_name : String
    pub title : String
    pub body : Body

  pub record View : Type 0 where
    pub selected : String
    pub scenario_options : List String
    pub description : String
    pub definition : String
    pub flag_key : String
    pub flag_key_options : List String
    pub return_type : String
    pub return_type_options : List String
    pub context : String
    pub evaluate_disabled : Bool
    pub share_disabled : Bool
    pub panel : Panel
    pub notice : Bool

  abbrev pub is_success : Status → Bool
  is_success success = true
  is_success failure = false

  unfoldable pub class_name_of : Bool → Status → String
  class_name_of show_output status =
      "output "
      <> (if show_output then "visible" else "")
      <> " admonition "
      <> (if is_success status then "success" else "failure")

  unfoldable pub title_of : Status → String
  title_of status = if is_success status then "Success" else "Failure"

  module _ (scenarios : Dict Scenario) where
    unfoldable pub panel_of : App js scenarios → Outcome Panel
    unfolding parsed_output class_name_of title_of
    panel_of a = elim (body_of (parsed_output a.output)) [
      | thrown e ↦ thrown e
      | value body ↦ value (record {
        class_name = class_name_of a.show_output a.status;
        title = title_of a.status;
        body = body;
      })
    ]

    -- What throws while rendering takes the whole page down.
    unfoldable pub render : App js scenarios → Outcome View
    unfolding panel_of
    render a = elim (panel_of a) [
      | thrown e ↦ thrown e
      | value panel ↦ value (record {
        selected = a.selected_template;
        scenario_options = names scenarios;
        description = a.description;
        definition = a.feature_definition;
        flag_key = a.flag_key;
        flag_key_options = a.autocomplete_flag_keys;
        return_type = a.return_type;
        return_type_options = "boolean" ∷ "string" ∷ "number" ∷ "object" ∷ [];
        context = a.evaluation_context;
        evaluate_disabled = not a.valid_feature_definition || not a.valid_evaluation_context;
        share_disabled = not a.valid_feature_definition || not a.valid_evaluation_context;
        panel = panel;
        notice = a.show_copy_notification;
      })
    ]

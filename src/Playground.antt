-- ===== src/Playground.antt =====
-- playground-app/src/App.tsx with utils.ts and types.ts: the state of the component, its effects
-- and its event handlers.
--
-- A handler's and an effect's calls of state setters are one new state. React then renders and runs
-- the effects whose dependencies changed since the render before: `effects`. `settle` repeats this
-- until nothing changes. The theme of the editor, the layout and the console are left out.
pub mod Handlers
pub mod Share
pub mod Checked
pub mod Effects
pub mod Mount
pub mod Opened
pub mod Convergence
pub mod Evaluate
pub mod View
pub mod Shown
pub mod Notice
pub mod Theme
pub mod Sample
pub mod Tests
pub mod ShownTests
use flagd.Prelude.{
  ℕ, zero, suc, Bool, true, false, not, ◌&&◌, ◌||◌, Option, none, some, List, [], ◌∷◌, String, ◌==◌,
  ◌≡◌, ◌≢◌, if◌then◌else◌, is_some,
}
use flagd.Prelude.Dict.{Dict, lookup, insert, has}

-- A JavaScript call that returns, or throws an error with a message.
pub data Outcome (A : Type 0) : Type 0 where
  value : A → Outcome A
  thrown : String → Outcome A

abbrev pub returns : {A : Type 0} → Outcome A → Bool
returns (value a) = true
returns (thrown message) = false

-- `FlagValueType`
pub data Kind : Type 0 where
  boolean string number object : Kind

-- What the component calls: `JSON`, with the round trips of its printers, and the package
-- `@openfeature/flagd-core`, whose resolvers get the default `false`, `""`, `0` or `{}`. `IsJson` is
-- said of the data that JSON can represent: null, Booleans, texts, numbers that are finite and not
-- negative zero, and arrays and objects of these without undefined members.
pub record Platform : Type 1 where
  pub Data : Type 0
  pub parse : String → Outcome Data
  pub stringify : Data → String
  pub pretty : Data → String
  pub parse_empty : (d : Data) → parse "" ≢ value d
  pub IsJson : Data → Type 0
  pub parse-stringify : (d : Data) → IsJson d → parse (stringify d) ≡ value d
  pub parse-pretty : (d : Data) → IsJson d → parse (pretty d) ≡ value d
  pub Core : Type 0
  pub empty_core : Core
  pub set_configurations : String → Core → Outcome Core
  pub flag_keys : Core → List String
  pub resolve : Core → Kind → String → Data → Outcome Data

-- A text, or a function that makes one, given the time.
pub data Source : Type 0 where
  text : String → Source
  thunk : (ℕ → String) → Source

unfoldable pub get_string : ℕ → Source → String
get_string now (text s) = s
get_string now (thunk f) = f now

-- `===` between a source and a text.
abbrev pub is_text : Source → String → Bool
is_text (text s) t = s == t
is_text (thunk f) t = false

pub record Scenario : Type 0 where
  pub description : String
  pub flag_definition : Source
  pub flag_key : String
  pub return_type : String
  pub context : Source

pub data Status : Type 0 where
  success failure : Status

module _ (js : Platform) where
  open js use {parse, stringify, pretty}

  unfoldable pub is_valid_json : String → Bool
  is_valid_json input = returns (parse input)

  unfoldable pub format_json : String → Outcome String
  format_json s = elim (parse s) [ value d ↦ value (pretty d) | thrown e ↦ thrown e ]

  unfoldable pub shorten_json : String → Outcome String
  shorten_json s = elim (parse s) [ value d ↦ value (stringify d) | thrown e ↦ thrown e ]

module _ (js : Platform) (scenarios : Dict Scenario) where
  open js use {set_configurations, flag_keys}

  -- The state hooks and the memoised `flagdCore`. An output of `none` is `undefined`.
  pub record App : Type 0 where
    pub selected_template : String
    pub feature_definition : String
    pub flag_key : String
    pub return_type : String
    pub evaluation_context : String
    pub show_output : Bool
    pub output : Option String
    pub autocomplete_flag_keys : List String
    pub description : String
    pub valid_feature_definition : Bool
    pub valid_evaluation_context : Bool
    pub show_copy_notification : Bool
    pub status : Status
    pub core : js.Core

  unfoldable pub reset_inputs : ℕ → App → App
  unfolding lookup get_string
  reset_inputs now a = elim (lookup a.selected_template scenarios) [
    | none ↦ a
    | some template ↦ record a {
      output = some "";
      show_output = false;
      feature_definition = get_string now template.flag_definition;
      flag_key = template.flag_key;
      return_type = template.return_type;
      evaluation_context = get_string now template.context;
      description = template.description;
      valid_feature_definition = true;
      valid_evaluation_context = true;
      show_copy_notification = false;
      status = success;
    }
  ]

  -- The effect on `featureDefinition`.
  unfoldable pub check_definition : String → App → App
  unfolding is_valid_json
  check_definition definition a =
      if is_valid_json js definition
      then elim (set_configurations definition a.core) [
        | value core ↦ record a {
          core = core;
          autocomplete_flag_keys = flag_keys core;
          valid_feature_definition = true;
        }
        | thrown e ↦ record a { valid_feature_definition = false }
      ]
      else record a { valid_feature_definition = false }

  -- The effect on `evaluationContext`.
  unfoldable pub check_context : String → App → App
  check_context context a = record a { valid_evaluation_context = returns (js.parse context) }

  -- The three effects of one commit, each if its dependency changed: `seen` is the state at the
  -- render before, and `shown` at this one, whose texts the effects read.
  unfoldable pub refresh : ℕ → App → App → App
  unfolding reset_inputs
  refresh now seen shown =
      if seen.selected_template == shown.selected_template then shown else reset_inputs now shown

  unfoldable pub recheck_definition : App → App → App → App
  unfolding check_definition
  recheck_definition seen shown a =
      if seen.feature_definition == shown.feature_definition
      then a
      else check_definition shown.feature_definition a

  unfoldable pub recheck_context : App → App → App → App
  unfolding check_context
  recheck_context seen shown a =
      if seen.evaluation_context == shown.evaluation_context
      then a
      else check_context shown.evaluation_context a

  unfoldable pub effects : ℕ → App → App → App
  unfolding refresh recheck_definition recheck_context
  effects now seen shown =
      recheck_context seen shown (recheck_definition seen shown (refresh now seen shown))

  unfoldable pub settle : ℕ → ℕ → App → App → App
  unfolding effects
  settle now zero seen a = a
  settle now (suc rounds) seen a = settle now rounds a (effects now seen a)

-- ===== src/Playground/Tests.antt =====
-- The playground at a small platform: the theorems' instances, and runs.
use flagd.Prelude.{true, false, some, [], String, ◌≡◌, refl}
use flagd.Prelude.Dict.{Dict, lookup}
use flagd.Playground.{value, App, get_string}
use flagd.Playground.Sample.{sample, table, basic, timed, table-HasValidTemplates}
use flagd.Playground.Handlers.{
  select, edit_definition, edit_flag_key, press_reset, enabled, evaluate, mount, dispatch, load_url,
  copy_url, kind_of, own_scenario,
}
use flagd.Playground.Checked.{IsChecked}
use flagd.Playground.Effects.{dispatch-IsChecked}
use flagd.Playground.Mount.{mount-IsChecked}
use flagd.Playground.Evaluate.{RunsShown, answer, evaluate_lem}
use flagd.Playground.Opened.{HasInputs, mount-copy_url}

unfoldable pub program : Unit {0}
unfolding evaluate mount dispatch load_url copy_url kind_of get_string
program = tt

abbrev pub opened : App sample table
opened = mount sample table 0 [] "Basic" basic

abbrev pub broken : App sample table
broken = dispatch sample table 0 opened (edit_definition "jbad")

abbrev pub edited : App sample table
edited =
    dispatch sample table 0 (dispatch sample table 0 broken (edit_definition "jnew"))
      (edit_flag_key "k")

runs :
    (enabled sample table opened ≡ true)
    × (enabled sample table broken ≡ false)
    × (enabled sample table edited ≡ true)
    × ((evaluate sample table edited).output ≡ some "jjnew")
    × ((dispatch sample table 0 broken (select "Timed")).feature_definition ≡ "jtimed")
    × (enabled sample table (dispatch sample table 0 broken press_reset) ≡ true)
unfolding program
runs = (refl, refl, refl, refl, refl, refl)

mount-IsChecked_example : IsChecked sample table opened
mount-IsChecked_example = mount-IsChecked sample table table-HasValidTemplates 0 [] "Basic" basic

dispatch-IsChecked_example : IsChecked sample table broken
dispatch-IsChecked_example =
    dispatch-IsChecked sample table table-HasValidTemplates 0 opened (edit_definition "jbad")
      mount-IsChecked_example

pub edited-IsChecked : IsChecked sample table edited
edited-IsChecked =
    dispatch-IsChecked sample table table-HasValidTemplates 0
      (dispatch sample table 0 broken (edit_definition "jnew")) (edit_flag_key "k")
      (dispatch-IsChecked sample table table-HasValidTemplates 0 broken (edit_definition "jnew")
        dispatch-IsChecked_example)

edited-enabled : enabled sample table edited ≡ true
unfolding program
edited-enabled = refl

evaluate_lem_example :
    RunsShown sample table edited
    × ((context : String) × (sample.parse edited.evaluation_context ≡ value context)
        × ((evaluate sample table edited).status
            ≡ (answer sample table edited (kind_of edited.return_type) context).0)
        × ((evaluate sample table edited).output
            ≡ (answer sample table edited (kind_of edited.return_type) context).1))
evaluate_lem_example = evaluate_lem sample table edited edited-IsChecked edited-enabled

mount-copy_url_example :
    (params : Dict String) × (copy_url sample table edited ≡ value params)
    × HasInputs sample table 0
        (mount sample table 0 params "Timed" timed)
        "jnew"
        "k"
        "boolean"
        "j{}"
unfolding program own_scenario lookup
mount-copy_url_example =
    mount-copy_url sample table 0 edited "new" "{}" "Timed" timed tt tt refl refl refl refl

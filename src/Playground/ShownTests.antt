-- ===== src/Playground/ShownTests.antt =====
-- The rendered form at the small platform, and the notice over a few seconds.
use flagd.Prelude.{suc, false, some, [], ◌∷◌, String, ◌≡◌, refl}
use flagd.Playground.{value, settle}
use flagd.Playground.Handlers.{evaluate, copy_url, share_params}
use flagd.Playground.Sample.{sample, table}
use flagd.Playground.Convergence.{settle-settle}
use flagd.Playground.View.{
  Shape, members, rows, paragraph, plain, panel_of, render, parsed_output, View, class_name_of,
  title_of,
}
use flagd.Playground.Shown.{render-copy_url}
use flagd.Playground.Notice.{Notice, start, copied_now, pass}
use flagd.Playground.Tests.{program, opened, edited, edited-IsChecked}

-- Each result is an object with one member.
abbrev shape : String → Shape sample
shape d = members (("value", d) ∷ [])

abbrev view : View sample shape
view = record {
  selected = "Basic";
  scenario_options = "Basic" ∷ "Timed" ∷ [];
  description = "basic";
  definition = "jnew";
  flag_key = "k";
  flag_key_options = "jnew" ∷ [];
  return_type = "boolean";
  return_type_options = "boolean" ∷ "string" ∷ "number" ∷ "object" ∷ [];
  context = "j{}";
  evaluate_disabled = false;
  share_disabled = false;
  panel = record {
    class_name = "output  admonition success";
    title = "Success";
    body = paragraph (plain (some ""));
  };
  notice = false;
}

settle-settle_example :
    settle sample table 0 (suc (suc 3)) opened edited ≡ settle sample table 0 2 opened edited
settle-settle_example = settle-settle sample table 0 opened edited 3

panel_shown :
    panel_of sample shape table (evaluate sample table edited)
    ≡ value (record {
      class_name = "output visible admonition success";
      title = "Success";
      body = rows (("value", "jjnew") ∷ []);
    })
unfolding program panel_of parsed_output class_name_of title_of
panel_shown = refl

render-copy_url_example :
    (definition : String) × (context : String) × (sample.parse view.definition ≡ value definition)
    × (sample.parse view.context ≡ value context)
    × (copy_url sample table edited
        ≡ value (
            share_params sample table edited
              (sample.stringify definition)
              (sample.stringify context)))
unfolding program render parsed_output class_name_of title_of
render-copy_url_example = render-copy_url sample shape table edited view edited-IsChecked refl refl

abbrev copied_twice : Notice
unfolding copied_now pass
copied_twice = copied_now (pass 3000 (copied_now start))

hidden_again : (pass 6000 copied_twice).shown ≡ false
unfolding copied_now pass
hidden_again = refl

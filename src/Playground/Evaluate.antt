-- ===== src/Playground/Evaluate.antt =====
-- "Evaluate" runs what the editors show.
use flagd.Prelude.{true, Option, none, some, String, ◌≡◌, refl, arith, is_some}
use flagd.Prelude.Dict.{Dict}
use flagd.Playground.{
  Outcome, value, thrown, returns, Kind, Platform, Scenario, success, failure, Status, App,
}
use flagd.Playground.Handlers.{kind_of, enabled, evaluate}
use flagd.Playground.Checked.{IsChecked, accept, configured}

module _ (js : Platform) (scenarios : Dict Scenario) (a : App js scenarios) where
  -- The core is one that accepted the shown definition.
  abbrev pub RunsShown : Type 0
  RunsShown = (c : js.Core) × (js.set_configurations a.feature_definition c ≡ value a.core)

  accepted :
      (c : js.Core)
      → is_some (accept js c a.feature_definition) ≡ true
      → a.core ≡ configured js scenarios c (accept js c a.feature_definition)
      → js.set_configurations a.feature_definition c ≡ value a.core
  unfolding accept
  accepted c h core = ground (arith, h, core)

  pub parsed : (o : Outcome js.Data) → returns o ≡ true → (d : js.Data) × (o ≡ value d)
  parsed (value d) h = (d, refl)
  parsed (thrown e) h = cc

  -- What the core answers for a type, as a status and a text.
  abbrev pub answer : Option Kind → js.Data → Status × Option String
  answer none context = (success, none)
  answer (some kind) context = elim (js.resolve a.core kind a.flag_key context) [
    | value result ↦ (success, some (js.pretty result))
    | thrown message ↦ (failure, some message)
  ]

  -- In a checked state with the button enabled the core holds the shown definition, the shown
  -- context is JSON, and "Evaluate" shows the core's answer for the shown key, context and type:
  -- the result in indented form or the error's message, or nothing for an unknown type.
  pub evaluate_lem :
      IsChecked js scenarios a
      → enabled js scenarios a ≡ true
      → RunsShown
        × ((context : js.Data) × (js.parse a.evaluation_context ≡ value context)
            × ((evaluate js scenarios a).status ≡ (answer (kind_of a.return_type) context).0)
            × ((evaluate js scenarios a).output ≡ (answer (kind_of a.return_type) context).1))
  unfolding evaluate
  evaluate_lem h on =
      let (c, verdict) = h.definition in
      let (context, parses) =
        parsed (js.parse a.evaluation_context) (ground (arith, on, h.context)) in
      (
        (c, accepted c (ground (arith, on, verdict.0)) verdict.1),
        (context, parses, ground (arith, parses), ground (arith, parses)),
      )

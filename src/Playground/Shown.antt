-- ===== src/Playground/Shown.antt =====
-- What the rendered form says about the state: an enabled "Share" works.
use flagd.Prelude.{true, false, ◌≡◌, arith}
use flagd.Prelude.Dict.{Dict}
use flagd.Playground.{value, returns, Platform, Scenario, App, is_valid_json, shorten_json}
use flagd.Playground.Handlers.{enabled, copy_url, share_params}
use flagd.Playground.Evaluate.{parsed}
use flagd.Playground.Checked.{IsChecked, accept}
use flagd.Playground.View.{Shape, View, render}

module _ (js : Platform) (shape : js.Data → Shape js) (scenarios : Dict Scenario)
    (a : App js scenarios) where
  enabled_parses :
      IsChecked js scenarios a
      → enabled js scenarios a ≡ true
      → (returns (js.parse a.feature_definition) ≡ true)
        × (returns (js.parse a.evaluation_context) ≡ true)
  unfolding accept is_valid_json
  enabled_parses h on =
      let (c, verdict) = h.definition in
      (ground (arith, on, verdict.0), ground (arith, on, h.context))

  copy_url-returns :
      (definition context : js.Data)
      → js.parse a.feature_definition ≡ value definition
      → js.parse a.evaluation_context ≡ value context
      → copy_url js scenarios a
        ≡ value (share_params js scenarios a (js.stringify definition) (js.stringify context))
  unfolding copy_url shorten_json
  copy_url-returns definition context d c = ground (arith, d, c)

  render-enabled :
      (v : View js shape)
      → render js shape scenarios a ≡ value v
      → v.share_disabled ≡ false
      → enabled js scenarios a ≡ true
  unfolding render
  render-enabled v r s = ground (arith, r, s)

  render-texts :
      (v : View js shape)
      → render js shape scenarios a ≡ value v
      → (v.definition ≡ a.feature_definition) × (v.context ≡ a.evaluation_context)
  unfolding render
  render-texts v r = ground (arith, r)

  -- In a checked state, if the page renders with the button "Share" enabled, then pressing it does
  -- not throw: both editors hold JSON, and the address carries their short forms.
  pub render-copy_url :
      (v : View js shape)
      → IsChecked js scenarios a
      → render js shape scenarios a ≡ value v
      → v.share_disabled ≡ false
      → (definition : js.Data) × (context : js.Data) × (js.parse v.definition ≡ value definition)
        × (js.parse v.context ≡ value context)
        × (copy_url js scenarios a
            ≡ value (share_params js scenarios a (js.stringify definition) (js.stringify context)))
  render-copy_url v h r s =
      let (left, right) = enabled_parses h (render-enabled v r s) in
      let (definition, d) = parsed js scenarios a (js.parse a.feature_definition) left in
      let (context, c) = parsed js scenarios a (js.parse a.evaluation_context) right in
      let (shown, given) = render-texts v r in
      (definition, context, rw shown d, rw given c, copy_url-returns definition context d c)

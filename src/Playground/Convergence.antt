-- ===== src/Playground/Convergence.antt =====
-- The effects of App.tsx come to rest: they set state that they depend on, but not for ever.
use flagd.Prelude.{ℕ, zero, suc, ◌≡◌, refl, sym, ap, ◌∙◌, eq_iff, arith}
use flagd.Prelude.Dict.{Dict}
use flagd.Playground.{
  Platform, Scenario, App, refresh, recheck_definition, recheck_context, effects, settle,
  reset_inputs,
}
use flagd.Playground.Checked.{recheck_definition-kept, recheck_context-kept}

module _ (js : Platform) (scenarios : Dict Scenario) (now : ℕ) where
  -- No dependency of an effect changed between two renders.
  record IsQuiet (seen shown : App js scenarios) : Type 0 where
    template : seen.selected_template ≡ shown.selected_template
    definition : seen.feature_definition ≡ shown.feature_definition
    context : seen.evaluation_context ≡ shown.evaluation_context

  effects-quiet :
      (seen shown : App js scenarios)
      → IsQuiet seen shown
      → effects js scenarios now seen shown ≡ shown
  unfolding effects refresh recheck_definition recheck_context
  effects-quiet seen shown q = ground (
    arith,
    eq_iff seen.selected_template shown.selected_template,
    eq_iff seen.feature_definition shown.feature_definition,
    eq_iff seen.evaluation_context shown.evaluation_context,
  )

  settle-quiet :
      (rounds : ℕ) (seen shown : App js scenarios)
      → IsQuiet seen shown
      → settle js scenarios now rounds seen shown ≡ shown
  unfolding settle
  settle-quiet zero seen shown q = refl
  settle-quiet (suc rounds) seen shown q =
      ap (settle js scenarios now rounds shown) (effects-quiet seen shown q)
      ∙ settle-quiet rounds shown shown
          (record { template = refl; definition = refl; context = refl })

  refresh-template :
      (seen shown : App js scenarios)
      → (refresh js scenarios now seen shown).selected_template ≡ shown.selected_template
  unfolding refresh reset_inputs
  refresh-template seen shown = ground arith

  refresh-unmoved :
      (seen shown : App js scenarios)
      → shown.selected_template ≡ seen.selected_template
      → refresh js scenarios now seen shown ≡ shown
  unfolding refresh
  refresh-unmoved seen shown same =
      ground (arith, eq_iff seen.selected_template shown.selected_template)

  -- The effects write no text but those that `refresh` writes.
  effects-refresh :
      (seen shown : App js scenarios)
      → IsQuiet (effects js scenarios now seen shown) (refresh js scenarios now seen shown)
  unfolding effects
  effects-refresh seen shown =
      let fresh = refresh js scenarios now seen shown in
      let d = recheck_definition-kept js scenarios seen shown fresh in
      let c =
        recheck_context-kept js scenarios seen shown
          (recheck_definition js scenarios seen shown fresh) in
      record { template = c.4 ∙ d.3; definition = c.0 ∙ d.0; context = c.1 ∙ d.1 }

  module _ (seen shown : App js scenarios) where
    abbrev once : App js scenarios
    once = effects js scenarios now seen shown

    abbrev twice : App js scenarios
    twice = effects js scenarios now shown once

    twice-IsQuiet : IsQuiet once twice
    twice-IsQuiet =
        let q = effects-refresh shown once in
        let same = (effects-refresh seen shown).template ∙ refresh-template seen shown in
        let unmoved = refresh-unmoved shown once same in
        record {
          template = sym (q.template ∙ ap (λ (a : App js scenarios). a.selected_template) unmoved);
          definition =
              sym (q.definition ∙ ap (λ (a : App js scenarios). a.feature_definition) unmoved);
          context = sym (q.context ∙ ap (λ (a : App js scenarios). a.evaluation_context) unmoved);
        }

    -- The effects come to rest after two rounds, whatever changed: any further number of rounds
    -- leaves the state that two rounds gave.
    pub settle-settle :
        (rounds : ℕ)
        → settle js scenarios now (suc (suc rounds)) seen shown
          ≡ settle js scenarios now 2 seen shown
    unfolding settle
    settle-settle rounds = settle-quiet rounds once twice twice-IsQuiet

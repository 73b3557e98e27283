-- ===== src/Playground/Effects.antt =====
-- After every event the two validity flags and the configured core belong to the texts that the
-- editors show.
use flagd.Prelude.{
  ℕ, String, ◌==◌, ◌≡◌, refl, sym, ◌∙◌, ap, eq_iff, arith, if◌then◌else◌, Bool-cases, inl, inr,
  is_some,
}
use flagd.Prelude.Dict.{Dict}
use flagd.Playground.{
  returns, Platform, Scenario, App, check_definition, check_context, effects, settle, refresh,
  recheck_definition, recheck_context,
}
use flagd.Playground.Handlers.{
  Event, select, edit_definition, edit_flag_key, edit_return_type, edit_context, press_evaluate,
  press_reset, copied, expired, evaluate, handle, dispatch,
}
use flagd.Playground.Checked.{
  HasValidTemplates, accept, configured, Verdict, DefinitionIsChecked, IsChecked,
  check_definition-Verdict, recheck_definition-kept, recheck_context-kept, reset_inputs-context,
  reset_inputs-definition, refresh-context, refresh-definition, refresh-kept, refresh-still,
}

module _ (js : Platform) (scenarios : Dict Scenario) (ok : HasValidTemplates js scenarios)
    (now : ℕ) where
  module _ (seen a : App js scenarios) where
    abbrev r : App js scenarios
    r = refresh js scenarios now seen a

    abbrev d : App js scenarios
    d = recheck_definition js scenarios seen a r

    abbrev b : App js scenarios
    b = effects js scenarios now seen a

    b-kept :
        (b.feature_definition ≡ r.feature_definition)
        × (b.evaluation_context ≡ r.evaluation_context)
        × (b.selected_template ≡ a.selected_template)
        × (b.valid_feature_definition ≡ d.valid_feature_definition)
        × (b.core ≡ d.core)
    unfolding effects
    b-kept =
        let c = recheck_context-kept js scenarios seen a d in
        let k = recheck_definition-kept js scenarios seen a r in
        (c.0 ∙ k.0, c.1 ∙ k.1, c.4 ∙ k.3 ∙ refresh-kept js scenarios ok now seen a, c.2, c.3)

    b-context : b.valid_evaluation_context ≡ (
        if seen.evaluation_context == a.evaluation_context
        then r.valid_evaluation_context
        else returns (js.parse a.evaluation_context))
    unfolding effects recheck_context check_context
    b-context = ground (arith, recheck_definition-kept js scenarios seen a r)

    effects-context :
        (seen.evaluation_context ≡ a.evaluation_context
          → a.valid_evaluation_context ≡ returns (js.parse a.evaluation_context))
        → a.evaluation_context ≡ b.evaluation_context
        → b.valid_evaluation_context ≡ returns (js.parse b.evaluation_context)
    effects-context h same =
        let here : a.evaluation_context ≡ r.evaluation_context = same ∙ b-kept.1 in
        elim (Bool-cases (seen.evaluation_context == a.evaluation_context)) [
          | inl e ↦
              let old =
                refresh-context js scenarios ok now seen a here
                  (h ((eq_iff seen.evaluation_context a.evaluation_context).0 e)) in
              b-context ∙ rw e old ∙ ap (λ t. returns (js.parse t)) (sym b-kept.1)
          | inr e ↦ b-context ∙ rw e (ap (λ t. returns (js.parse t)) same)
        ]

    Verdict-moves :
        {t : String} (c : js.Core) (x y : App js scenarios)
        → y.feature_definition ≡ t
        → y.valid_feature_definition ≡ d.valid_feature_definition
        → y.core ≡ d.core
        → d ≡ x
        → Verdict js scenarios c (accept js c t) x
        → Verdict js scenarios c (accept js c y.feature_definition) y
    Verdict-moves c x y text flag core same h =
        let fields = ap (λ (z : App js scenarios). z.valid_feature_definition) same in
        (
          flag ∙ fields ∙ h.0 ∙ ap (λ u. is_some (accept js c u)) (sym text),
          core
              ∙ ap (λ (z : App js scenarios). z.core) same
              ∙ h.1
              ∙ ap (λ u. configured js scenarios c (accept js c u)) (sym text),
        )

    effects-definition :
        (seen.feature_definition ≡ a.feature_definition → DefinitionIsChecked js scenarios a)
        → a.feature_definition ≡ b.feature_definition
        → DefinitionIsChecked js scenarios b
    unfolding recheck_definition
    effects-definition h same =
        let here : a.feature_definition ≡ r.feature_definition = same ∙ b-kept.0 in
        elim (Bool-cases (seen.feature_definition == a.feature_definition)) [
          | inl e ↦
              let (c, old) =
                refresh-definition js scenarios ok now seen a here
                  (h ((eq_iff seen.feature_definition a.feature_definition).0 e)) in
              let unchanged : d ≡ r = rw e refl in
              (c, Verdict-moves c r b b-kept.0 b-kept.3 b-kept.4 unchanged old)
          | inr e ↦
              let new = check_definition-Verdict js scenarios a.feature_definition r in
              let checked : d ≡ check_definition js scenarios a.feature_definition r = rw e refl in
              (
                r.core,
                Verdict-moves r.core (check_definition js scenarios a.feature_definition r) b
                    (sym same) b-kept.3 b-kept.4 checked new.0,
              )
        ]

  -- The second commit changes no text, so it leaves nothing unchecked.
  pub settle-IsChecked :
      (seen a : App js scenarios)
      → (seen.feature_definition ≡ a.feature_definition → DefinitionIsChecked js scenarios a)
      → (seen.evaluation_context ≡ a.evaluation_context
          → a.valid_evaluation_context ≡ returns (js.parse a.evaluation_context))
      → IsChecked js scenarios (settle js scenarios now 2 seen a)
  unfolding settle
  settle-IsChecked seen a hd hc =
      let next = effects js scenarios now seen a in
      let same = sym (b-kept seen a).2 in
      let still = b-kept a next in
      let quiet = refresh-still js scenarios ok now a next same in
      record {
        definition =
            effects-definition a next (effects-definition seen a hd)
              (sym (still.0 ∙ ap (λ (x : App js scenarios). x.feature_definition) quiet));
        context =
            effects-context a next (effects-context seen a hc)
              (sym (still.1 ∙ ap (λ (x : App js scenarios). x.evaluation_context) quiet));
      }

  handle-definition :
      (a : App js scenarios) (e : Event js scenarios)
      → DefinitionIsChecked js scenarios a
      → a.feature_definition ≡ (handle js scenarios now a e).feature_definition
      → DefinitionIsChecked js scenarios (handle js scenarios now a e)
  unfolding handle evaluate
  handle-definition a press_reset h same = reset_inputs-definition js scenarios ok now a same h
  handle-definition a (select name) h same = h
  handle-definition a (edit_definition s) (c, v) same =
      (c, (ground (arith, v.0, same), ground (arith, v.1, same)))
  handle-definition a (edit_flag_key s) h same = h
  handle-definition a (edit_return_type s) h same = h
  handle-definition a (edit_context s) (c, v) same = (c, (ground (arith, v.0), ground (arith, v.1)))
  handle-definition a press_evaluate (c, v) same = (c, (ground (arith, v.0), ground (arith, v.1)))
  handle-definition a copied h same = h
  handle-definition a expired h same = h

  handle-context :
      (a : App js scenarios) (e : Event js scenarios)
      → a.valid_evaluation_context ≡ returns (js.parse a.evaluation_context)
      → a.evaluation_context ≡ (handle js scenarios now a e).evaluation_context
      → (handle js scenarios now a e).valid_evaluation_context
        ≡ returns (js.parse (handle js scenarios now a e).evaluation_context)
  unfolding handle evaluate
  handle-context a press_reset h same = reset_inputs-context js scenarios ok now a same h
  handle-context a (edit_context s) h same = ground (arith, h, same)
  handle-context a press_evaluate h same = ground (arith, h)
  handle-context a (edit_definition s) h same = ground (arith, h)
  handle-context a other h same = h

  -- After every event the flags and the core belong to the texts that are shown.
  pub dispatch-IsChecked :
      (a : App js scenarios) (e : Event js scenarios)
      → IsChecked js scenarios a
      → IsChecked js scenarios (dispatch js scenarios now a e)
  unfolding dispatch
  dispatch-IsChecked a e h =
      settle-IsChecked a (handle js scenarios now a e) (handle-definition a e h.definition)
        (handle-context a e h.context)

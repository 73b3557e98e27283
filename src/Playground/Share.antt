-- ===== src/Playground/Share.antt =====
-- "Share" makes an address, and loading the address shows the same inputs.
use flagd.Prelude.{
  ℕ, true, false, some, [], ◌∷◌, ◌∙◌, String, ◌≡◌, ◌≢◌, refl, subst, eq_iff, arith, Option-cases,
  inl, inr, if◌then◌else◌, ◌==◌,
}
use flagd.Prelude.Dict.{Dict, lookup}
use flagd.Playground.{
  value, Platform, get_string, is_text, Source, text, thunk, Scenario, App, format_json,
  shorten_json,
}
use flagd.Playground.Handlers.{
  load_url, load_flags, load_scenario, set_formatted_context, own_scenario, share_params, copy_url,
}

is_text-get_string :
    (now : ℕ) (source : Source) (t : String) → is_text source t ≡ true → get_string now source ≡ t
unfolding get_string
is_text-get_string now (text s) t h = (eq_iff s t).0 h
is_text-get_string now (thunk f) t h = cc

module _ (js : Platform) where
  stringify-nonempty : (d : js.Data) → js.IsJson d → js.stringify d ≢ ""
  stringify-nonempty d j e =
      js.parse_empty d (subst (λ t. js.parse t ≡ value d) e (js.parse-stringify d j))

  format_json-stringify :
      (d : js.Data) → js.IsJson d → format_json js (js.stringify d) ≡ value (js.pretty d)
  unfolding format_json
  format_json-stringify d j = rw (js.parse-stringify d j, format_json) refl

  shorten_json-value :
      (s : String) (d : js.Data) → js.parse s ≡ value d → shorten_json js s ≡ value (js.stringify d)
  unfolding shorten_json
  shorten_json-value s d h = rw (h, shorten_json) refl

module _ (js : Platform) (scenarios : Dict Scenario) (now : ℕ) (a : App js scenarios) where
  own_lem :
      own_scenario js scenarios a ≡ true
      → (template : Scenario) × (lookup a.selected_template scenarios ≡ some template)
        × (get_string now template.flag_definition ≡ a.feature_definition)
  unfolding own_scenario
  own_lem own = elim (Option-cases (lookup a.selected_template scenarios)) [
    | inl e ↦ absurd (ground (arith, own, e))
    | inr (template, e) ↦ (
      template,
      e,
      is_text-get_string now template.flag_definition a.feature_definition (ground (arith, own, e)),
    )
  ]

  -- The search parameters for an edited definition.
  abbrev edited_params : String → String → Dict String
  edited_params flags context =
      ("flags", flags)
      ∷ ("flag-key", a.flag_key)
      ∷ ("return-type", a.return_type)
      ∷ ("eval-context", context)
      ∷ []

  share-edited :
      (flags context : String)
      → own_scenario js scenarios a ≡ false
      → share_params js scenarios a flags context ≡ edited_params flags context
  unfolding share_params
  share-edited flags context own = rw own refl

  share-own :
      (flags context : String)
      → own_scenario js scenarios a ≡ true
      → share_params js scenarios a flags context ≡ ("scenario-name", a.selected_template) ∷ []
  unfolding share_params
  share-own flags context own = rw own refl

  set_formatted_context-stringify :
      (context : js.Data) (b : App js scenarios)
      → js.IsJson context
      → set_formatted_context js scenarios (js.stringify context) b
        ≡ record b { evaluation_context = js.pretty context }
  unfolding set_formatted_context
  set_formatted_context-stringify context b j = ground (arith, format_json-stringify js context j)

  -- A parameter that is empty counts as one that is not there.
  abbrev pub or_kept : String → String → String
  or_kept given kept = if given == "" then kept else given

  load_flags-edited :
      (definition context : js.Data) (b : App js scenarios)
      → js.IsJson definition
      → js.IsJson context
      → load_flags js scenarios
          (edited_params (js.stringify definition) (js.stringify context))
          (js.stringify definition)
          b
        ≡ record b {
          feature_definition = js.pretty definition;
          flag_key = or_kept a.flag_key b.flag_key;
          return_type = or_kept a.return_type b.return_type;
          evaluation_context = js.pretty context;
        }
  unfolding load_flags lookup
  load_flags-edited definition context b jd jc = ground (
    arith,
    format_json-stringify js definition jd,
    eq_iff (js.stringify context) "",
    stringify-nonempty js context jc,
    set_formatted_context-stringify context
        (record b {
          feature_definition = js.pretty definition;
          flag_key = or_kept a.flag_key b.flag_key;
          return_type = or_kept a.return_type b.return_type;
        })
        jc,
  )

  load_url-edited :
      (definition context : js.Data) (b : App js scenarios)
      → js.IsJson definition
      → load_url js scenarios now (edited_params (js.stringify definition) (js.stringify context)) b
        ≡ load_flags js scenarios
            (edited_params (js.stringify definition) (js.stringify context))
            (js.stringify definition)
            b
  unfolding load_url lookup
  load_url-edited definition context b jd =
      ground (arith, eq_iff (js.stringify definition) "", stringify-nonempty js definition jd)

  -- An edited definition: the address carries all four inputs, and the effect that loads it sets them
  -- but for a key or a return type that is empty, with the two JSON texts in indented form.
  pub load_url-copy_url :
      (definition context : js.Data)
      → js.IsJson definition
      → js.IsJson context
      → js.parse a.feature_definition ≡ value definition
      → js.parse a.evaluation_context ≡ value context
      → own_scenario js scenarios a ≡ false
      → (params : Dict String) × (copy_url js scenarios a ≡ value params)
        × ((b : App js scenarios)
            → load_url js scenarios now params b ≡ record b {
              feature_definition = js.pretty definition;
              flag_key = or_kept a.flag_key b.flag_key;
              return_type = or_kept a.return_type b.return_type;
              evaluation_context = js.pretty context;
            })
  unfolding copy_url
  load_url-copy_url definition context jd jc pd pc own = (
    edited_params (js.stringify definition) (js.stringify context),
    ground (
      arith,
      shorten_json-value js a.feature_definition definition pd,
      shorten_json-value js a.evaluation_context context pc,
      share-edited (js.stringify definition) (js.stringify context) own,
    ),
    (λ b. load_url-edited definition context b jd ∙ load_flags-edited definition context b jd jc),
  )

  -- An unchanged template: the address names the scenario only, and the page that it opens selects
  -- the scenario, whose definition is the one that was shared. The first commit after that resets
  -- the other inputs to the scenario's.
  load_url-copy_url_own :
      (definition context : js.Data)
      → js.parse a.feature_definition ≡ value definition
      → js.parse a.evaluation_context ≡ value context
      → own_scenario js scenarios a ≡ true
      → a.selected_template ≢ ""
      → (b : App js scenarios)
      → (params : Dict String) × (copy_url js scenarios a ≡ value params)
        × (load_url js scenarios now params b ≡ record b {
          selected_template = a.selected_template;
          feature_definition = a.feature_definition;
        })
  unfolding copy_url load_url load_scenario own_scenario lookup
  load_url-copy_url_own definition context pd pc own named b = (
    ("scenario-name", a.selected_template) ∷ [],
    ground (
      arith,
      shorten_json-value js a.feature_definition definition pd,
      shorten_json-value js a.evaluation_context context pc,
      share-own (js.stringify definition) (js.stringify context) own,
    ),
    ground (arith, own, own_lem own, eq_iff a.selected_template ""),
  )

-- Sharing an unchanged template loses the edits of the other inputs: two states that differ in the
-- flag key, the return type and the evaluation context are shared by one address.
copy_url_forgets :
    (js : Platform) (scenarios : Dict Scenario) (a : App js scenarios) (key kind edited : String)
    (definition context other : js.Data)
    → js.parse a.feature_definition ≡ value definition
    → js.parse a.evaluation_context ≡ value context
    → js.parse edited ≡ value other
    → own_scenario js scenarios a ≡ true
    → copy_url js scenarios
        (record a { flag_key = key; return_type = kind; evaluation_context = edited })
      ≡ copy_url js scenarios a
unfolding copy_url share_params own_scenario shorten_json
copy_url_forgets js scenarios a key kind edited definition context other pd pc po own =
    ground (arith, pd, pc, po, own)

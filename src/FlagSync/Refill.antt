-- ===== src/FlagSync/Refill.antt =====
-- The texts after `reFill`, source by source.
use mathlib.Core.List.{foldl}
use flagd.Prelude.{
  Bool, true, Option, none, some, List, [], ◌∷◌, String, ◌==◌, ◌≡◌, ◌≢◌, refl, sym, ap, subst, ◌∙◌,
  inl, inr, eq_iff, arith, if◌then◌else◌, Bool-cases, Option-cases,
}
use flagd.Prelude.Dict.{
  Dict, lookup, insert, lookup-insert, IsFresh, HasDistinctKeys, insert-HasDistinctKeys,
  lookup_of_IsFresh,
}
use flagd.Model.{Flag, Metadata}
use flagd.Store.{MemDb, Store, get_all, get_all_flags, get_metadata_for_source}
use flagd.Store.Table.{get_all_flags-HasDistinctKeys}
use flagd.FlagSync.{
  Multiplexer, contains, empty_config, empty_configs, collect_flag, collect, fill_selectors,
  refill_with, refill, flags_of,
}
use flagd.FlagSync.Collect.{only, gathered, lookup-collect}

lookup-empty_configs :
    (k : String) (sources : List String) (texts : Dict String)
    → lookup k (foldl (λ t source. insert source empty_config t) texts sources)
      ≡ (if contains sources k then some empty_config else lookup k texts)
unfolding contains
lookup-empty_configs k [] texts = refl
lookup-empty_configs k (s ∷ rest) texts = ground (
  arith,
  lookup-empty_configs k rest (insert s empty_config texts),
  lookup-insert s k empty_config texts,
)

collect-HasDistinctKeys :
    (all : Dict Flag) (collector : Dict (Dict Flag))
    → HasDistinctKeys collector
    → HasDistinctKeys (foldl collect_flag collector all)
unfolding collect_flag
collect-HasDistinctKeys [] collector h = h
collect-HasDistinctKeys ((key, flag) ∷ rest) collector h =
    collect-HasDistinctKeys rest (collect_flag collector (key, flag)) (
      insert-HasDistinctKeys flag.source (insert key flag (flags_of (lookup flag.source collector)))
        collector h)

module _ (marshal : Dict Flag → Metadata → Option String) (m : MemDb) (s : Store m)
    (k : String) where
  -- What the second loop leaves under a source.
  abbrev filled : Option (Dict Flag) → Option String → Option String
  filled none old = old
  filled (some flags) old = marshal flags (get_metadata_for_source m s k)

  fill_selectors_next :
      (source : String) (flags : Dict Flag) (rest : Dict (Dict Flag)) (texts : Dict String)
      (text : String)
      → marshal flags (get_metadata_for_source m s source) ≡ some text
      → fill_selectors marshal m s ((source, flags) ∷ rest) texts
        ≡ fill_selectors marshal m s rest (insert source text texts)
  unfolding fill_selectors
  fill_selectors_next source flags rest texts text n = ground (arith, n)

  lookup-fill_selectors :
      (collector : Dict (Dict Flag)) (texts : Dict String)
      → HasDistinctKeys collector
      → (fill_selectors marshal m s collector texts).1 ≡ true
      → lookup k (fill_selectors marshal m s collector texts).0
        ≡ filled (lookup k collector) (lookup k texts)
  unfolding lookup fill_selectors
  lookup-fill_selectors [] texts distinct done = refl
  lookup-fill_selectors ((source, flags) ∷ rest) texts (fresh, distinct) done =
      elim (Option-cases (marshal flags (get_metadata_for_source m s source))) [
        | inl n ↦ absurd (ground (arith, n, done))
        | inr (text, n) ↦
            let step = fill_selectors_next source flags rest texts text n in
            let ih =
              lookup-fill_selectors rest (insert source text texts) distinct
                (sym (ap (λ (r : Dict String × Bool). r.1) step) ∙ done) in
            let put = lookup-insert source k text texts in
            ap (λ (r : Dict String × Bool). lookup k r.0) step
            ∙ ih
            ∙ elim (Bool-cases (source == k)) [
              | inl e ↦
                  let same = (eq_iff source k).0 e in
                  let absent = lookup_of_IsFresh k rest (subst (λ j. IsFresh j rest) same fresh) in
                  rw (absent, e)
                    (put
                      ∙ rw e (sym n ∙ ap (λ j. marshal flags (get_metadata_for_source m s j)) same))
              | inr e ↦ rw e (ap (filled (lookup k rest)) (put ∙ rw e refl))
            ]
      ]

  refill-fill_selectors :
      (r : Multiplexer) (text : String)
      → marshal (get_all m s).0 (get_all m s).1 ≡ some text
      → refill marshal m s r ≡ (
        record r {
          all_flags = text;
          selector_flags =
              (fill_selectors marshal m s (collect (get_all m s).0) (empty_configs r.sources)).0;
        },
        (fill_selectors marshal m s (collect (get_all m s).0) (empty_configs r.sources)).1,
      )
  unfolding refill
  refill-fill_selectors r text n = ap (refill_with marshal m s r) n

  refill_failed :
      (r : Multiplexer)
      → marshal (get_all m s).0 (get_all m s).1 ≡ none
      → (refill marshal m s r).1 ≢ true
  unfolding refill
  refill_failed r n done = cc (ap (λ (o : Option String). (refill_with marshal m s r o).1) n, done)

  lookup-collected : lookup k (collect (get_all m s).0) ≡ gathered none (only k (get_all m s).0)
  unfolding get_all
  lookup-collected = lookup-collect k (get_all_flags m s) (get_all_flags-HasDistinctKeys m s)

  collected-HasDistinctKeys : HasDistinctKeys (collect (get_all m s).0)
  unfolding collect
  collected-HasDistinctKeys = collect-HasDistinctKeys (get_all m s).0 [] tt

  lookup-empty :
      (sources : List String)
      → lookup k (empty_configs sources) ≡ (if contains sources k then some empty_config else none)
  unfolding empty_configs lookup
  lookup-empty sources = lookup-empty_configs k sources []

  -- The text of a source: its flags and metadata, or the empty configuration of a known source
  -- without flags.
  abbrev pub source_text : List String → Option String
  source_text sources =
      filled (gathered none (only k (get_all m s).0))
        (if contains sources k then some empty_config else none)

  -- If `reFill` succeeds, the text for all sources is made of all flags and the merged metadata, and
  -- each source has exactly the text of its own flags in the store with its own metadata, or the
  -- empty configuration if it is known and has no flags.
  pub refill-source_text :
      (r : Multiplexer)
      → (refill marshal m s r).1 ≡ true
      → (marshal (get_all m s).0 (get_all m s).1 ≡ some (refill marshal m s r).0.all_flags)
        × (lookup k (refill marshal m s r).0.selector_flags ≡ source_text r.sources)
  refill-source_text r done = elim (Option-cases (marshal (get_all m s).0 (get_all m s).1)) [
    | inl n ↦ absurd (refill_failed r n done)
    | inr (text, n) ↦
        let made = refill-fill_selectors r text n in
        let done' = sym (ap (λ (q : Multiplexer × Bool). q.1) made) ∙ done in
        (
          n ∙ ap some (sym (ap (λ (q : Multiplexer × Bool). q.0.all_flags) made)),
          ap (λ (q : Multiplexer × Bool). lookup k q.0.selector_flags) made
              ∙ lookup-fill_selectors (collect (get_all m s).0) (empty_configs r.sources)
                  collected-HasDistinctKeys done'
              ∙ ap (λ o. filled o (lookup k (empty_configs r.sources))) lookup-collected
              ∙ ap (filled (gathered none (only k (get_all m s).0))) (lookup-empty r.sources),
        )
  ]

  -- Every collected map of flags was marshalled.
  fill_selectors-marshal :
      (collector : Dict (Dict Flag)) (texts : Dict String) (flags : Dict Flag)
      → (fill_selectors marshal m s collector texts).1 ≡ true
      → lookup k collector ≡ some flags
      → (text : String) × (marshal flags (get_metadata_for_source m s k) ≡ some text)
  unfolding lookup fill_selectors
  fill_selectors-marshal [] texts flags done found = absurd (ground (arith, found))
  fill_selectors-marshal ((source, here) ∷ rest) texts flags done found =
      elim (Option-cases (marshal here (get_metadata_for_source m s source))) [
        | inl n ↦ absurd (ground (arith, n, done))
        | inr (text, n) ↦
            let step = fill_selectors_next source here rest texts text n in
            let done' = sym (ap (λ (r : Dict String × Bool). r.1) step) ∙ done in
            elim (Bool-cases (source == k)) [
              | inl e ↦
                  let same = (eq_iff source k).0 e in
                  let these : here ≡ flags = ground (arith, e, found) in
                  (text, rw (← these, ← same) n)
              | inr e ↦
                  fill_selectors-marshal rest (insert source text texts) flags done' (rw e at found)
            ]
      ]

  -- After a successful `reFill` a known source has a text.
  pub refill_known :
      (r : Multiplexer)
      → (refill marshal m s r).1 ≡ true
      → contains r.sources k ≡ true
      → (text : String) × (lookup k (refill marshal m s r).0.selector_flags ≡ some text)
        × (source_text r.sources ≡ some text)
  refill_known r done known = elim (Option-cases (lookup k (collect (get_all m s).0))) [
    | inl n ↦
        let empty : source_text r.sources ≡ some empty_config =
          ap (λ o. filled o (if contains r.sources k then some empty_config else none))
            (sym lookup-collected ∙ n)
          ∙ rw known refl in
        (empty_config, (refill-source_text r done).1 ∙ empty, empty)
    | inr (flags, n) ↦ elim (Option-cases (marshal (get_all m s).0 (get_all m s).1)) [
      | inl u ↦ absurd (refill_failed r u done)
      | inr (all_text, u) ↦
          let made = refill-fill_selectors r all_text u in
          let (text, t) =
            fill_selectors-marshal (collect (get_all m s).0) (empty_configs r.sources) flags
              (sym (ap (λ (q : Multiplexer × Bool). q.1) made) ∙ done) n in
          let given : source_text r.sources ≡ some text =
            ap (λ o. filled o (if contains r.sources k then some empty_config else none))
              (sym lookup-collected ∙ n)
            ∙ t in
          (text, (refill-source_text r done).1 ∙ given, given)
    ]
  ]

-- ===== src/Runtime/Tests.antt =====
-- Two sources whose texts name one flag each, with a subscriber of all flags and one of events.
use flagd.Prelude.{
  true, false, none, some, Option, List, [], ◌∷◌, map, String, ◌==◌, ◌≡◌, ◌⊎◌, inl, inr, refl, sym,
  subst, ◌∙◌, arith, eq_iff, if◌then◌else◌,
}
use flagd.Prelude.Tests.{In}
use flagd.Prelude.Dict.{Dict, HasDistinctKeys}
use flagd.Model.{Flag, no_flag, create}
use flagd.Store.{Store, get_all}
use flagd.Store.ListDb.{list_db}
use flagd.Evaluator.Config.{DataSync, Definition, Parser, unmarshalling}
use flagd.Evaluator.Reflected.{same_source, IsReflected, set_state-IsReflected}
use flagd.FlagSync.{Sent, Multiplexer, new_mux, register}
use flagd.FlagSync.Startup.{new_tracker}
use flagd.FlagSync.Register.{subscriptions}
use flagd.FlagSync.Publish.{fresh, next, registered}
use flagd.FlagSync.Texts.{text_for}
use flagd.FlagSync.Tests.{keys}
use flagd.Runtime.{Runtime, refused, emitted, update_and_emit, watch, is_ready}
use flagd.Runtime.Emitted.{update_and_emit-text_for}
use flagd.Runtime.Settles.{IsConsistent, AllReflected, watch_settles}

program : Unit {0}
unfolding update_and_emit watch is_ready new_mux register subscriptions list_db
program = tt

abbrev definition_of : String → Option Definition
definition_of text =
    if text == ""
    then none
    else some
        (record { flags = (text, record no_flag { state = "ENABLED" }) ∷ []; metadata = none })

abbrev flags_in : Option Definition → Dict Flag
flags_in none = []
flags_in (some d) = d.flags

abbrev one_flag : Parser
one_flag = record {
  unmarshal_evaluators = λ text. some [];
  unmarshal_definition = definition_of;
  replace_references = λ name. none;
  flags-HasDistinctKeys = λ text d e. subst (λ o. HasDistinctKeys (flags_in o)) e (ground arith);
}

abbrev holds : String → String → DataSync
holds source text = record { flag_data = text; source = source; selector = "" }

abbrev sources : List String
sources = "file" ∷ "http" ∷ []

abbrev empty : Store list_db
unfolding program
empty = record {
  db = [];
  flag_sources = "file" ∷ "http" ∷ [];
  source_details = [];
  metadata_per_source = [];
}

abbrev subscribed : Multiplexer
unfolding program
subscribed = (register (new_mux keys list_db empty sources).0 1 "" 10).0

abbrev started : Runtime one_flag keys list_db
unfolding program
started = record {
  store = empty;
  subs = (1, 5) ∷ [];
  startup_tracker = new_tracker sources;
  mux = subscribed;
}

-- A flag that goes makes both sources send again, and then the channel drains.
runs :
    ((update_and_emit one_flag keys list_db started (holds "file" "a")).2
      ≡ emitted
          ((5, ("a", record { kind = create; source = "file" }) ∷ []) ∷ [])
          (some (inr ((10, "a;") ∷ []))))
    × ((update_and_emit one_flag keys list_db started (holds "file" "")).2 ≡ refused unmarshalling)
    × (map
          (λ (f : String × Flag). f.0)
          (get_all list_db
            (update_and_emit one_flag keys list_db started (holds "file" "a")).0.store).0
        ≡ "a" ∷ [])
    × (is_ready (true ∷ false ∷ []) ≡ false)
unfolding program
runs = (refl, refl, refl, refl)

update_and_emit-text_for_example :
    (text : String) × (text_for keys list_db
        (update_and_emit one_flag keys list_db started (holds "file" "a")).0.store
        subscribed.sources
        ""
      ≡ some text)
    × In {A = Sent} (10, text) ((10, "a;") ∷ [])
unfolding program
update_and_emit-text_for_example =
    update_and_emit-text_for one_flag keys list_db started (holds "file" "a") empty sources
      ((5, ("a", record { kind = create; source = "file" }) ∷ []) ∷ []) ((10, "a;") ∷ []) "" 1 10
      (next fresh (registered 1 "" 10)) refl (inl refl)

-- The file gives `a` and the other source `c`; then the file gives `b` instead.
abbrev filled : Runtime one_flag keys list_db
unfolding program
filled =
    (update_and_emit one_flag keys list_db
      (update_and_emit one_flag keys list_db started (holds "file" "a")).0 (holds "http" "c")).0

abbrev now_held : List DataSync
now_held = holds "file" "b" ∷ holds "http" "c" ∷ []

asks : (update_and_emit one_flag keys list_db filled (holds "file" "b")).1 ≡ true
unfolding program
asks = refl

now_held-IsConsistent : IsConsistent one_flag keys list_db now_held
now_held-IsConsistent a b (inl i) (inl j) same = sym i ∙ j
now_held-IsConsistent a b (inl i) (inr (inl j)) same =
    absurd (ground (arith, rw (← i, ← j) at same, eq_iff "file" "http"))
now_held-IsConsistent a b (inr (inl i)) (inl j) same =
    absurd (ground (arith, rw (← i, ← j) at same, eq_iff "http" "file"))
now_held-IsConsistent a b (inr (inl i)) (inr (inl j)) same = sym i ∙ j
now_held-IsConsistent a b (inr (inr i)) j same = absurd i
now_held-IsConsistent a b i (inr (inr j)) same = absurd j

others-IsReflected :
    (c : DataSync)
    → In c now_held
    → (same_source (holds "file" "b") c ≡ true) ⊎ IsReflected one_flag list_db filled.store c
unfolding program
others-IsReflected c (inl i) = inl (rw (← i) refl)
others-IsReflected c (inr (inl i)) = inr (
    subst (λ d. IsReflected one_flag list_db filled.store d) i
      (set_state-IsReflected one_flag list_db
        (update_and_emit one_flag keys list_db started (holds "file" "a")).0.store
        (holds "http" "c")))
others-IsReflected c (inr (inr i)) = absurd i

watch_settles_example :
    (r' : Runtime one_flag keys list_db) × (watch one_flag keys list_db 3 filled now_held
        (holds "file" "b" ∷ [])
      ≡ some r')
    × AllReflected one_flag keys list_db now_held r'.store
watch_settles_example =
    watch_settles one_flag keys list_db filled (holds "file" "b") now_held now_held-IsConsistent
      (inl refl) others-IsReflected

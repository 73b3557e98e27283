-- ===== src/Store/Sources.antt =====
-- `getMetadata`: the metadata of all sources, without the keys that several sources give.
use mathlib.Core.List.{foldl}
use flagd.Prelude.{
  Option, none, some, List, [], ◌∷◌, String, ◌≡◌, refl, ◌∙◌, eq_iff, arith, ap, ◌==◌, if◌then◌else◌,
}
use flagd.Prelude.Tests.{All}
use flagd.Prelude.Dict.{
  Dict, lookup, lookup-insert, HasDistinctKeys, insert-HasDistinctKeys, lookup_of_IsFresh,
}
use flagd.Model.{Value, GoMap, entries}
use flagd.Store.{merge_metadata, collect_entry, collect_source, drop_marked}

-- The values that the sources give to a key, source by source.
unfoldable pub holders : String → Dict (GoMap Value) → List Value
unfolding lookup
holders k [] = []
holders k ((_, per_source) ∷ rest) = elim (lookup k (entries per_source)) [
  | none ↦ holders k rest
  | some v ↦ v ∷ holders k rest
]

-- The value, if there is exactly one.
abbrev pub sole : List Value → Option Value
sole [] = none
sole (v ∷ []) = some v
sole (v ∷ w ∷ vs) = none

-- What the collected map says of a key after some more values.
abbrev tally : Option (Option Value) → List Value → Option (Option Value)
tally seen [] = seen
tally none (v ∷ vs) = tally (some (some v)) vs
tally (some w) (v ∷ vs) = tally (some none) vs

abbrev flat : Option (Option Value) → Option Value
flat none = none
flat (some v) = v

one : Option Value → List Value
one none = []
one (some v) = v ∷ []

lookup-collect_entry :
    (k j : String) (v : Value) (acc : Dict (Option Value))
    → lookup k (collect_entry acc (j, v))
      ≡ (if j == k then tally (lookup k acc) (v ∷ []) else lookup k acc)
unfolding collect_entry
lookup-collect_entry k j v acc =
    ground (arith, lookup-insert j k none acc, lookup-insert j k (some v) acc, eq_iff j k)

collect_entries-tally :
    (k : String) (m : Dict Value) (acc : Dict (Option Value))
    → HasDistinctKeys m
    → lookup k (foldl collect_entry acc m) ≡ tally (lookup k acc) (one (lookup k m))
unfolding lookup one
collect_entries-tally k [] acc d = refl
collect_entries-tally k ((j, v) ∷ m) acc d = ground (
  arith,
  collect_entries-tally k m (collect_entry acc (j, v)) d.1,
  lookup-collect_entry k j v acc,
  lookup_of_IsFresh k m,
  eq_iff j k,
)

collect-tally :
    (k : String) (sources : Dict (GoMap Value)) (acc : Dict (Option Value))
    → All (λ e. HasDistinctKeys (entries e.1)) sources
    → lookup k (foldl collect_source acc sources) ≡ tally (lookup k acc) (holders k sources)
unfolding collect_source holders one
collect-tally k [] acc d = refl
collect-tally k ((source, per_source) ∷ rest) acc d = ground (
  arith,
  collect-tally k rest (collect_source acc (source, per_source)) d.1,
  collect_entries-tally k (entries per_source) acc d.0,
)

collect_entry-HasDistinctKeys :
    (acc : Dict (Option Value)) (e : String × Value)
    → HasDistinctKeys acc
    → HasDistinctKeys (collect_entry acc e)
unfolding collect_entry
collect_entry-HasDistinctKeys acc (j, v) h =
    ground (arith, insert-HasDistinctKeys j none acc, insert-HasDistinctKeys j (some v) acc)

fold-HasDistinctKeys :
    {E : Type 0} (step : Dict (Option Value) → E → Dict (Option Value))
    → ((acc : Dict (Option Value)) (e : E) → HasDistinctKeys acc → HasDistinctKeys (step acc e))
    → (es : List E) (acc : Dict (Option Value)) → HasDistinctKeys acc
    → HasDistinctKeys (foldl step acc es)
fold-HasDistinctKeys step keep [] acc h = h
fold-HasDistinctKeys step keep (e ∷ es) acc h =
    fold-HasDistinctKeys step keep es (step acc e) (keep acc e h)

lookup-drop_marked :
    (k : String) (acc : Dict (Option Value))
    → HasDistinctKeys acc
    → lookup k (drop_marked acc) ≡ flat (lookup k acc)
unfolding lookup drop_marked
lookup-drop_marked k [] h = refl
lookup-drop_marked k ((j, none) ∷ acc) h =
    ground (arith, lookup-drop_marked k acc h.1, lookup_of_IsFresh k acc, eq_iff j k)
lookup-drop_marked k ((j, some v) ∷ acc) h =
    ground (arith, lookup-drop_marked k acc h.1, eq_iff j k)

flat-tally_marked : (vs : List Value) → flat (tally (some none) vs) ≡ none
flat-tally_marked [] = refl
flat-tally_marked (v ∷ vs) = flat-tally_marked vs

flat-tally : (vs : List Value) → flat (tally none vs) ≡ sole vs
flat-tally [] = refl
flat-tally (v ∷ []) = refl
flat-tally (v ∷ w ∷ vs) = flat-tally_marked vs

-- The merged metadata has a key exactly if one source alone gives it, and then with its value.
pub lookup-merge_metadata :
    (k : String) (sources : Dict (GoMap Value))
    → All (λ e. HasDistinctKeys (entries e.1)) sources
    → lookup k (merge_metadata sources) ≡ sole (holders k sources)
unfolding merge_metadata
lookup-merge_metadata k sources d =
    let collected = foldl collect_source [] sources in
    lookup-drop_marked k collected (
      fold-HasDistinctKeys collect_source
        (λ acc e.
          fold-HasDistinctKeys collect_entry collect_entry-HasDistinctKeys (entries e.1) acc)
        sources [] tt)
    ∙ ap flat (collect-tally k sources [] d)
    ∙ flat-tally (holders k sources)

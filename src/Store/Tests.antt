-- ===== src/Store/Tests.antt =====
-- Two sources with one flag in common, and the theorems of the store at them.
use flagd.Prelude.{true, false, none, some, [], ◌∷◌, String, ◌≡◌, ◌≢◌, ◌↔◌, refl, eq_iff, arith}
use flagd.Prelude.Dict.{Dict, lookup}
use flagd.Model.{Flag, no_flag, Value, str, GoMap, delete, create}
use flagd.Store.{Store, has_priority, merge_metadata, update, get, get_all_flags, selector_for_flag}
use flagd.Store.ListDb.{list_db}
use flagd.Store.Priority.{StandsBehind, has_priority-eq-false_iff}
use flagd.Store.Sources.{holders, sole, lookup-merge_metadata}
use flagd.Store.Table.{lookup-get_all_flags}
use flagd.Store.Update.{settled, difference, update-settled, update-difference}
use flagd.Store.Resync.{update-resync_iff}

program : Unit {0}
unfolding has_priority merge_metadata update get get_all_flags selector_for_flag list_db lookup
program = tt

abbrev on : Flag
on = record no_flag { state = "ENABLED"; default_variant = "on" }

abbrev empty : Store list_db
unfolding list_db
empty = record {
  db = [];
  flag_sources = "low" ∷ "high" ∷ [];
  source_details = [];
  metadata_per_source = [];
}

abbrev low_flags : Dict Flag
low_flags = ("a", on) ∷ ("b", on) ∷ []

abbrev filled : Store list_db
filled =
    (update list_db "high" "" (update list_db "low" "" empty low_flags none).0 (("a", on) ∷ [])
      none).0

abbrev next : Dict Flag
next = ("a", record on { state = "DISABLED" }) ∷ ("c", on) ∷ []

-- `low` gives `a` anew, drops `b` and adds `c`; `a` stays with `high`.
low_again :
    (list_db.first (update list_db "low" "" filled next none).0.db "a"
      ≡ some (record on { key = "a"; source = "high" }))
    × (list_db.first (update list_db "low" "" filled next none).0.db "b" ≡ none)
    × (list_db.first (update list_db "low" "" filled next none).0.db "c"
        ≡ some (record on { key = "c"; source = "low" }))
    × ((update list_db "low" "" filled next none).1
        ≡ ("b", record { kind = delete; source = "low" })
          ∷ ("c", record { kind = create; source = "low" })
          ∷ [])
    × ((update list_db "low" "" filled next none).2 ≡ true)
unfolding program
low_again = (refl, refl, refl, refl, refl)

next_distinct : ◌≢◌ {A = String} "c" "a"
next_distinct = ground (arith, eq_iff "c" "a")

a_named : ◌≢◌ {A = String} "a" ""
a_named = ground (arith, eq_iff "a" "")

update-settled_example :
    list_db.first (update list_db "low" "" filled next none).0.db "a"
    ≡ settled ("low" ∷ "high" ∷ []) "low" "" "a" (list_db.first filled.db "a") (lookup "a" next)
unfolding program
update-settled_example =
    update-settled list_db "low" "" filled next none ((next_distinct, tt), (tt, tt)) "a" a_named

update-difference_example :
    lookup "a" (update list_db "low" "" filled next none).1
    ≡ difference "low"
        (list_db.first filled.db "a")
        (list_db.first (update list_db "low" "" filled next none).0.db "a")
unfolding program
update-difference_example =
    update-difference list_db "low" "" filled next none ((next_distinct, tt), (tt, tt)) "a"

-- An empty key is announced as created, and not stored.
unnamed :
    (lookup "" (update list_db "low" "" empty (("", on) ∷ []) none).1
      ≡ some (record { kind = create; source = "low" }))
    × (list_db.first (update list_db "low" "" empty (("", on) ∷ []) none).0.db "" ≡ none)
unfolding program
unnamed = (refl, refl)

update-resync_iff_example : ((update list_db "low" "" filled next none).2 ≡ true) ↔ (
    (k : String) × (list_db.first filled.db k ≢ none)
    × (list_db.first (update list_db "low" "" filled next none).0.db k ≡ none))
unfolding program
update-resync_iff_example =
    update-resync_iff list_db "low" "" filled next none ((next_distinct, tt), (tt, tt))

lookup-get_all_flags_example :
    lookup "a" (get_all_flags list_db filled) ≡ list_db.first filled.db "a"
unfolding program
lookup-get_all_flags_example = lookup-get_all_flags list_db filled "a"

has_priority-eq-false_iff_example :
    (has_priority ("low" ∷ "high" ∷ []) "high" "low" ≡ false)
    ↔ ((◌≢◌ {A = String} "high" "low") × StandsBehind "high" "low" ("low" ∷ "high" ∷ []))
has_priority-eq-false_iff_example = has_priority-eq-false_iff "high" "low" ("low" ∷ "high" ∷ [])

priority_tests :
    (has_priority ("low" ∷ "high" ∷ []) "high" "low" ≡ false)
    × (has_priority ("low" ∷ "high" ∷ []) "low" "high" ≡ true)
    × (has_priority ("low" ∷ "high" ∷ []) "other" "another" ≡ true)
unfolding program
priority_tests = (refl, refl, refl)

abbrev two_sources : Dict (GoMap Value)
two_sources =
    ("low", some (("team", str "x") ∷ ("owner", str "y") ∷ []))
    ∷ ("high", some (("team", str "z") ∷ []))
    ∷ ("nil", none)
    ∷ []

merged : merge_metadata two_sources ≡ ("owner", str "y") ∷ []
unfolding program
merged = refl

owner_is_not_team : ◌≢◌ {A = String} "owner" "team"
owner_is_not_team = ground (arith, eq_iff "owner" "team")

lookup-merge_metadata_example :
    lookup "team" (merge_metadata two_sources) ≡ sole (holders "team" two_sources)
lookup-merge_metadata_example =
    lookup-merge_metadata "team" two_sources
      (((owner_is_not_team, tt), (tt, tt)), ((tt, tt), (tt, tt)))

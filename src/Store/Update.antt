-- ===== src/Store/Update.antt =====
-- `Update` as a whole, key by key, against the map of flags that it should leave.
use flagd.Prelude.{
  not, eq_iff, Bool-cases, ◌&&◌, Option, none, some, List, String, ◌==◌, ◌≡◌, ◌≢◌, arith,
  if◌then◌else◌, Option-cases, inl, inr,
}
use flagd.Prelude.Dict.{Dict, lookup, has, HasDistinctKeys}
use flagd.Model.{Flag, Value, GoMap, Notification, delete, create, update as updated}
use flagd.Model.Equality.{deep_equal, deep_equal_refl}
use flagd.Store.{
  MemDb, Store, has_priority, update, start, prune, note, get_all_flags, set_source_metadata,
}
use flagd.Store.Table.{lookup-get_all_flags, get_all_flags-HasDistinctKeys}
use flagd.Store.Merge.{
  stamp, dropped, prune-txn, prune-notifications, merge-txn, merge-notifications, outcome, noted,
}

-- What should be stored under a key, from what is stored and what the update gives. A stored flag
-- that equals the given one stays as it is.
unfoldable pub settled :
    List String → String → String → String → Option Flag → Option Flag → Option Flag
settled flag_sources source selector key none none = none
settled flag_sources source selector key (some old) none =
    if old.source == source && old.selector == selector then none else some old
settled flag_sources source selector key none (some given) = some (stamp source selector key given)
settled flag_sources source selector key (some old) (some given) =
    let new = stamp source selector key given in
    if not (has_priority flag_sources old.source source)
    then some old
    else if deep_equal old new
    then some old
    else some new

-- The difference between the flag before and the flag after, as a notification.
unfoldable pub difference : String → Option Flag → Option Flag → Option Notification
difference source none none = none
difference source none (some new) = some (record { kind = create; source = source })
difference source (some old) none = some (record { kind = delete; source = source })
difference source (some old) (some new) =
    if deep_equal old new then none else some (record { kind = updated; source = source })

module _ (m : MemDb) (source selector : String) (s : Store m) (flags : Dict Flag)
    (metadata : GoMap Value) (distinct : HasDistinctKeys flags) (k : String) where
  -- The loops' results on the committed flag and the given one.
  update-txn :
      k ≢ ""
      → m.first (update m source selector s flags metadata).0.db k
        ≡ outcome m source selector
            (set_source_metadata m s source metadata)
            k
            (prune m source selector flags (start m source selector s) (get_all_flags m s))
            (lookup k flags)
  unfolding update
  update-txn named =
      merge-txn m source selector (set_source_metadata m s source metadata) k flags
        (prune m source selector flags (start m source selector s) (get_all_flags m s)) distinct
        named

  update-notifications :
      lookup k (update m source selector s flags metadata).1
      ≡ noted m source selector
          (set_source_metadata m s source metadata)
          k
          (prune m source selector flags (start m source selector s) (get_all_flags m s))
          (lookup k flags)
  unfolding update
  update-notifications =
      merge-notifications m source selector (set_source_metadata m s source metadata) k flags
        (prune m source selector flags (start m source selector s) (get_all_flags m s)) distinct

  pruned :
      (m.first (prune m source selector flags (start m source selector s) (get_all_flags m s)).txn k
        ≡ (if dropped source selector (m.first s.db k) (has k flags) then none else m.first s.db k))
      × (lookup k
            (prune m source selector flags
              (start m source selector s)
              (get_all_flags m s)).notifications
          ≡ (if dropped source selector (m.first s.db k) (has k flags)
              then some (note m source selector delete)
              else none))
  unfolding start lookup
  pruned =
      let start_of = start m source selector s in
      let stored = get_all_flags m s in
      let found = lookup-get_all_flags m s k in
      let apart = get_all_flags-HasDistinctKeys m s in
      (
        rw found at (prune-txn m source selector flags k stored start_of apart),
        rw found at (prune-notifications m source selector flags k stored start_of apart),
      )

  -- After an update, each key but the empty one holds what the specification settles on.
  pub update-settled :
      k ≢ ""
      → m.first (update m source selector s flags metadata).0.db k
        ≡ settled s.flag_sources source selector k (m.first s.db k) (lookup k flags)
  unfolding settled set_source_metadata
  update-settled named = elim (Option-cases (m.first s.db k)) [
    | inl e ↦ ground (arith, e, update-txn named, pruned.0)
    | inr (old, e) ↦ elim (Option-cases (lookup k flags)) [
      | inl e' ↦ ground (arith, e, e', update-txn named, pruned.0)
      | inr (given, e') ↦ ground (arith, e, e', update-txn named, pruned.0)
    ]
  ]

  first_empty : (t : m.Table) → k ≡ "" → m.first t k ≡ none
  first_empty t e = elim (Option-cases (m.first t k)) [
    | inl n ↦ n
    | inr (flag, n) ↦ absurd (m.key-nonempty t k flag n e)
  ]

  difference-named :
      k ≢ ""
      → lookup k (update m source selector s flags metadata).1
        ≡ difference source
            (m.first s.db k)
            (m.first (update m source selector s flags metadata).0.db k)
  unfolding difference settled set_source_metadata
  difference-named named = elim (Option-cases (m.first s.db k)) [
    | inl e ↦ ground (arith, e, update-settled named, update-notifications, pruned.1)
    | inr (old, e) ↦ elim (Option-cases (lookup k flags)) [
      | inl e' ↦
          ground (
            arith,
            e,
            e',
            update-settled named,
            update-notifications,
            pruned.1,
            deep_equal_refl old,
          )
      | inr (given, e') ↦
          ground (
            arith,
            e,
            e',
            update-settled named,
            update-notifications,
            pruned.1,
            deep_equal_refl old,
          )
    ]
  ]

  difference_empty :
      k ≡ ""
      → lookup k (update m source selector s flags metadata).1
        ≡ (if has k flags then some (record { kind = create; source = source }) else none)
  unfolding set_source_metadata
  difference_empty e = ground (arith, update-notifications, pruned.1, first_empty s.db e)

  -- The notification of a key, if it has one, is the difference between the tables before and after:
  -- a create, an update or a delete, and none where the flag did not change. The exception is an
  -- empty key in the payload: it is announced as created, although the table refuses it.
  pub update-difference : lookup k (update m source selector s flags metadata).1 ≡ (
      if k == "" && has k flags
      then some (record { kind = create; source = source })
      else difference source
          (m.first s.db k)
          (m.first (update m source selector s flags metadata).0.db k))
  unfolding difference
  update-difference = elim (Bool-cases (k == "")) [
    | inr e ↦ ground (arith, e, difference-named (ground (arith, e, eq_iff k "")))
    | inl e ↦
        let here = (eq_iff k "").0 e in
        ground (
          arith,
          e,
          difference_empty here,
          first_empty s.db here,
          first_empty (update m source selector s flags metadata).0.db here,
        )
  ]

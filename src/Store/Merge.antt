-- ===== src/Store/Merge.antt =====
-- The two loops of `Update`, key by key.
use mathlib.Core.Option
use flagd.Prelude.{
  Bool, false, not, ◌&&◌, Option, none, some, [], ◌∷◌, String, ◌==◌, ◌≡◌, ◌≢◌, refl, eq_iff, arith,
  if◌then◌else◌, Bool-cases, inl, inr, is_some,
}
use flagd.Prelude.Dict.{Dict, lookup, has, lookup-insert, HasDistinctKeys, lookup_of_IsFresh}
use flagd.Model.{Flag, Notification, NotificationType, delete, create, update as updated}
use flagd.Model.Equality.{deep_equal}
use flagd.Store.{
  MemDb, Store, Progress, has_priority, get, note, prune_step, prune, put, merge_step, merge,
}

-- The flag as `Update` stores it.
abbrev pub stamp : String → String → String → Flag → Flag
stamp source selector key flag = record flag { source = source; selector = selector; key = key }

-- A stored flag of the source and selector at hand that the update does not give.
abbrev pub dropped : String → String → Option Flag → Bool → Bool
dropped source selector none given = false
dropped source selector (some v) given = (v.source == source && v.selector == selector) && not given

module _ (m : MemDb) (source selector : String) where
  module _ (flags : Dict Flag) (k : String) where
    abbrev drops : String × Flag → Bool
    drops (j, v) = dropped source selector (some v) (has j flags) && j == k

    prune_step-txn :
        (p : Progress m) (j : String) (v : Flag)
        → m.first (prune_step m source selector flags p (j, v)).txn k
          ≡ (if drops (j, v) then none else m.first p.txn k)
    unfolding prune_step
    prune_step-txn p j v =
        let (t, e) = m.delete_some p.txn j in ground (arith, e, m.first-delete p.txn t j k e)

    prune_step-notifications :
        (p : Progress m) (j : String) (v : Flag)
        → lookup k (prune_step m source selector flags p (j, v)).notifications ≡ (
            if drops (j, v) then some (note m source selector delete) else lookup k p.notifications)
    unfolding prune_step
    prune_step-notifications p j v =
        let (t, e) = m.delete_some p.txn j in
        ground (arith, e, lookup-insert j k (note m source selector delete) p.notifications)

    abbrev gone : Dict Flag → Bool
    gone stored = dropped source selector (lookup k stored) (has k flags)

    pub prune-txn :
        (stored : Dict Flag) (p : Progress m)
        → HasDistinctKeys stored
        → m.first (prune m source selector flags p stored).txn k
          ≡ (if gone stored then none else m.first p.txn k)
    unfolding prune lookup
    prune-txn [] p d = refl
    prune-txn ((j, v) ∷ stored) p d = ground (
      arith,
      prune-txn stored (prune_step m source selector flags p (j, v)) d.1,
      prune_step-txn p j v,
      lookup_of_IsFresh k stored,
      eq_iff j k,
    )

    pub prune-notifications :
        (stored : Dict Flag) (p : Progress m)
        → HasDistinctKeys stored
        → lookup k (prune m source selector flags p stored).notifications
          ≡ (if gone stored then some (note m source selector delete) else lookup k p.notifications)
    unfolding prune lookup
    prune-notifications [] p d = refl
    prune-notifications ((j, v) ∷ stored) p d = ground (
      arith,
      prune-notifications stored (prune_step m source selector flags p (j, v)) d.1,
      prune_step-notifications p j v,
      lookup_of_IsFresh k stored,
      eq_iff j k,
    )

  -- What the merge of a given flag writes, against the committed state.
  abbrev pub writes : Store m → String → Flag → Option NotificationType
  writes s k given = elim (m.first s.db k) [
    | none ↦ some create
    | some stored ↦
        if not (has_priority s.flag_sources stored.source source)
        then none
        else if deep_equal stored (stamp source selector k given)
        then none
        else some updated
  ]

  abbrev pub or_else {ℓ} : {A : Type ℓ} → Option A → Option A → Option A
  or_else none b = b
  or_else (some a) b = some a

  abbrev pub given_writes : Store m → String → Option Flag → Option NotificationType
  given_writes s k none = none
  given_writes s k (some given) = writes s k given

  put-txn :
      (kind : NotificationType) (p : Progress m) (j k : String) (flag : Flag)
      → flag.key ≡ j
      → k ≢ ""
      → m.first (put m source selector kind p j flag).txn k
        ≡ (if j == k then some flag else m.first p.txn k)
  unfolding put
  put-txn kind p j k flag named ne = elim (Bool-cases (flag.key == "")) [
    | inl e ↦ ground (arith, m.insert_empty p.txn flag, eq_iff flag.key "", eq_iff j k)
    | inr e ↦
        let (t, stored) = m.insert_some p.txn flag (ground (arith, eq_iff flag.key "")) in
        ground (arith, stored, m.first-insert p.txn t flag k stored, eq_iff j k, eq_iff flag.key k)
  ]

  put-notifications :
      (kind : NotificationType) (p : Progress m) (j k : String) (flag : Flag)
      → lookup k (put m source selector kind p j flag).notifications
        ≡ (if j == k then some (note m source selector kind) else lookup k p.notifications)
  unfolding put
  put-notifications kind p j k flag =
      ground (arith, lookup-insert j k (note m source selector kind) p.notifications)

  module _ (s : Store m) (k : String) where
    abbrev pub outcome : Progress m → Option Flag → Option Flag
    outcome p none = m.first p.txn k
    outcome p (some given) =
        if is_some (writes s k given) then some (stamp source selector k given) else m.first p.txn k

    abbrev pub noted : Progress m → Option Flag → Option Notification
    noted p given =
        or_else (Option.map (note m source selector) (given_writes s k given))
          (lookup k p.notifications)

    merge_step-txn :
        (p : Progress m) (j : String) (given : Flag)
        → k ≢ ""
        → m.first (merge_step m source selector s p (j, given)).txn k
          ≡ (if j == k then outcome p (some given) else m.first p.txn k)
    unfolding merge_step get
    merge_step-txn p j given ne =
        let new = stamp source selector j given in
        elim (Bool-cases (j == k)) [
          | inl e ↦
              let same = (eq_iff j k).0 e in
              rw (e, same)
                (ground (
                  arith,
                  put-txn create p k k (stamp source selector k given) refl ne,
                  put-txn updated p k k (stamp source selector k given) refl ne,
                  eq_iff k k,
                ))
          | inr e ↦
              ground (arith, e, put-txn create p j k new refl ne, put-txn updated p j k new refl ne)
        ]

    merge_step-notifications :
        (p : Progress m) (j : String) (given : Flag)
        → lookup k (merge_step m source selector s p (j, given)).notifications
          ≡ (if j == k then noted p (some given) else lookup k p.notifications)
    unfolding merge_step get
    merge_step-notifications p j given =
        let new = stamp source selector j given in
        elim (Bool-cases (j == k)) [
          | inl e ↦
              let same = (eq_iff j k).0 e in
              rw (e, same)
                (ground (
                  arith,
                  put-notifications create p k k (stamp source selector k given),
                  put-notifications updated p k k (stamp source selector k given),
                  eq_iff k k,
                ))
          | inr e ↦
              ground
                (arith, e, put-notifications create p j k new, put-notifications updated p j k new)
        ]

    pub merge-txn :
        (flags : Dict Flag) (p : Progress m)
        → HasDistinctKeys flags
        → k ≢ ""
        → m.first (merge m source selector s p flags).txn k ≡ outcome p (lookup k flags)
    unfolding merge lookup
    merge-txn [] p d ne = refl
    merge-txn ((j, given) ∷ flags) p d ne = ground (
      arith,
      merge-txn flags (merge_step m source selector s p (j, given)) d.1 ne,
      merge_step-txn p j given ne,
      lookup_of_IsFresh k flags,
      eq_iff j k,
    )

    -- The notifications do not depend on the insertions, so the empty key needs no exception.
    pub merge-notifications :
        (flags : Dict Flag) (p : Progress m)
        → HasDistinctKeys flags
        → lookup k (merge m source selector s p flags).notifications ≡ noted p (lookup k flags)
    unfolding merge lookup
    merge-notifications [] p d = refl
    merge-notifications ((j, given) ∷ flags) p d = ground (
      arith,
      merge-notifications flags (merge_step m source selector s p (j, given)) d.1,
      merge_step-notifications p j given,
      lookup_of_IsFresh k flags,
      eq_iff j k,
    )

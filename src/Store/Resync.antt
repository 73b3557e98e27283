-- ===== src/Store/Resync.antt =====
-- When `Update` asks for a full resync, and what a repeated update does.
use flagd.Prelude.{
  Bool, true, false, ◌||◌, none, some, [], ◌∷◌, String, ◌≡◌, ◌≢◌, ◌↔◌, inl, inr, refl, sym, subst,
  ◌∙◌, arith, Option-cases, Bool-cases,
}
use flagd.Prelude.Tests.{In}
use flagd.Prelude.Dict.{Dict, has, HasDistinctKeys, lookup_of_In, In-of_lookup}
use flagd.Model.{Flag, GoMap, Value}
use flagd.Store.{
  MemDb, Store, Progress, update, start, prune, prune_step, put, merge_step, merge, get_all_flags,
  set_source_metadata,
}
use flagd.Store.Table.{lookup-get_all_flags, get_all_flags-HasDistinctKeys}
use flagd.Store.Merge.{dropped}
use flagd.Store.Update.{settled, update-settled}

module _ (m : MemDb) (source selector : String) where
  abbrev any_dropped : Dict Flag → Dict Flag → Bool
  any_dropped flags [] = false
  any_dropped flags ((j, v) ∷ stored) =
      dropped source selector (some v) (has j flags) || any_dropped flags stored

  prune_step-resync :
      (flags : Dict Flag) (p : Progress m) (j : String) (v : Flag)
      → (prune_step m source selector flags p (j, v)).resync_required
        ≡ (dropped source selector (some v) (has j flags) || p.resync_required)
  unfolding prune_step
  prune_step-resync flags p j v = let (t, e) = m.delete_some p.txn j in ground (arith, e)

  prune-resync :
      (flags stored : Dict Flag) (p : Progress m)
      → (prune m source selector flags p stored).resync_required
        ≡ (any_dropped flags stored || p.resync_required)
  unfolding prune
  prune-resync flags [] p = refl
  prune-resync flags ((j, v) ∷ stored) p = ground (
    arith,
    prune-resync flags stored (prune_step m source selector flags p (j, v)),
    prune_step-resync flags p j v,
  )

  merge-resync :
      (s : Store m) (flags : Dict Flag) (p : Progress m)
      → (merge m source selector s p flags).resync_required ≡ p.resync_required
  unfolding merge merge_step put
  merge-resync s [] p = refl
  merge-resync s ((j, given) ∷ flags) p =
      merge-resync s flags (merge_step m source selector s p (j, given)) ∙ ground arith

  any_dropped-In :
      (flags stored : Dict Flag)
      → any_dropped flags stored ≡ true
      → (k : String) × (v : Flag) × In (k, v) stored
        × (dropped source selector (some v) (has k flags) ≡ true)
  any_dropped-In flags [] h = cc
  any_dropped-In flags ((j, v) ∷ stored) h =
      elim (Bool-cases (dropped source selector (some v) (has j flags))) [
        | inl e ↦ (j, v, inl refl, e)
        | inr e ↦
            let (k, w, i, d) = any_dropped-In flags stored (ground (arith, e)) in (k, w, inr i, d)
      ]

  In-any_dropped :
      (flags stored : Dict Flag) (k : String) (v : Flag)
      → In (k, v) stored
      → dropped source selector (some v) (has k flags) ≡ true
      → any_dropped flags stored ≡ true
  In-any_dropped flags [] k v i d = absurd i
  In-any_dropped flags ((j, w) ∷ stored) k v (inl e) d =
      subst
        (λ x.
          (dropped source selector (some x.1) (has x.0 flags) || any_dropped flags stored) ≡ true)
        (sym e) (rw d refl)
  In-any_dropped flags ((j, w) ∷ stored) k v (inr i) d =
      ground (arith, In-any_dropped flags stored k v i d)

  update-resync :
      (s : Store m) (flags : Dict Flag) (metadata : GoMap Value)
      → (update m source selector s flags metadata).2 ≡ any_dropped flags (get_all_flags m s)
  unfolding update start
  update-resync s flags metadata = ground (
    arith,
    merge-resync (set_source_metadata m s source metadata) flags
        (prune m source selector flags (start m source selector s) (get_all_flags m s)),
    prune-resync flags (get_all_flags m s) (start m source selector s),
  )

  module _ (s : Store m) (flags : Dict Flag) (metadata : GoMap Value)
      (distinct : HasDistinctKeys flags) where
    abbrev after : Store m
    after = (update m source selector s flags metadata).0

    Disappears : String → Type 0
    Disappears k = (m.first s.db k ≢ none) × (m.first after.db k ≡ none)

    Disappears-of_dropped :
        (k : String) (v : Flag)
        → In (k, v) (get_all_flags m s)
        → dropped source selector (some v) (has k flags) ≡ true
        → Disappears k
    unfolding Disappears settled
    Disappears-of_dropped k v i d =
        let stored : m.first s.db k ≡ some v =
          sym (lookup-get_all_flags m s k)
          ∙ lookup_of_In k v (get_all_flags m s) (get_all_flags-HasDistinctKeys m s) i in
        let left =
          update-settled m source selector s flags metadata distinct k
            (m.key-nonempty s.db k v stored) in
        (ground (arith, stored), ground (arith, stored, left))

    dropped-of_Disappears :
        (k : String)
        → Disappears k
        → (v : Flag) × In (k, v) (get_all_flags m s)
          × (dropped source selector (some v) (has k flags) ≡ true)
    unfolding Disappears settled
    dropped-of_Disappears k (was, gone) = elim (Option-cases (m.first s.db k)) [
      | inl e ↦ absurd (was e)
      | inr (v, e) ↦
          let left =
            update-settled m source selector s flags metadata distinct k
              (m.key-nonempty s.db k v e) in
          (
            v,
            In-of_lookup k v (get_all_flags m s) (lookup-get_all_flags m s k ∙ e),
            ground (arith, e, left),
          )
    ]

  -- A resync is asked for exactly when a flag that was stored is stored no longer.
  pub update-resync_iff :
      (s : Store m) (flags : Dict Flag) (metadata : GoMap Value)
      → HasDistinctKeys flags
      → ((update m source selector s flags metadata).2 ≡ true) ↔ (
          (k : String) × (m.first s.db k ≢ none)
          × (m.first (update m source selector s flags metadata).0.db k ≡ none))
  unfolding Disappears
  update-resync_iff s flags metadata distinct = (lost, asked)
    where
      lost :
          (update m source selector s flags metadata).2 ≡ true
          → (k : String) × (m.first s.db k ≢ none)
            × (m.first (update m source selector s flags metadata).0.db k ≡ none)
      lost h =
          let (k, v, i, d) =
            any_dropped-In flags (get_all_flags m s) (sym (update-resync s flags metadata) ∙ h) in
          let lost_flag = Disappears-of_dropped s flags metadata distinct k v i d in
          (k, lost_flag.0, lost_flag.1)

      asked :
          ((k : String) × (m.first s.db k ≢ none)
            × (m.first (update m source selector s flags metadata).0.db k ≡ none))
          → (update m source selector s flags metadata).2 ≡ true
      asked (k, was, gone) =
          let (v, i, d) = dropped-of_Disappears s flags metadata distinct k (was, gone) in
          update-resync s flags metadata ∙ In-any_dropped flags (get_all_flags m s) k v i d

-- ===== src/Store/Table.antt =====
-- `GetAll`: the map that it builds holds exactly what the table finds by key.
use mathlib.Core.List.{foldl}
use flagd.Prelude.{
  some, List, [], ◌∷◌, String, ◌≡◌, ◌≢◌, ◌⊎◌, inl, inr, refl, sym, ◌∙◌, subst, eq_iff, arith,
  Option-cases,
}
use flagd.Prelude.Tests.{In}
use flagd.Prelude.Dict.{
  Dict, lookup, insert, lookup-insert, HasDistinctKeys, insert-HasDistinctKeys,
}
use flagd.Model.{Flag}
use flagd.Store.{MemDb, Store, add_by_key, get_all_flags}

module _ (m : MemDb) where
  add_all-absent :
      (k : String) (fs : List Flag) (acc : Dict Flag)
      → ((f : Flag) → In f fs → f.key ≢ k)
      → lookup k (foldl (add_by_key m) acc fs) ≡ lookup k acc
  unfolding add_by_key
  add_all-absent k [] acc h = refl
  add_all-absent k (f ∷ fs) acc h = ground (
    arith,
    add_all-absent k fs (insert f.key f acc) (λ g i. h g (inr i)),
    lookup-insert f.key k f acc,
    eq_iff f.key k,
    h f (inl refl),
  )

  add_all-present :
      (k : String) (flag : Flag) (fs : List Flag) (acc : Dict Flag)
      → flag.key ≡ k
      → ((f : Flag) → In f fs → f.key ≡ k → f ≡ flag)
      → (lookup k acc ≡ some flag) ⊎ In flag fs
      → lookup k (foldl (add_by_key m) acc fs) ≡ some flag
  unfolding add_by_key
  add_all-present k flag [] acc e h (inl l) = l
  add_all-present k flag [] acc e h (inr i) = absurd i
  add_all-present k flag (f ∷ fs) acc e h c =
      add_all-present k flag fs (insert f.key f acc) e (λ g i. h g (inr i))
        (ground (arith, lookup-insert f.key k f acc, eq_iff f.key k, h f (inl refl)))

  add_all-HasDistinctKeys :
      (fs : List Flag) (acc : Dict Flag)
      → HasDistinctKeys acc
      → HasDistinctKeys (foldl (add_by_key m) acc fs)
  unfolding add_by_key
  add_all-HasDistinctKeys [] acc h = h
  add_all-HasDistinctKeys (f ∷ fs) acc h =
      add_all-HasDistinctKeys fs (insert f.key f acc) (insert-HasDistinctKeys f.key f acc h)

  first_of_In :
      (t : m.Table) (k : String) (f : Flag) → In f (m.get t) → f.key ≡ k → m.first t k ≡ some f
  first_of_In t k f i e = subst (λ j. m.first t j ≡ some f) e ((m.get-first t f).0 i)

  -- `GetAll` lists each stored flag under its key, and nothing else.
  pub lookup-get_all_flags :
      (s : Store m) (k : String) → lookup k (get_all_flags m s) ≡ m.first s.db k
  unfolding get_all_flags lookup
  lookup-get_all_flags s k = elim (Option-cases (m.first s.db k)) [
    | inl e ↦ add_all-absent k (m.get s.db) [] (λ f i p. cc (e, first_of_In s.db k f i p)) ∙ sym e
    | inr (flag, e) ↦
        let named : flag.key ≡ k = m.first-key s.db k flag e in
        add_all-present k flag (m.get s.db) [] named (λ f i p. cc (e, first_of_In s.db k f i p))
          (inr ((m.get-first s.db flag).1 (subst (λ j. m.first s.db j ≡ some flag) (sym named) e)))
        ∙ sym e
  ]

  pub get_all_flags-HasDistinctKeys : (s : Store m) → HasDistinctKeys (get_all_flags m s)
  unfolding get_all_flags
  get_all_flags-HasDistinctKeys s = add_all-HasDistinctKeys (m.get s.db) [] tt

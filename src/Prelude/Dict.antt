-- ===== src/Prelude/Dict.antt =====
-- Maps with text keys as association lists: Go's `map[string]V` and the objects of JavaScript.
-- A list stands for a map if its keys are distinct; its order is one order of iteration.
use mathlib.Core.Bool.{Bool}
use mathlib.Core.List.{List, [], ◌∷◌}
use mathlib.Core.Logic.{◌≢◌, inl, inr}
use mathlib.Core.Option.{Option, none, some}
use mathlib.Core.Path.{◌≡◌, refl}
use native.Mathlib.Omega.{arith}
use Prim.Native.String.{String}
use text.Mathlib.Text.{◌==◌}
use text.Mathlib.TextEquality.{eq_iff}
use flagd.Prelude.Tests.{if◌then◌else◌, is_some, In}

abbrev pub Dict {ℓ} : Type ℓ → Type ℓ
Dict V = List (String × V)

module _ {ℓ} {V : Type ℓ} where
  unfoldable pub lookup : (key : String) → Dict V → Option V
  lookup key [] = none
  lookup key ((name, here) ∷ rest) = if name == key then some here else lookup key rest

  -- The place of a key that is there already is kept.
  unfoldable pub insert : (key : String) → V → Dict V → Dict V
  insert key new [] = (key, new) ∷ []
  insert key new ((name, old) ∷ rest) =
      if name == key then (key, new) ∷ rest else (name, old) ∷ insert key new rest

  unfoldable pub remove : (key : String) → Dict V → Dict V
  remove key [] = []
  remove key ((name, old) ∷ rest) =
      if name == key then remove key rest else (name, old) ∷ remove key rest

  abbrev pub has : String → Dict V → Bool
  has key dict = is_some (lookup key dict)

  pub lookup-insert :
      (key wanted : String) (new : V) (dict : Dict V)
      → lookup wanted (insert key new dict)
        ≡ (if key == wanted then some new else lookup wanted dict)
  unfolding insert lookup
  lookup-insert key wanted new [] = refl
  lookup-insert key wanted new ((name, old) ∷ rest) = ground (
    arith,
    lookup-insert key wanted new rest,
    eq_iff name key,
    eq_iff name wanted,
    eq_iff key wanted,
  )

  pub lookup-remove :
      (key wanted : String) (dict : Dict V)
      → lookup wanted (remove key dict) ≡ (if key == wanted then none else lookup wanted dict)
  unfolding remove lookup
  lookup-remove key wanted [] = ground arith
  lookup-remove key wanted ((name, old) ∷ rest) =
      ground (
        arith,
        lookup-remove key wanted rest,
        eq_iff name key,
        eq_iff name wanted,
        eq_iff key wanted,
      )

  -- The key stands nowhere in the list.
  abbrev pub IsFresh : String → Dict V → Type 0
  IsFresh k [] = Unit
  IsFresh k ((j, w) ∷ m) = (j ≢ k) × IsFresh k m

  abbrev pub HasDistinctKeys : Dict V → Type 0
  HasDistinctKeys [] = Unit
  HasDistinctKeys ((k, v) ∷ m) = IsFresh k m × HasDistinctKeys m

  pub lookup_of_IsFresh : (k : String) (m : Dict V) → IsFresh k m → lookup k m ≡ none
  unfolding lookup
  lookup_of_IsFresh k [] h = refl
  lookup_of_IsFresh k ((j, w) ∷ m) h = ground (arith, eq_iff j k, lookup_of_IsFresh k m)

  pub IsFresh-of_lookup : (k : String) (m : Dict V) → lookup k m ≡ none → IsFresh k m
  unfolding lookup
  IsFresh-of_lookup k [] h = tt
  IsFresh-of_lookup k ((j, w) ∷ m) h = ground (arith, eq_iff j k, IsFresh-of_lookup k m)

  pub insert-IsFresh :
      (i k : String) (v : V) (m : Dict V) → k ≢ i → IsFresh i m → IsFresh i (insert k v m)
  unfolding insert
  insert-IsFresh i k v [] ne h = (ne, tt)
  insert-IsFresh i k v ((j, w) ∷ m) ne h = ground (arith, eq_iff j k, insert-IsFresh i k v m ne)

  pub insert-HasDistinctKeys :
      (k : String) (v : V) (m : Dict V) → HasDistinctKeys m → HasDistinctKeys (insert k v m)
  unfolding insert
  insert-HasDistinctKeys k v [] h = (tt, tt)
  insert-HasDistinctKeys k v ((j, w) ∷ m) h =
      ground (arith, eq_iff j k, insert-HasDistinctKeys k v m, insert-IsFresh j k v m)

  pub remove-IsFresh : (i k : String) (m : Dict V) → IsFresh i m → IsFresh i (remove k m)
  unfolding remove
  remove-IsFresh i k [] h = tt
  remove-IsFresh i k ((j, w) ∷ m) h = ground (arith, remove-IsFresh i k m)

  pub remove-HasDistinctKeys :
      (k : String) (m : Dict V) → HasDistinctKeys m → HasDistinctKeys (remove k m)
  unfolding remove
  remove-HasDistinctKeys k [] h = tt
  remove-HasDistinctKeys k ((j, w) ∷ m) h =
      ground (arith, remove-HasDistinctKeys k m, remove-IsFresh j k m)

module _ {V : Type 0} where
  pub ne_of_IsFresh : (i k : String) (v : V) (m : Dict V) → IsFresh i m → In (k, v) m → k ≢ i
  ne_of_IsFresh i k v [] h e = absurd e
  ne_of_IsFresh i k v ((j, w) ∷ m) h (inl e) = ground arith
  ne_of_IsFresh i k v ((j, w) ∷ m) h (inr e) = ne_of_IsFresh i k v m h.1 e

  -- With distinct keys the entries are what `lookup` finds.
  pub lookup_of_In :
      (k : String) (v : V) (m : Dict V) → HasDistinctKeys m → In (k, v) m → lookup k m ≡ some v
  unfolding lookup
  lookup_of_In k v [] d h = absurd h
  lookup_of_In k v ((j, w) ∷ m) d (inl e) = ground (arith, eq_iff j k)
  lookup_of_In k v ((j, w) ∷ m) d (inr e) =
      ground (arith, eq_iff j k, ne_of_IsFresh j k v m, lookup_of_In k v m)

  pub In-of_lookup : (k : String) (v : V) (m : Dict V) → lookup k m ≡ some v → In (k, v) m
  unfolding lookup
  In-of_lookup k v [] h = cc
  In-of_lookup k v ((j, w) ∷ m) h = ground (arith, eq_iff j k, In-of_lookup k v m)

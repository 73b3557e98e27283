-- ===== src/Store/ListDb.antt =====
-- A table as a list of flags, the last insertion first: it shows that the hypotheses of `MemDb` can
-- hold, and runs the store in tests.
use flagd.Prelude.{
  Option, none, some, List, [], ◌∷◌, String, ◌==◌, ◌≡◌, ◌≢◌, ◌↔◌, refl, eq_iff, arith,
  if◌then◌else◌,
}
use flagd.Prelude.Tests.{In}
use flagd.Model.{Flag}
use flagd.Store.{MemDb}

pub first : List Flag → String → Option Flag
first [] k = none
first (f ∷ fs) k = if f.key == "" then first fs k else if f.key == k then some f else first fs k

pub drop : String → List Flag → List Flag
drop k [] = []
drop k (f ∷ fs) = if f.key == k then drop k fs else f ∷ drop k fs

-- Each key once.
pub get : List Flag → List Flag
get [] = []
get (f ∷ fs) = if f.key == "" then get fs else f ∷ drop f.key (get fs)

pub put : List Flag → Flag → Option (List Flag)
put t f = if f.key == "" then none else some (f ∷ t)

In-drop : (k : String) (g : Flag) (fs : List Flag) → In g (drop k fs) ↔ ((g.key ≢ k) × In g fs)
unfolding drop
In-drop k g [] = (λ h. absurd h, λ h. absurd h.1)
In-drop k g (f ∷ fs) = (
  λ h. ground (arith, eq_iff f.key k, In-drop k g fs, h),
  λ h. ground (arith, eq_iff f.key k, In-drop k g fs, h),
)

pub In-get : (t : List Flag) (f : Flag) → In f (get t) ↔ (first t f.key ≡ some f)
unfolding get first
In-get [] f = (λ h. absurd h, λ e. cc)
In-get (g ∷ t) f = (
  λ h. ground (arith, eq_iff g.key "", eq_iff g.key f.key, In-get t f, In-drop g.key f (get t), h),
  λ h. ground (arith, eq_iff g.key "", eq_iff g.key f.key, In-get t f, In-drop g.key f (get t), h),
)

pub first-key :
    (t : List Flag) (k : String) (f : Flag) → first t k ≡ some f → (f.key ≡ k) × (k ≢ "")
unfolding first
first-key [] k f h = cc
first-key (g ∷ t) k f h = ground (arith, eq_iff g.key "", eq_iff g.key k, first-key t k f)

first-drop :
    (j k : String) (t : List Flag) → first (drop j t) k ≡ (if j == k then none else first t k)
unfolding first drop
first-drop j k [] = ground arith
first-drop j k (f ∷ t) =
    ground (arith, eq_iff f.key j, eq_iff f.key k, eq_iff j k, first-drop j k t)

pub first-put :
    (t t' : List Flag) (f : Flag) (k : String)
    → put t f ≡ some t'
    → first t' k ≡ (if f.key == k then some f else first t k)
unfolding put first
first-put t t' f k h = ground (arith, h)

pub put_empty : (t : List Flag) (f : Flag) → f.key ≡ "" → put t f ≡ none
unfolding put
put_empty t f h = ground (arith, eq_iff f.key "")

pub put-some : (t : List Flag) (f : Flag) → f.key ≢ "" → (t' : List Flag) × (put t f ≡ some t')
unfolding put
put-some t f h = (f ∷ t, ground (arith, eq_iff f.key ""))

pub first-delete :
    (t t' : List Flag) (j k : String)
    → some (drop j t) ≡ some t'
    → first t' k ≡ (if j == k then none else first t k)
first-delete t t' j k h = ground (arith, h, first-drop j k t)

unfoldable pub list_db : MemDb
unfolding first drop get put
list_db = record {
  Table = List Flag;
  first = first;
  get = get;
  insert = put;
  delete_all = λ t k. some (drop k t);
  first-key = λ t k f h. (first-key t k f h).0;
  key-nonempty = λ t k f h. (first-key t k f h).1;
  get-first = In-get;
  insert_empty = put_empty;
  insert_some = put-some;
  first-insert = first-put;
  delete_some = λ t k. (drop k t, refl);
  first-delete = first-delete;
}

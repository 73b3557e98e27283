-- ===== src/Model/Equality.antt =====
-- `reflect.DeepEqual` on flags. Values are canonical (Model.antt), so they are equal just when they
-- are the same; two Go maps are equal when they have the same entries, in whatever order their lists
-- have them, and a nil map is equal to a nil map only.
use flagd.Prelude.{
  ◌≡◌, refl, Bool, true, false, ◌&&◌, ◌↔◌, inl, inr, ◌==◌, eq_iff, eq_refl, String, Option, none,
  some, [], ◌∷◌, sym, ◌∙◌, arith, Bool-cases, Option-cases, is_some,
}
use flagd.Prelude.Dict.{Dict, lookup}
use native.Mathlib.Decide.{ℕ_discrete}
use flagd.Model.{Value, GoMap, Flag, no_flag, bool}

unfoldable pub String-discrete : Discrete String
unfolding Bool-cases
String-discrete s t = elim (Bool-cases (s == t)) [
  | inl e ↦ yes ((eq_iff s t).0 e)
  | inr e ↦ no (λ p. cc ((eq_iff s t).1 p))
]

unfoldable pub Value-discrete : Discrete Value
unfolding String-discrete ℕ_discrete
Value-discrete = hlevel (ℕ_discrete, String-discrete)

unfoldable pub value_equal : Value → Value → Bool
unfolding Value-discrete
value_equal v w = elim (Value-discrete v w) [ yes _ ↦ true | no _ ↦ false ]

value_equal_iff : (v w : Value) → (value_equal v w ≡ true) ↔ (v ≡ w)
unfolding value_equal
value_equal_iff v w =
    elim (Value-discrete v w)
      as (λ d. ((elim d [ yes _ ↦ true | no _ ↦ false ]) ≡ true) ↔ (v ≡ w)) [
        | yes p ↦ (λ _. p, λ _. refl)
        | no n ↦ (λ e. cc, λ p. absurd (n p))
      ]

-- The entries of one key in two maps.
unfoldable pub entry_equal : Option Value → Option Value → Bool
unfolding value_equal
entry_equal none none = true
entry_equal none (some w) = false
entry_equal (some v) none = false
entry_equal (some v) (some w) = value_equal v w

entry_equal_iff : (a b : Option Value) → (entry_equal a b ≡ true) ↔ (a ≡ b)
unfolding entry_equal
entry_equal_iff none none = (λ e. refl, λ p. refl)
entry_equal_iff none (some w) = (λ e. absurd (ground (arith, e)), λ p. absurd (ground (arith, p)))
entry_equal_iff (some v) none = (λ e. absurd (ground (arith, e)), λ p. absurd (ground (arith, p)))
entry_equal_iff (some v) (some w) =
    (λ e. ground (arith, e, value_equal_iff v w), λ p. ground (arith, p, value_equal_iff v w))

-- Whether two maps have the same entries for the keys of a third.
unfoldable pub agree : Dict Value → Dict Value → Dict Value → Bool
unfolding entry_equal lookup
agree a b [] = true
agree a b ((k, v) ∷ rest) = entry_equal (lookup k a) (lookup k b) && agree a b rest

unfoldable pub map_equal : GoMap Value → GoMap Value → Bool
unfolding agree
map_equal none none = true
map_equal none (some b) = false
map_equal (some a) none = false
map_equal (some a) (some b) = agree a b a && agree a b b

abbrev raw_equal : Option String → Option String → Bool
raw_equal none none = true
raw_equal none (some t) = false
raw_equal (some s) none = false
raw_equal (some s) (some t) = s == t

unfoldable pub deep_equal : Flag → Flag → Bool
unfolding map_equal
deep_equal f g =
    f.key == g.key
    && f.state == g.state
    && f.default_variant == g.default_variant
    && map_equal f.variants g.variants
    && raw_equal f.targeting g.targeting
    && f.source == g.source
    && f.selector == g.selector
    && map_equal f.metadata g.metadata

agree-lookup :
    (a b keys : Dict Value) (k : String)
    → agree a b keys ≡ true
    → is_some (lookup k keys) ≡ true
    → lookup k a ≡ lookup k b
unfolding agree lookup
agree-lookup a b [] k e h = absurd (ground (arith, h))
agree-lookup a b ((j, v) ∷ rest) k e h = elim (Bool-cases (j == k)) [
  | inl same ↦ ground (arith, e, same, eq_iff j k, entry_equal_iff (lookup j a) (lookup j b))
  | inr other ↦ agree-lookup a b rest k (ground (arith, e)) (ground (arith, h, other))
]

agree_of_lookups :
    (a b keys : Dict Value) → ((k : String) → lookup k a ≡ lookup k b) → agree a b keys ≡ true
unfolding agree
agree_of_lookups a b [] h = refl
agree_of_lookups a b ((j, v) ∷ rest) h =
    ground (arith, h j, entry_equal_iff (lookup j a) (lookup j b), agree_of_lookups a b rest h)

-- The two maps are nil, or have the same entry for every key.
abbrev pub IsSameMap : GoMap Value → GoMap Value → Type 0
IsSameMap none none = Unit
IsSameMap none (some b) = ⊥
IsSameMap (some a) none = ⊥
IsSameMap (some a) (some b) = (k : String) → lookup k a ≡ lookup k b

map_equal-lookup :
    (a b : Dict Value) (k : String) → map_equal (some a) (some b) ≡ true → lookup k a ≡ lookup k b
unfolding map_equal
map_equal-lookup a b k e = elim (Option-cases (lookup k a)) [
  | inr (v, found) ↦ agree-lookup a b a k (ground (arith, e)) (ground (arith, found))
  | inl n ↦ elim (Option-cases (lookup k b)) [
    | inr (w, found) ↦ agree-lookup a b b k (ground (arith, e)) (ground (arith, found))
    | inl n' ↦ n ∙ sym n'
  ]
]

pub map_equal_iff : (a b : GoMap Value) → (map_equal a b ≡ true) ↔ IsSameMap a b
unfolding map_equal
map_equal_iff none none = (λ e. tt, λ h. refl)
map_equal_iff none (some b) = (λ e. absurd (ground (arith, e)), λ h. absurd h)
map_equal_iff (some a) none = (λ e. absurd (ground (arith, e)), λ h. absurd h)
map_equal_iff (some a) (some b) = (
  λ e k. map_equal-lookup a b k e,
  λ h. ground (arith, agree_of_lookups a b a h, agree_of_lookups a b b h),
)

map_equal_refl : (a : GoMap Value) → map_equal a a ≡ true
map_equal_refl none = (map_equal_iff none none).1 tt
map_equal_refl (some a) = (map_equal_iff (some a) (some a)).1 (λ k. refl)

raw_equal_refl : (a : Option String) → raw_equal a a ≡ true
raw_equal_refl none = refl
raw_equal_refl (some s) = eq_refl s

pub deep_equal_refl : (f : Flag) → deep_equal f f ≡ true
unfolding deep_equal
deep_equal_refl f = ground (
  arith,
  eq_refl f.key,
  eq_refl f.state,
  eq_refl f.default_variant,
  map_equal_refl f.variants,
  raw_equal_refl f.targeting,
  eq_refl f.source,
  eq_refl f.selector,
  map_equal_refl f.metadata,
)

deep_equal_test : deep_equal no_flag (record no_flag { key = "a" }) ≡ false
unfolding deep_equal
deep_equal_test = refl

-- The order of the entries plays no part.
deep_equal_order :
    deep_equal
      (record no_flag { variants = some (("a", bool true) ∷ ("b", bool false) ∷ []) })
      (record no_flag { variants = some (("b", bool false) ∷ ("a", bool true) ∷ []) })
    ≡ true
unfolding deep_equal lookup
deep_equal_order = refl

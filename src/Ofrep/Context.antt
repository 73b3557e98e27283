-- ===== src/Ofrep/Context.antt =====
-- Which value of a key the evaluation context has.
use mathlib.Core.List.{foldl}
use flagd.Prelude.{
  Option, none, some, List, [], ◌∷◌, String, ◌==◌, ◌≡◌, refl, inl, inr, arith, eq_iff, ap, ◌∙◌,
  Option-cases, if◌then◌else◌,
}
use flagd.Prelude.Dict.{Dict, lookup, insert, lookup-insert, HasDistinctKeys, lookup_of_IsFresh}
use flagd.Model.{Value, str}
use flagd.Ofrep.{Headers, context_of, copy_into, add_header, flagd_context}

abbrev pub or_else : Option Value → Option Value → Option Value
or_else none other = other
or_else (some v) other = some v

abbrev first_value : Option (String × List String) → Option Value
first_value none = none
first_value (some (first, others)) = some (str first)

-- The value that the headers give a key: the last mapping to it whose header was sent.
unfoldable pub from_headers : Headers → String → Dict String → Option Value
unfolding lookup
from_headers headers key [] = none
from_headers headers key ((header, context_key) ∷ rest) =
    or_else (from_headers headers key rest)
      (if context_key == key then first_value (lookup header headers) else none)

or_else_assoc : (a b c : Option Value) → or_else a (or_else b c) ≡ or_else (or_else a b) c
or_else_assoc none b c = refl
or_else_assoc (some v) b c = refl

or_else-none : (a : Option Value) → or_else a none ≡ a
or_else-none none = refl
or_else-none (some v) = refl

lookup-copy_into :
    (key : String) (context values : Dict Value)
    → HasDistinctKeys values
    → lookup key (copy_into context values) ≡ or_else (lookup key values) (lookup key context)
unfolding copy_into lookup
lookup-copy_into key context [] h = refl
lookup-copy_into key context ((name, v) ∷ rest) (fresh, h) = ground (
  arith,
  lookup-copy_into key (insert name v context) rest h,
  lookup-insert name key v context,
  lookup_of_IsFresh name rest fresh,
  eq_iff name key,
)

lookup-add_header :
    (headers : Headers) (key header context_key : String) (context : Dict Value)
    → lookup key (add_header headers context (header, context_key))
      ≡ or_else
          (if context_key == key then first_value (lookup header headers) else none)
          (lookup key context)
unfolding add_header
lookup-add_header headers key header context_key context =
    elim (Option-cases (lookup header headers)) [
      | inl n ↦ ground (arith, n)
      | inr ((first, others), n) ↦
          ground (arith, n, lookup-insert context_key key (str first) context)
    ]

lookup-add_headers :
    (headers : Headers) (key : String) (mappings : Dict String) (context : Dict Value)
    → lookup key (foldl (add_header headers) context mappings)
      ≡ or_else (from_headers headers key mappings) (lookup key context)
unfolding from_headers
lookup-add_headers headers key [] context = refl
lookup-add_headers headers key ((header, context_key) ∷ rest) context =
    lookup-add_headers headers key rest (add_header headers context (header, context_key))
    ∙ ap (λ v. or_else (from_headers headers key rest) v)
        (lookup-add_header headers key header context_key context)
    ∙ or_else_assoc (from_headers headers key rest)
        (if context_key == key then first_value (lookup header headers) else none)
        (lookup key context)

-- A key of the context has the value of the last mapped header that was sent, else the static
-- value, else the value that the request provides.
pub lookup-flagd_context :
    (request : Value) (static : Dict Value) (headers : Headers) (mappings : Dict String)
    (key : String)
    → HasDistinctKeys (context_of request)
    → HasDistinctKeys static
    → lookup key (flagd_context request static headers mappings)
      ≡ or_else
          (from_headers headers key mappings)
          (or_else (lookup key static) (lookup key (context_of request)))
unfolding flagd_context lookup
lookup-flagd_context request static headers mappings key h1 h2 =
    let provided = copy_into [] (context_of request) in
    lookup-add_headers headers key mappings (copy_into provided static)
    ∙ ap (λ v. or_else (from_headers headers key mappings) v)
        (lookup-copy_into key provided static h2
          ∙ ap (λ v. or_else (lookup key static) v)
              (lookup-copy_into key [] (context_of request) h1
                ∙ or_else-none (lookup key (context_of request))))

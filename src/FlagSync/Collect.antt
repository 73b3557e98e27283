-- ===== src/FlagSync/Collect.antt =====
-- `reFill` sorts the flags by their source: each source gets its own flags, and no others.
use mathlib.Core.List.{foldl, append-nil, append_assoc}
use flagd.Prelude.{
  Option, none, some, [], ◌∷◌, ◌++◌, String, ◌==◌, ◌≡◌, ◌≢◌, refl, sym, ap, ◌∙◌, inl, inr, eq_iff,
  arith, if◌then◌else◌, Bool-cases,
}
use flagd.Prelude.Tests.{All}
use flagd.Prelude.Dict.{Dict, lookup, insert, lookup-insert, IsFresh, HasDistinctKeys}
use flagd.Model.{Flag}
use flagd.FlagSync.{flags_of, collect_flag, collect}

-- The flags of one source, in order.
unfoldable pub only : String → Dict Flag → Dict Flag
only source [] = []
only source ((key, flag) ∷ rest) =
    if flag.source == source then (key, flag) ∷ only source rest else only source rest

-- A map that is there only if it has an entry.
abbrev pub gathered : Option (Dict Flag) → Dict Flag → Option (Dict Flag)
gathered o [] = o
gathered o (entry ∷ rest) = some (flags_of o ++ entry ∷ rest)

gathered-some : (front rest : Dict Flag) → gathered (some front) rest ≡ some (front ++ rest)
gathered-some front [] = ap some (sym (append-nil front))
gathered-some front (entry ∷ rest) = refl

insert_of_IsFresh :
    (key : String) (flag : Flag) (flags : Dict Flag)
    → IsFresh key flags
    → insert key flag flags ≡ flags ++ (key, flag) ∷ []
unfolding insert
insert_of_IsFresh key flag [] fresh = refl
insert_of_IsFresh key flag ((name, old) ∷ rest) (ne, fresh) =
    ground (arith, ne, eq_iff name key, insert_of_IsFresh key flag rest fresh)

IsFresh-append :
    (j key : String) (flag : Flag) (flags : Dict Flag)
    → IsFresh j flags
    → key ≢ j
    → IsFresh j (flags ++ (key, flag) ∷ [])
IsFresh-append j key flag [] fresh ne = (ne, tt)
IsFresh-append j key flag ((name, old) ∷ rest) (h, fresh) ne =
    (h, IsFresh-append j key flag rest fresh ne)

-- The keys of `rest` do not occur among `flags`.
abbrev AreNew : Dict Flag → Dict Flag → Type 0
AreNew flags rest = All (λ entry. IsFresh entry.0 flags) rest

AreNew-append :
    (key : String) (flag : Flag) (flags rest : Dict Flag)
    → IsFresh key rest
    → AreNew flags rest
    → AreNew (flags ++ (key, flag) ∷ []) rest
AreNew-append key flag flags [] fresh new = tt
AreNew-append key flag flags ((j, f) ∷ rest) (ne, fresh) (here, new) = (
  IsFresh-append j key flag flags here (λ e. ne (sym e)),
  AreNew-append key flag flags rest fresh new,
)

module _ (source : String) where
  lookup-collect_flag :
      (collector : Dict (Dict Flag)) (key : String) (flag : Flag)
      → lookup source (collect_flag collector (key, flag)) ≡ (
          if flag.source == source
          then some (insert key flag (flags_of (lookup source collector)))
          else lookup source collector)
  unfolding collect_flag
  lookup-collect_flag collector key flag = elim (Bool-cases (flag.source == source)) [
    | inl e ↦
        lookup-insert flag.source source (insert key flag (flags_of (lookup flag.source collector)))
          collector
        ∙ rw e (
            ap (λ k. some (insert key flag (flags_of (lookup k collector))))
              ((eq_iff flag.source source).0 e))
    | inr e ↦
        lookup-insert flag.source source (insert key flag (flags_of (lookup flag.source collector)))
          collector
        ∙ rw e refl
  ]

  foldl-collect_flag :
      (all : Dict Flag) (collector : Dict (Dict Flag))
      → HasDistinctKeys all
      → AreNew (flags_of (lookup source collector)) all
      → lookup source (foldl collect_flag collector all)
        ≡ gathered (lookup source collector) (only source all)
  unfolding only
  foldl-collect_flag [] collector distinct new = refl
  foldl-collect_flag ((key, flag) ∷ rest) collector (fresh, distinct) (here, new) =
      elim (Bool-cases (flag.source == source)) [
        | inl e ↦
            let flags = flags_of (lookup source collector) in
            let next : lookup source (collect_flag collector (key, flag))
                ≡ some (flags ++ (key, flag) ∷ []) =
              lookup-collect_flag collector key flag
              ∙ rw e (ap some (insert_of_IsFresh key flag flags here)) in
            foldl-collect_flag rest (collect_flag collector (key, flag)) distinct
              (rw next (AreNew-append key flag flags rest fresh new))
            ∙ rw (next, e)
                (gathered-some (flags ++ (key, flag) ∷ []) (only source rest)
                  ∙ ap some (append_assoc flags ((key, flag) ∷ []) (only source rest)))
        | inr e ↦
            let next : lookup source (collect_flag collector (key, flag))
                ≡ lookup source collector =
              lookup-collect_flag collector key flag ∙ rw e refl in
            foldl-collect_flag rest (collect_flag collector (key, flag)) distinct (rw next new)
            ∙ rw (next, e) refl
      ]

  -- The collected flags of a source are the source's flags; a source with none is left out.
  pub lookup-collect :
      (all : Dict Flag)
      → HasDistinctKeys all
      → lookup source (collect all) ≡ gathered none (only source all)
  unfolding collect lookup
  lookup-collect all distinct = foldl-collect_flag all [] distinct (everything all)
    where
      everything : (rest : Dict Flag) → AreNew [] rest
      everything [] = tt
      everything (entry ∷ rest) = (tt, everything rest)

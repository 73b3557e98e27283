-- ===== src/Evaluator/BulkValues.antt =====
-- `ResolveAllValues`: one value for each enabled flag, in the order of the loop.
use mathlib.Core.List.{foldl, append-nil, append_assoc}
use flagd.Prelude.{
  ℕ, true, false, none, some, List, [], ◌∷◌, ◌++◌, String, ◌==◌, ◌≡◌, ◌≢◌, ◌⊎◌, ◌∙◌, sym, ap, refl,
  inl, inr, arith, eq_iff, if◌then◌else◌, Bool-cases,
}
use flagd.Prelude.Tests.{All}
use flagd.Prelude.Dict.{Dict, lookup}
use flagd.Model.{GoMap, Value, entries, Flag}
use flagd.Evaluator.{
  IStore, Engine, Resolution, AnyValue, Bulk, Kind, disabled, default_kind, nothing, resolve,
  bulk_step, resolve_all_values,
}

module _ (e : Engine) (now : ℕ) (s : IStore) (context : GoMap Value) where
  -- A flag's own resolution, by the type of its default value.
  unfoldable own_resolution : Resolution → String → Flag → Resolution
  unfolding lookup
  own_resolution last flag_key flag =
      elim (default_kind (lookup flag.default_variant (entries flag.variants))) [
        | none ↦ last
        | some kind ↦ resolve e now s kind flag_key context
      ]

  unfoldable pub carried : Resolution → Dict Flag → List AnyValue
  unfolding own_resolution
  carried last [] = []
  carried last ((flag_key, flag) ∷ rest) =
      if flag.state == disabled
      then carried last rest
      else record { resolution = own_resolution last flag_key flag; flag_key = flag_key }
        ∷ carried (own_resolution last flag_key flag) rest

  bulk_step-disabled :
      (b : Bulk) (flag_key : String) (flag : Flag)
      → (flag.state == disabled) ≡ true
      → bulk_step e now s context b (flag_key, flag) ≡ b
  unfolding bulk_step
  bulk_step-disabled b flag_key flag d = rw d refl

  bulk_step-enabled :
      (b : Bulk) (flag_key : String) (flag : Flag)
      → (flag.state == disabled) ≡ false
      → bulk_step e now s context b (flag_key, flag) ≡ (record {
        values =
            b.values
            ++ record { resolution = own_resolution b.last flag_key flag; flag_key = flag_key }
              ∷ [];
        last = own_resolution b.last flag_key flag;
      })
  unfolding bulk_step own_resolution
  bulk_step-enabled b flag_key flag d = rw d refl

  foldl-bulk_step :
      (flags : Dict Flag) (b : Bulk)
      → (foldl (bulk_step e now s context) b flags).values ≡ b.values ++ carried b.last flags
  unfolding carried
  foldl-bulk_step [] b = sym (append-nil b.values)
  foldl-bulk_step ((flag_key, flag) ∷ rest) b = elim (Bool-cases (flag.state == disabled)) [
    | inl d ↦
        ap (λ c. (foldl (bulk_step e now s context) c rest).values)
          (bulk_step-disabled b flag_key flag d)
        ∙ foldl-bulk_step rest b
        ∙ rw d refl
    | inr d ↦
        ap (λ c. (foldl (bulk_step e now s context) c rest).values)
          (bulk_step-enabled b flag_key flag d)
        ∙ foldl-bulk_step rest _
        ∙ append_assoc b.values _ _
        ∙ rw d refl
  ]

  pub resolve_all_values-carried :
      (flags : Dict Flag)
      → s.get_all.0 ≡ some flags
      → resolve_all_values e now s context ≡ (some (carried nothing flags), s.get_all.1)
  unfolding resolve_all_values
  resolve_all_values-carried flags h =
      let start : Bulk = record { values = []; last = nothing } in
      ground (arith, h, foldl-bulk_step flags start)

  -- One value for each enabled flag: its own resolution, for the type of its default value.
  unfoldable pub own_values : Dict Flag → List AnyValue
  unfolding lookup
  own_values [] = []
  own_values ((flag_key, flag) ∷ rest) =
      if flag.state == disabled
      then own_values rest
      else elim (default_kind (lookup flag.default_variant (entries flag.variants))) [
        | none ↦ own_values rest
        | some kind ↦
            record { resolution = resolve e now s kind flag_key context; flag_key = flag_key }
            ∷ own_values rest
      ]

  -- The default variant of an enabled flag is a Boolean, a text, a number or an object.
  abbrev pub HasTypedDefault : String × Flag → Type 0
  HasTypedDefault (flag_key, flag) =
      (flag.state ≡ disabled)
      ⊎ ((kind : Kind) × (default_kind (lookup flag.default_variant (entries flag.variants))
            ≡ some kind))

  carried-own_values :
      (last : Resolution) (flags : Dict Flag)
      → All HasTypedDefault flags
      → carried last flags ≡ own_values flags
  unfolding carried own_values own_resolution
  carried-own_values last [] h = refl
  carried-own_values last ((flag_key, flag) ∷ rest) (inl d, hs) =
      ground (arith, d, eq_iff flag.state disabled, carried-own_values last rest hs)
  carried-own_values last ((flag_key, flag) ∷ rest) (inr (kind, k), hs) = ground (
    arith,
    k,
    carried-own_values last rest hs,
    carried-own_values (resolve e now s kind flag_key context) rest hs,
  )

  -- If the default variant of every enabled flag of the store is a Boolean, a text, a number or an
  -- object, bulk evaluation returns exactly one value for each enabled flag, in the order in which
  -- the loop meets them, each the flag's own resolution for the type of its default value, together
  -- with the metadata of the flag set.
  pub resolve_all_values-own_values :
      (flags : Dict Flag)
      → s.get_all.0 ≡ some flags
      → All HasTypedDefault flags
      → resolve_all_values e now s context ≡ (some (own_values flags), s.get_all.1)
  resolve_all_values-own_values flags h typed =
      resolve_all_values-carried flags h
      ∙ ap (λ values. (some values, s.get_all.1)) (carried-own_values nothing flags typed)

  carried-repeat :
      (last : Resolution) (after : Dict Flag) (key1 key2 : String) (flag1 flag2 : Flag)
      (kind : Kind)
      → flag1.state ≢ disabled
      → flag2.state ≢ disabled
      → default_kind (lookup flag1.default_variant (entries flag1.variants)) ≡ some kind
      → default_kind (lookup flag2.default_variant (entries flag2.variants)) ≡ none
      → carried last ((key1, flag1) ∷ (key2, flag2) ∷ after)
        ≡ record { resolution = resolve e now s kind key1 context; flag_key = key1 }
          ∷ record { resolution = resolve e now s kind key1 context; flag_key = key2 }
          ∷ carried (resolve e now s kind key1 context) after
  unfolding carried own_resolution
  carried-repeat last after key1 key2 flag1 flag2 kind d1 d2 k1 k2 =
      ground (arith, k1, k2, d1, d2, eq_iff flag1.state disabled, eq_iff flag2.state disabled)

  append-carried :
      (before after : Dict Flag) (last : Resolution)
      → (front : List AnyValue) × (r : Resolution) × (carried last (before ++ after)
          ≡ front ++ carried r after)
  unfolding carried
  append-carried [] after last = ([], last, refl)
  append-carried ((flag_key, flag) ∷ rest) after last = elim (Bool-cases (flag.state == disabled)) [
    | inl d ↦ let (front, r, p) = append-carried rest after last in (front, r, rw d p)
    | inr d ↦
        let (front, r, p) = append-carried rest after (own_resolution last flag_key flag) in
        (
          record { resolution = own_resolution last flag_key flag; flag_key = flag_key } ∷ front,
          r,
          rw d (
              ap
                (λ l.
                  record { resolution = own_resolution last flag_key flag; flag_key = flag_key }
                  ∷ l)
                p),
        )
  ]

  -- In bulk evaluation, an enabled flag whose default variant is missing, null or an array takes the
  -- value, variant, reason, metadata and error of the flag before it, if that one is enabled and has
  -- a typed default: the variables of the loop are not reset.
  resolve_all_values-repeat :
      (before after : Dict Flag) (key1 key2 : String) (flag1 flag2 : Flag) (kind : Kind)
      → s.get_all.0 ≡ some (before ++ (key1, flag1) ∷ (key2, flag2) ∷ after)
      → flag1.state ≢ disabled
      → flag2.state ≢ disabled
      → default_kind (lookup flag1.default_variant (entries flag1.variants)) ≡ some kind
      → default_kind (lookup flag2.default_variant (entries flag2.variants)) ≡ none
      → (front rest : List AnyValue) × ((resolve_all_values e now s context).0
          ≡ some (
              front
              ++ record { resolution = resolve e now s kind key1 context; flag_key = key1 }
                ∷ record { resolution = resolve e now s kind key1 context; flag_key = key2 }
                ∷ rest))
  resolve_all_values-repeat before after key1 key2 flag1 flag2 kind h d1 d2 k1 k2 =
      let flags = before ++ (key1, flag1) ∷ (key2, flag2) ∷ after in
      let (front, r, p) = append-carried before ((key1, flag1) ∷ (key2, flag2) ∷ after) nothing in
      (
        front,
        carried (resolve e now s kind key1 context) after,
        ap (λ result. result.0) (resolve_all_values-carried flags h)
            ∙ ap some (
                p
                ∙ ap (λ l. front ++ l)
                    (carried-repeat r after key1 key2 flag1 flag2 kind d1 d2 k1 k2)),
      )

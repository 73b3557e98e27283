-- ===== src/Connect/Listed.antt =====
-- The flags of a response to all, next to the responses to each of them.
use flagd.Prelude.{
  ℕ, Option, none, some, [], ◌∷◌, String, ◌==◌, ◌≡◌, ◌≢◌, ◌⊎◌, inl, inr, refl, sym, ap, ◌∙◌, arith,
  eq_iff, Bool-cases, if◌then◌else◌,
}
use flagd.Prelude.Tests.{All}
use flagd.Prelude.Dict.{Dict, lookup, HasDistinctKeys, lookup_of_IsFresh}
use flagd.Model.{Value, GoMap, entries, Flag}
use flagd.Evaluator.{
  Engine, IStore, Kind, boolean, string, float, object, any, disabled, default_kind, resolve,
}
use flagd.Evaluator.BulkValues.{own_values, resolve_all_values-own_values, HasTypedDefault}
use flagd.Ofrep.{Headers}
use flagd.Connect.Typed.{
  default_kind-typed, flag_of, respond-flag_of, resolve-IsTyped, add_flag-going,
}
use flagd.Connect.{
  AnyFlag, going, AllFlags, answered, all_fails, all_panics, ServiceError, uncoded, switch_value,
  respond, add_flags, write_all, merge_contexts, resolve_boolean, resolve_string, resolve_float,
  resolve_object, resolve_all,
}

-- A flag of the response to all.
abbrev pub listed : {Struct : Type 0} → AllFlags Struct → String → Option (AnyFlag Struct)
unfolding lookup
listed (answered flags metadata) key = lookup key flags
listed all_fails key = none
listed all_panics key = none

module _ {Struct : Type 0} (new_struct : Dict Value → Option Struct) (make : Dict Value → Struct)
    (made : (m : Dict Value) → new_struct m ≡ some (make m)) (e : Engine) (now : ℕ) (s : IStore)
    (context : GoMap Value) where
  -- What the loop makes of an entry, by the flag that the store has for it.
  abbrev entry : String → Option (AnyFlag Struct) → Option Flag → Option (AnyFlag Struct)
  unfolding lookup
  entry key old none = old
  entry key old (some flag) =
      if flag.state == disabled
      then old
      else elim (default_kind (lookup flag.default_variant (entries flag.variants))) [
        | none ↦ old
        | some kind ↦ some (flag_of new_struct make made (resolve e now s kind key context))
      ]

  add_flags-own_values :
      (flags : Dict Flag) (before : Dict (AnyFlag Struct))
      → All (HasTypedDefault e now s context) flags
      → HasDistinctKeys flags
      → (after : Dict (AnyFlag Struct)) × (add_flags new_struct before
            (own_values e now s context flags)
          ≡ going after)
        × ((wanted : String)
            → lookup wanted after ≡ entry wanted (lookup wanted before) (lookup wanted flags))
  unfolding add_flags own_values lookup
  add_flags-own_values [] before h distinct = (before, refl, λ wanted. refl)
  add_flags-own_values ((key, flag) ∷ rest) before (inl d, h) (fresh, distinct) =
      let (after, p, q) = add_flags-own_values rest before h distinct in
      (
        after,
        ground (arith, p, d, eq_iff flag.state disabled),
        (λ wanted. ground (
          arith,
          q wanted,
          d,
          eq_iff flag.state disabled,
          eq_iff key wanted,
          lookup_of_IsFresh key rest fresh,
        )),
      )
  add_flags-own_values ((key, flag) ∷ rest) before (inr (kind, k), h) (fresh, distinct) =
      elim (Bool-cases (flag.state == disabled)) [
        | inl d ↦
            let (after, p, q) = add_flags-own_values rest before h distinct in
            (
              after,
              ground (arith, p, d),
              (λ wanted.
                  ground (arith, q wanted, d, eq_iff key wanted, lookup_of_IsFresh key rest fresh)),
            )
        | inr d ↦
            let r = resolve e now s kind key context in
            let t =
              resolve-IsTyped new_struct make made e now s kind key context
                (λ z. default_kind-typed _ (k ∙ ap some z)) in
            let (more, p, q) = add_flag-going new_struct make made before key r t in
            let (after, p', q') = add_flags-own_values rest more h distinct in
            (
              after,
              ground (arith, p, p', d, k),
              (λ wanted. ground (
                arith,
                q wanted,
                q' wanted,
                d,
                k,
                eq_iff key wanted,
                lookup_of_IsFresh key rest fresh,
              )),
            )
      ]

-- The method for the type of a flag's default value, which is never `any`.
unfoldable pub resolve_by :
    {Struct : Type 0} (new_struct : Dict Value → Option Struct) (e : Engine) (now : ℕ) (s : IStore)
    (static : Dict Value) (mappings : Dict String)
    → Kind
    → String
    → Dict Value
    → Headers
    → ServiceError ⊎ AnyFlag Struct
unfolding resolve_boolean resolve_string resolve_float resolve_object
resolve_by new_struct e now s static mappings boolean =
    resolve_boolean new_struct e now s static mappings
resolve_by new_struct e now s static mappings string =
    resolve_string new_struct e now s static mappings
resolve_by new_struct e now s static mappings float =
    resolve_float new_struct e now s static mappings
resolve_by new_struct e now s static mappings object =
    resolve_object new_struct e now s static mappings
resolve_by new_struct e now s static mappings any = λ key request headers. inl (uncoded "")

resolve_by-respond :
    {Struct : Type 0} (new_struct : Dict Value → Option Struct) (e : Engine) (now : ℕ) (s : IStore)
    (static : Dict Value) (mappings : Dict String) (kind : Kind) (key : String)
    (request : Dict Value) (headers : Headers)
    → kind ≢ any
    → let r = resolve e now s kind key (some (merge_contexts request static headers mappings)) in
      resolve_by new_struct e now s static mappings kind key request headers
      ≡ respond new_struct (switch_value new_struct r.value r.error) r
unfolding resolve_by
resolve_by-respond new_struct e now s static mappings boolean key request headers n = refl
resolve_by-respond new_struct e now s static mappings string key request headers n = refl
resolve_by-respond new_struct e now s static mappings float key request headers n = refl
resolve_by-respond new_struct e now s static mappings object key request headers n = refl
resolve_by-respond new_struct e now s static mappings any key request headers n = absurd (n refl)

-- A struct is made of every map, and the default variant of each enabled flag of the store is a
-- Boolean, a text, a number or an object. Then, if the method for the type of an enabled flag's
-- default value answers a request with a response, the answer to a request for all flags with the
-- same context and headers has that response under the flag's key.
pub resolve_all-resolve_by :
    {Struct : Type 0} (new_struct : Dict Value → Option Struct) (make : Dict Value → Struct)
    (made : (m : Dict Value) → new_struct m ≡ some (make m)) (e : Engine) (now : ℕ) (s : IStore)
    (static : Dict Value) (mappings : Dict String) (request : Dict Value) (headers : Headers)
    (flags : Dict Flag) (key : String) (flag : Flag) (kind : Kind) (response : AnyFlag Struct)
    → s.get_all.0 ≡ some flags
    → HasDistinctKeys flags
    → All (HasTypedDefault e now s (some (merge_contexts request static headers mappings))) flags
    → lookup key flags ≡ some flag
    → flag.state ≢ disabled
    → default_kind (lookup flag.default_variant (entries flag.variants)) ≡ some kind
    → resolve_by new_struct e now s static mappings kind key request headers ≡ inr response
    → listed (resolve_all new_struct e now s static mappings request headers) key ≡ some response
unfolding resolve_all write_all
resolve_all-resolve_by new_struct make made e now s static mappings request headers flags key flag
      kind response stored distinct typed_flags found enabled k h =
    let context = some (merge_contexts request static headers mappings) in
    let n : kind ≢ any = (λ z. default_kind-typed _ (k ∙ ap some z)) in
    let r = resolve e now s kind key context in
    let (after, p, q) =
      add_flags-own_values new_struct make made e now s context flags [] typed_flags distinct in
    let same =
      respond-flag_of new_struct make made r response
        (resolve-IsTyped new_struct make made e now s kind key context n)
        (sym (resolve_by-respond new_struct e now s static mappings kind key request headers n)
          ∙ h) in
    ap (λ a. listed (write_all new_struct a) key)
      (resolve_all_values-own_values e now s context flags stored typed_flags)
    ∙ ground
        (arith, p, q key, found, enabled, k, same, made s.get_all.1, eq_iff flag.state disabled)

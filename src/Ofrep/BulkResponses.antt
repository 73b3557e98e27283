-- ===== src/Ofrep/BulkResponses.antt =====
-- A bulk evaluation next to the single evaluations of its flags.
use flagd.Prelude.{
  ℕ, true, false, Option, none, some, List, [], ◌∷◌, map, String, ◌==◌, ◌≡◌, ◌≢◌, ◌⊎◌, refl, inl,
  inr, arith, eq_iff, ap, ◌∙◌, Bool-cases, Option-cases, if◌then◌else◌,
}
use flagd.Prelude.Tests.{All}
use flagd.Prelude.Dict.{Dict, lookup}
use flagd.Model.{
  Value, null, bool, str, num, arr, obj, GoMap, entries, Flag, type_mismatch_error_code,
}
use flagd.Evaluator.{
  Engine, IStore, Kind, boolean, string, float, object, any, AnyValue, disabled, default_kind,
  has_kind, evaluate_variant, assert_kind, resolve, resolve_as_any_value,
}
use flagd.Evaluator.BulkValues.{own_values, resolve_all_values-own_values, HasTypedDefault}
use flagd.Ofrep.{
  Payload, bulk, FlagResponse, Headers, decoded, flagd_context, reply,
  bulk_evaluation_response_from, write_json_to_response, write_bulk, handle_bulk_evaluation,
}

module _ (e : Engine) (now : ℕ) (s : IStore) (context : GoMap Value) where
  -- What a single evaluation answers for each enabled flag.
  unfoldable pub single_responses : Dict Flag → List FlagResponse
  unfolding resolve_as_any_value
  single_responses [] = []
  single_responses ((flag_key, flag) ∷ rest) =
      if flag.state == disabled
      then single_responses rest
      else (reply (resolve_as_any_value e now s flag_key context)).1 ∷ single_responses rest

  -- The flag is disabled, or its default variant is a Boolean, a text, a number or an object, and
  -- its variant for the context has that type too, if it gets one.
  abbrev pub IsOfOneType : String × Flag → Type 0
  IsOfOneType (flag_key, flag) =
      (flag.state ≡ disabled)
      ⊎ ((kind : Kind) × (default_kind (lookup flag.default_variant (entries flag.variants))
            ≡ some kind)
          × ((resolve e now s kind flag_key context).error ≢ some type_mismatch_error_code))

  HasTypedDefault-of_IsOfOneType :
      (flags : Dict Flag) → All IsOfOneType flags → All (HasTypedDefault e now s context) flags
  HasTypedDefault-of_IsOfOneType [] h = tt
  HasTypedDefault-of_IsOfOneType ((flag_key, flag) ∷ rest) (inl d, h) =
      (inl d, HasTypedDefault-of_IsOfOneType rest h)
  HasTypedDefault-of_IsOfOneType ((flag_key, flag) ∷ rest) (inr (kind, k, fits), h) =
      (inr (kind, k), HasTypedDefault-of_IsOfOneType rest h)

  -- A value with a type is not nil.
  has_kind-null : (kind : Kind) → has_kind kind null ≡ false
  has_kind-null boolean = refl
  has_kind-null string = refl
  has_kind-null float = refl
  has_kind-null object = refl
  has_kind-null any = refl

  has_kind-any : (kind : Kind) (v : Value) → has_kind kind v ≡ true → has_kind any v ≡ true
  has_kind-any kind null h = absurd (ground (arith, h, has_kind-null kind))
  has_kind-any kind (bool b) h = refl
  has_kind-any kind (str t) h = refl
  has_kind-any kind (num x) h = refl
  has_kind-any kind (arr vs) h = refl
  has_kind-any kind (obj fs) h = refl

  resolve-any :
      (kind : Kind) (flag_key : String)
      → (evaluate_variant e now s flag_key context).error ≡ none
      → (resolve e now s kind flag_key context).error ≢ some type_mismatch_error_code
      → resolve e now s kind flag_key context ≡ resolve e now s any flag_key context
  unfolding resolve assert_kind
  resolve-any kind flag_key n fits =
      let v = evaluate_variant e now s flag_key context in
      elim (Option-cases (lookup v.variant (entries v.variants))) [
        | inl m ↦ absurd (fits (ground (arith, n, m)))
        | inr (value, m) ↦ elim (Bool-cases (has_kind kind value)) [
          | inl typed ↦ ground (arith, n, m, typed, has_kind-any kind value typed)
          | inr untyped ↦ absurd (fits (ground (arith, n, m, untyped)))
        ]
      ]

  reply-failed :
      (kind : Kind) (flag_key code : String)
      → (evaluate_variant e now s flag_key context).error ≡ some code
      → reply (record { resolution = resolve e now s kind flag_key context; flag_key = flag_key })
        ≡ reply (record { resolution = resolve e now s any flag_key context; flag_key = flag_key })
  unfolding resolve reply
  reply-failed kind flag_key code n = ground (arith, n)

  reply-resolve :
      (kind : Kind) (flag_key : String)
      → (resolve e now s kind flag_key context).error ≢ some type_mismatch_error_code
      → reply (record { resolution = resolve e now s kind flag_key context; flag_key = flag_key })
        ≡ reply (resolve_as_any_value e now s flag_key context)
  unfolding resolve_as_any_value
  reply-resolve kind flag_key fits =
      elim (Option-cases (evaluate_variant e now s flag_key context).error) [
        | inl n ↦
            ap (λ r. reply (record { resolution = r; flag_key = flag_key }))
              (resolve-any kind flag_key n fits)
        | inr (code, n) ↦ reply-failed kind flag_key code n
      ]

  map-reply :
      (flags : Dict Flag)
      → All IsOfOneType flags
      → map (λ (v : AnyValue). (reply v).1) (own_values e now s context flags)
        ≡ single_responses flags
  unfolding own_values single_responses
  map-reply [] h = refl
  map-reply ((flag_key, flag) ∷ rest) (inl d, h) =
      ground (arith, d, eq_iff flag.state disabled, map-reply rest h)
  map-reply ((flag_key, flag) ∷ rest) (inr (kind, k, fits), h) =
      ground (arith, k, reply-resolve kind flag_key fits, map-reply rest h)

-- If each enabled flag of the store has a default variant that is a Boolean, a text, a number or an
-- object, and does not fail by a variant of another type, then for a bulk request whose body is read
-- the handler writes the status 200 and, for each enabled flag in the order of the loop, the
-- response that a single request for it gets.
pub handle_bulk_evaluation-single_responses :
    (marshal : Payload → Option String) (e : Engine) (now : ℕ) (s : IStore) (static : Dict Value)
    (mappings : Dict String) (id : String) (request : Value) (headers : Headers) (flags : Dict Flag)
    → s.get_all.0 ≡ some flags
    → All (IsOfOneType e now s (some (flagd_context request static headers mappings))) flags
    → handle_bulk_evaluation marshal e now s static mappings id (decoded request) headers
      ≡ write_json_to_response marshal 200 (
          bulk (record {
            flags =
                single_responses e now s
                  (some (flagd_context request static headers mappings))
                  flags;
            metadata = s.get_all.1;
          }))
unfolding handle_bulk_evaluation write_bulk bulk_evaluation_response_from
handle_bulk_evaluation-single_responses marshal e now s static mappings id request headers flags
      stored h =
    let context = some (flagd_context request static headers mappings) in
    ap (write_bulk marshal id) (
      resolve_all_values-own_values e now s context flags stored
        (HasTypedDefault-of_IsOfOneType e now s context flags h))
    ∙ ap
        (λ responses.
          write_json_to_response marshal 200
            (bulk (record { flags = responses; metadata = s.get_all.1 })))
        (map-reply e now s context flags h)

-- ===== src/Connect/Typed.antt =====
-- The values that the methods of one flag type give, and what a turn of the loop over all flags
-- makes of them, when a struct is made of every map.
use flagd.Prelude.{
  ℕ, true, Option, none, some, [], String, ◌==◌, ◌≡◌, ◌≢◌, inl, inr, refl, arith, eq_refl,
  Bool-cases, Option-cases, if◌then◌else◌,
}
use flagd.Prelude.Dict.{Dict, lookup, insert, lookup-insert}
use flagd.Model.{type_mismatch_error_code, Value, null, bool, str, num, arr, obj, GoMap, entries}
use flagd.Evaluator.{
  Engine, IStore, Kind, boolean, string, float, object, any, Resolution, default_kind, has_kind,
  evaluate_variant, assert_kind, resolve, zero_value,
}
use flagd.Ofrep.{members}
use flagd.Connect.{
  FlagValue, bool_value, string_value, double_value, object_value, AnyFlag, typed, going,
  switch_value, any_flag, set_result, respond, set_metadata, add_flag,
}

pub default_kind-typed : (v : Option Value) → default_kind v ≢ some any
default_kind-typed none h = ground (arith, h)
default_kind-typed (some null) h = ground (arith, h)
default_kind-typed (some (bool b)) h = ground (arith, h)
default_kind-typed (some (str s)) h = ground (arith, h)
default_kind-typed (some (num x)) h = ground (arith, h)
default_kind-typed (some (arr items)) h = ground (arith, h)
default_kind-typed (some (obj fs)) h = ground (arith, h)

module _ {Struct : Type 0} (new_struct : Dict Value → Option Struct) (make : Dict Value → Struct)
    (made : (m : Dict Value) → new_struct m ≡ some (make m)) where
  abbrev pub value_of : Value → FlagValue Struct
  value_of (bool b) = bool_value b
  value_of (str s) = string_value s
  value_of (num x) = double_value x
  value_of (obj fs) = object_value (make (members fs))
  value_of null = object_value (make [])
  value_of (arr items) = object_value (make [])

  abbrev pub flag_of : Resolution → AnyFlag Struct
  flag_of r = record (any_flag (value_of r.value) r) { metadata = some (make r.metadata) }

  abbrev pub IsTyped : Resolution → Type 0
  IsTyped r = switch_value new_struct r.value r.error ≡ typed (value_of r.value)

  pub respond-flag_of :
      (r : Resolution) (response : AnyFlag Struct)
      → IsTyped r
      → respond new_struct (switch_value new_struct r.value r.error) r ≡ inr response
      → response ≡ flag_of r
  unfolding respond set_result
  respond-flag_of r response t h = ground (arith, t, h, made r.metadata)

  zero_value-IsTyped :
      (kind : Kind) (code : String)
      → switch_value new_struct (zero_value kind) (some code) ≡ typed (value_of (zero_value kind))
  unfolding switch_value
  zero_value-IsTyped boolean code = refl
  zero_value-IsTyped string code = refl
  zero_value-IsTyped float code = refl
  zero_value-IsTyped object code = ground (arith, made [])
  zero_value-IsTyped any code = ground (arith, made [])

  has_kind-typed :
      (kind : Kind) (value : Value)
      → kind ≢ any
      → has_kind kind value ≡ true
      → switch_value new_struct value none ≡ typed (value_of value)
  unfolding switch_value
  has_kind-typed kind (bool b) n h = refl
  has_kind-typed kind (str s) n h = refl
  has_kind-typed kind (num x) n h = refl
  has_kind-typed kind (obj fs) n h = ground (arith, made (members fs))
  has_kind-typed boolean null n h = ground (arith, h)
  has_kind-typed string null n h = ground (arith, h)
  has_kind-typed float null n h = ground (arith, h)
  has_kind-typed object null n h = ground (arith, h)
  has_kind-typed any null n h = absurd (n refl)
  has_kind-typed boolean (arr items) n h = ground (arith, h)
  has_kind-typed string (arr items) n h = ground (arith, h)
  has_kind-typed float (arr items) n h = ground (arith, h)
  has_kind-typed object (arr items) n h = ground (arith, h)
  has_kind-typed any (arr items) n h = absurd (n refl)

  pub resolve-IsTyped :
      (e : Engine) (now : ℕ) (s : IStore) (kind : Kind) (key : String) (context : GoMap Value)
      → kind ≢ any
      → IsTyped (resolve e now s kind key context)
  unfolding resolve assert_kind
  resolve-IsTyped e now s kind key context n =
      let v = evaluate_variant e now s key context in
      elim (Option-cases v.error) [
        | inr (code, err) ↦ ground (arith, err, zero_value-IsTyped kind code)
        | inl err ↦ elim (Option-cases (lookup v.variant (entries v.variants))) [
          | inl m ↦ ground (arith, err, m, zero_value-IsTyped kind type_mismatch_error_code)
          | inr (value, m) ↦ elim (Bool-cases (has_kind kind value)) [
            | inl has ↦ ground (arith, err, m, has, has_kind-typed kind value n has)
            | inr lacks ↦
                ground (arith, err, m, lacks, zero_value-IsTyped kind type_mismatch_error_code)
          ]
        ]
      ]

  -- A turn of the loop with a typed value puts its flag in.
  pub add_flag-going :
      (flags : Dict (AnyFlag Struct)) (key : String) (r : Resolution)
      → IsTyped r
      → (more : Dict (AnyFlag Struct)) × (add_flag new_struct flags
            (record { resolution = r; flag_key = key })
          ≡ going more)
        × ((wanted : String)
            → lookup wanted more
              ≡ (if key == wanted then some (flag_of r) else lookup wanted flags))
  unfolding add_flag set_metadata
  add_flag-going flags key r t =
      let first = insert key (any_flag (value_of r.value) r) flags in
      let found : lookup key first ≡ some (any_flag (value_of r.value) r) =
        ground (arith, lookup-insert key key (any_flag (value_of r.value) r) flags, eq_refl key) in
      (
        insert key (flag_of r) first,
        ground (arith, t, found, made r.metadata),
        (λ wanted. ground (
          arith,
          lookup-insert key wanted (flag_of r) first,
          lookup-insert key wanted (any_flag (value_of r.value) r) flags,
        )),
      )

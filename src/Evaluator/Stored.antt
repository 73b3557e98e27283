-- ===== src/Evaluator/Stored.antt =====
-- The resolver over the store: a well-formed store answers for every enabled flag without a rule.
use flagd.Prelude.{
  ℕ, none, some, String, ◌≡◌, ◌≢◌, ◌∙◌, inl, inr, true, false, arith, eq_iff, refl, Option-cases,
}
use flagd.Prelude.Dict.{lookup}
use flagd.Model.{static_reason, Metadata, Flag, GoMap, Value, entries}
use flagd.Store.{MemDb, Store, get, get_all, selector_for_flag}
use flagd.Evaluator.{
  IStore, Engine, Kind, disabled, has_targeting, has_kind, chosen, flag_metadata, evaluate_flag,
  evaluate_variant, assert_kind, resolve,
}
use flagd.Evaluator.Resolve.{evaluate_variant-evaluate_flag, resolve-assert_kind}
use flagd.Evaluator.WellFormed.{IsWellFormed}

-- The evaluator's view of the store; `GetAll` of the store never fails.
unfoldable pub as_istore : (m : MemDb) → Store m → IStore
unfolding get get_all selector_for_flag
as_istore m s = record {
  get_all = (some (get_all m s).0, (get_all m s).1);
  get = get m s;
  selector_for_flag = selector_for_flag m s;
}

get-stored :
    (m : MemDb) (s : Store m) (k : String) (flag : Flag)
    → m.first s.db k ≡ some flag
    → (get m s k).0 ≡ some flag
unfolding get
get-stored m s k flag found = ground (arith, found)

evaluate_flag-static :
    (e : Engine) (now : ℕ) (s : IStore) (flag_key : String) (flag : Flag) (metadata : Metadata)
    (context : GoMap Value)
    → flag.state ≢ disabled
    → has_targeting flag.targeting ≡ false
    → flag.default_variant ≢ ""
    → evaluate_flag e now s flag_key flag metadata context
      ≡ chosen flag metadata flag.default_variant static_reason
unfolding evaluate_flag
evaluate_flag-static e now s flag_key flag metadata context enabled free named =
    ground (arith, enabled, free, named, eq_iff flag.state disabled, eq_iff flag.default_variant "")

evaluate_variant-static :
    (e : Engine) (now : ℕ) (m : MemDb) (s : Store m) (flag_key : String) (flag : Flag)
    (context : GoMap Value)
    → m.first s.db flag_key ≡ some flag
    → flag.state ≢ disabled
    → has_targeting flag.targeting ≡ false
    → flag.default_variant ≢ ""
    → evaluate_variant e now (as_istore m s) flag_key context
      ≡ chosen flag
          (flag_metadata (as_istore m s) flag (get m s flag_key).1)
          flag.default_variant
          static_reason
unfolding as_istore get
evaluate_variant-static e now m s flag_key flag context found enabled free named =
    evaluate_variant-evaluate_flag e now (as_istore m s) flag_key context flag
      (get-stored m s flag_key flag found)
    ∙ evaluate_flag-static e now (as_istore m s) flag_key flag
        (flag_metadata (as_istore m s) flag (get m s flag_key).1) context enabled free named

pub assert_kind-chosen :
    (e : Engine) (now : ℕ) (s : IStore) (kind : Kind) (flag : Flag) (metadata : Metadata)
    (variant reason : String) (value : Value)
    → lookup variant (entries flag.variants) ≡ some value
    → has_kind kind value ≡ true
    → assert_kind e now s kind (chosen flag metadata variant reason) ≡ record {
      value = value;
      variant = variant;
      reason = reason;
      metadata = metadata;
      error = none;
    }
unfolding assert_kind
assert_kind-chosen e now s kind flag metadata variant reason value found typed =
    ground (arith, found, typed)

-- In a well-formed store, a stored flag that is enabled, has no rule and has a default variant whose
-- value is of the type asked for, resolves to that variant with the reason STATIC.
pub resolve-static :
    (e : Engine) (now : ℕ) (m : MemDb) (s : Store m) (context : GoMap Value) (kind : Kind)
    (flag_key : String) (flag : Flag)
    → IsWellFormed m s
    → m.first s.db flag_key ≡ some flag
    → flag.state ≢ disabled
    → has_targeting flag.targeting ≡ false
    → flag.default_variant ≢ ""
    → ((value : Value)
        → lookup flag.default_variant (entries flag.variants) ≡ some value
        → has_kind kind value ≡ true)
    → (value : Value) × (lookup flag.default_variant (entries flag.variants) ≡ some value)
      × (resolve e now (as_istore m s) kind flag_key context ≡ record {
        value = value;
        variant = flag.default_variant;
        reason = static_reason;
        metadata = flag_metadata (as_istore m s) flag (get m s flag_key).1;
        error = none;
      })
resolve-static e now m s context kind flag_key flag ok found enabled free named typed =
    elim (Option-cases (lookup flag.default_variant (entries flag.variants))) [
      | inl n ↦
          absurd (elim (ok flag_key flag found) [ inl q ↦ named q | inr q ↦ ground (arith, n, q) ])
      | inr (value, n) ↦
          let v =
            evaluate_variant-static e now m s flag_key flag context found enabled free named in
          (
            value,
            n,
            resolve-assert_kind e now (as_istore m s) flag_key context kind (rw v refl)
                ∙ rw v (
                    assert_kind-chosen e now (as_istore m s) kind flag
                      (flag_metadata (as_istore m s) flag (get m s flag_key).1) flag.default_variant
                      static_reason value n (typed value n)),
          )
    ]

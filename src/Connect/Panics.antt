-- ===== src/Connect/Panics.antt =====
-- When `ResolveAll` writes to an entry that is not there.
use flagd.Prelude.{
  ℕ, Option, none, some, List, [], ◌∷◌, ◌++◌, String, ◌≡◌, ◌≢◌, ap, ◌∙◌, arith, eq_iff,
}
use flagd.Prelude.Tests.{All}
use flagd.Prelude.Dict.{Dict, lookup}
use flagd.Model.{Value, GoMap, entries, Flag}
use flagd.Evaluator.{Engine, IStore, AnyValue, disabled, default_kind, nothing}
use flagd.Evaluator.BulkValues.{carried, resolve_all_values-carried}
use flagd.Ofrep.{Headers}
use flagd.Connect.{panics, all_panics, add_flags, write_all, merge_contexts, resolve_all}

abbrev pub IsDisabled : String × Flag → Type 0
IsDisabled (flag_key, flag) = flag.state ≡ disabled

-- The values start with that of no resolution.
carried-disabled :
    (e : Engine) (now : ℕ) (s : IStore) (context : GoMap Value) (before after : Dict Flag)
    (key : String) (flag : Flag)
    → All IsDisabled before
    → flag.state ≢ disabled
    → default_kind (lookup flag.default_variant (entries flag.variants)) ≡ none
    → carried e now s context nothing (before ++ (key, flag) ∷ after)
      ≡ record { resolution = nothing; flag_key = key } ∷ carried e now s context nothing after
unfolding carried
carried-disabled e now s context [] after key flag h enabled k =
    ground (arith, enabled, k, eq_iff flag.state disabled)
carried-disabled e now s context ((other, skipped) ∷ rest) after key flag (d, h) enabled k =
    ground (
      arith,
      d,
      eq_iff skipped.state disabled,
      carried-disabled e now s context rest after key flag h enabled k,
    )

add_flags-panics :
    {Struct : Type 0} (new_struct : Dict Value → Option Struct) (made : Struct) (key : String)
    (rest : List AnyValue)
    → new_struct [] ≡ some made
    → add_flags new_struct [] (record { resolution = nothing; flag_key = key } ∷ rest) ≡ panics
unfolding add_flags lookup
add_flags-panics new_struct made key rest h = ground (arith, h)

-- When the first enabled flag that the loop meets has a default variant that is missing, null or an
-- array, and an empty struct can be made, `ResolveAll` dereferences a nil pointer, whatever the
-- request is.
pub resolve_all_panics :
    {Struct : Type 0} (new_struct : Dict Value → Option Struct) (made : Struct) (e : Engine)
    (now : ℕ) (s : IStore) (static : Dict Value) (mappings : Dict String) (request : Dict Value)
    (headers : Headers) (before after : Dict Flag) (key : String) (flag : Flag)
    → new_struct [] ≡ some made
    → s.get_all.0 ≡ some (before ++ (key, flag) ∷ after)
    → All IsDisabled before
    → flag.state ≢ disabled
    → default_kind (lookup flag.default_variant (entries flag.variants)) ≡ none
    → resolve_all new_struct e now s static mappings request headers ≡ all_panics
unfolding resolve_all write_all
resolve_all_panics new_struct made e now s static mappings request headers before after key flag
      empty stored h enabled k =
    let context = some (merge_contexts request static headers mappings) in
    let values = carried e now s context nothing after in
    ap (write_all new_struct)
      (resolve_all_values-carried e now s context (before ++ (key, flag) ∷ after) stored)
    ∙ ap (λ l. write_all new_struct (some l, s.get_all.1))
        (carried-disabled e now s context before after key flag h enabled k)
    ∙ ground (arith, add_flags-panics new_struct made key values empty)

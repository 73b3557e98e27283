-- ===== src/Connect/Tests.antt =====
-- Requests for the flags of the evaluator's tests; a struct is a map.
use flagd.Prelude.{true, Option, none, some, [], ◌∷◌, ◌≡◌, inl, inr, refl}
use flagd.Prelude.Dict.{Dict, lookup}
use flagd.Model.{Value, str, pos}
use flagd.Evaluator.{boolean, float, resolve}
use flagd.Evaluator.Text.{trim_space, remove_quotes}
use flagd.Evaluator.Tests.{
  engine, greet, odd, with_flags, all_flags, typed_flags, typed_distinct, enabled_state,
}
use flagd.Connect.{
  AnyFlag, all_panics, bool_value, int_value, coded, uncoded, not_found, err_format,
  resolve_boolean, resolve_int, resolve_all, resolve_all_old,
}
use flagd.Connect.Listed.{listed, resolve_by, resolve_all-resolve_by}
use flagd.Connect.Panics.{resolve_all_panics}

abbrev new_struct : Dict Value → Option (Dict Value)
new_struct m = some m

abbrev request : Dict Value
request = ("region", str "eu") ∷ []

abbrev greeting : AnyFlag (Dict Value)
greeting = record {
  reason = "TARGETING_MATCH";
  variant = "on";
  value = bool_value true;
  metadata = some [];
}

program : Unit {0}
unfolding resolve_all resolve_all_old resolve_boolean resolve_int resolve_by resolve with_flags
    trim_space remove_quotes lookup
program = tt

runs :
    (resolve_boolean new_struct engine 7 (with_flags all_flags) [] [] "greet" request []
      ≡ inr greeting)
    × (resolve_boolean new_struct engine 7 (with_flags all_flags) [] [] "odd" request []
        ≡ inl (coded not_found "Flag not found"))
    × (resolve_int new_struct engine 7 (with_flags all_flags) [] [] "size" request []
        ≡ inr (record {
          reason = "STATIC";
          variant = "big";
          value = int_value (pos 2);
          metadata = some [];
        }))
    × (listed
          (resolve_all_old new_struct engine 7 (with_flags typed_flags) [] [] request [])
          "greet"
        ≡ some (record greeting { metadata = none }))
    × (err_format "INVALID_CONTEXT" ≡ uncoded "INVALID_CONTEXT")
unfolding program
runs = (refl, refl, refl, refl, refl)

resolve_all-resolve_by_example :
    listed (resolve_all new_struct engine 7 (with_flags typed_flags) [] [] request []) "greet"
    ≡ some greeting
unfolding program
resolve_all-resolve_by_example =
    resolve_all-resolve_by new_struct (λ m. m) (λ m. refl) engine 7 (with_flags typed_flags) [] []
      request [] typed_flags "greet" greet boolean greeting refl typed_distinct
      (inr (boolean, refl), (inr (float, refl), tt)) refl enabled_state refl refl

resolve_all_panics_example :
    resolve_all new_struct engine 7 (with_flags (("odd", odd) ∷ typed_flags)) [] [] request []
    ≡ all_panics
unfolding program
resolve_all_panics_example =
    resolve_all_panics new_struct [] engine 7 (with_flags (("odd", odd) ∷ typed_flags)) [] []
      request [] [] typed_flags "odd" odd refl refl tt enabled_state refl

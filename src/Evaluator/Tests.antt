-- ===== src/Evaluator/Tests.antt =====
-- The resolver on three flags: one with a rule, one with a number, one without a default variant.
use flagd.Prelude.{
  ◌^◌, Bool, subst, none, some, [], ◌∷◌, String, Option, ◌≡◌, ◌≢◌, ◌⊎◌, refl, true, false, inr,
  arith, eq_iff,
}
use flagd.Prelude.Dict.{Dict, lookup, HasDistinctKeys}
use flagd.Model.{
  targeting_match_reason, pos, Float64, Flag, no_flag, Value, bool, num, entries, error_reason,
  static_reason, flag_not_found_error_code, truncate,
}
use flagd.Store.{Store, get}
use flagd.Store.ListDb.{list_db}
use flagd.Evaluator.Text.{trim_space, remove_quotes}
use flagd.Evaluator.{
  IStore, Engine, boolean, float, disabled, has_kind, is_int64, resolve, resolve_int_value,
  resolve_all_values, flag_metadata,
}
use flagd.Evaluator.Resolve.{Reasoned, resolve-ok}
use flagd.Evaluator.Failure.{resolve-error}
use flagd.Evaluator.BulkValues.{own_values, resolve_all_values-own_values}
use flagd.Evaluator.Integer.{IsTruncated, resolve_int_value-IsTruncated}
use flagd.Evaluator.Config.{DataSync, Definition, Parser, set_state}
use flagd.Evaluator.WellFormed.{IsWellFormed, set_state-IsWellFormed}
use flagd.Evaluator.Stored.{as_istore, resolve-static}

abbrev pub engine : Engine
engine = record {
  marshal = λ c. some "{}";
  apply = λ rule context. some " \"on\"\n";
  out_of_range = λ x. pos 0;
}

abbrev pub greet : Flag
greet = record no_flag {
  state = "ENABLED";
  default_variant = "off";
  variants = some (("on", bool true) ∷ ("off", bool false) ∷ []);
  targeting = some "[\"on\"]";
}

abbrev size : Flag
size = record no_flag {
  state = "ENABLED";
  default_variant = "big";
  variants = some (("big", num (record { significand = pos 5; fraction_bits = 1 })) ∷ []);
}

abbrev pub odd : Flag
odd = record no_flag { state = "ENABLED" }

abbrev pub all_flags : Dict Flag
all_flags = ("greet", greet) ∷ ("size", size) ∷ ("odd", odd) ∷ []

abbrev pub typed_flags : Dict Flag
typed_flags = ("greet", greet) ∷ ("size", size) ∷ []

unfoldable pub with_flags : Dict Flag → IStore
unfolding lookup
with_flags flags = record {
  get_all = (some flags, []);
  get = λ k. (lookup k flags, []);
  selector_for_flag = λ f. "";
}

run : Unit {0}
unfolding resolve resolve_int_value resolve_all_values with_flags trim_space remove_quotes
    own_values as_istore
run = tt

resolve-ok_example :
    (flag : Flag) × ((lookup "greet" all_flags) ≡ some flag)
    × Reasoned engine 7
        (with_flags all_flags)
        "greet"
        none
        flag
        (resolve engine 7 (with_flags all_flags) boolean "greet" none).variant
        (resolve engine 7 (with_flags all_flags) boolean "greet" none).reason
    × (lookup
          (resolve engine 7 (with_flags all_flags) boolean "greet" none).variant
          (entries flag.variants)
        ≡ some (resolve engine 7 (with_flags all_flags) boolean "greet" none).value)
    × (has_kind boolean (resolve engine 7 (with_flags all_flags) boolean "greet" none).value ≡ true)
unfolding run
resolve-ok_example = resolve-ok engine 7 (with_flags all_flags) "greet" none boolean refl

greeted : (resolve engine 7 (with_flags all_flags) boolean "greet" none).value ≡ bool true
unfolding run
greeted = refl

resolve-error_example :
    ((resolve engine 7 (with_flags all_flags) boolean "odd" none).value ≡ bool false)
    × ((resolve engine 7 (with_flags all_flags) boolean "odd" none).reason ≡ error_reason)
unfolding run
resolve-error_example =
    resolve-error engine 7 (with_flags all_flags) "odd" none boolean flag_not_found_error_code refl

resolve_int_value-IsTruncated_example :
    (x : Float64) × ((resolve_int_value engine 7 (with_flags all_flags) "size" none).1.value
      ≡ num x)
    × ((is_int64 (truncate x) ≡ false)
        ⊎ IsTruncated
            (resolve_int_value engine 7 (with_flags all_flags) "size" none).0
            x.significand
            (2 ^ x.fraction_bits))
unfolding run
resolve_int_value-IsTruncated_example =
    resolve_int_value-IsTruncated engine 7 (with_flags all_flags) "size" none refl

two : (resolve_int_value engine 7 (with_flags all_flags) "size" none).0 ≡ pos 2
unfolding run truncate
two = refl

resolve_all_values-own_values_example :
    resolve_all_values engine 7 (with_flags typed_flags) none
    ≡ (some (own_values engine 7 (with_flags typed_flags) none typed_flags), [])
unfolding run
resolve_all_values-own_values_example =
    resolve_all_values-own_values engine 7 (with_flags typed_flags) none typed_flags refl
      (inr (boolean, refl), (inr (float, refl), tt))

pub enabled_state : ◌≢◌ {A = String} "ENABLED" disabled
enabled_state = ground (arith, eq_iff "ENABLED" disabled)

abbrev flags_of : Option Definition → Dict Flag
flags_of none = []
flags_of (some d) = d.flags

pub typed_distinct : HasDistinctKeys typed_flags
typed_distinct = ((ground (arith, eq_iff "greet" "size"), tt), (tt, tt))

-- A parser that reads each text as the flags above; no evaluators.
abbrev parser : Parser
parser = record {
  unmarshal_evaluators = λ text. some [];
  unmarshal_definition = λ text. some (record { flags = typed_flags; metadata = none });
  replace_references = λ name. none;
  flags-HasDistinctKeys = λ text d e. subst (λ o. HasDistinctKeys (flags_of o)) e typed_distinct;
}

abbrev empty : Store list_db
unfolding list_db
empty = record {
  db = [];
  flag_sources = "file" ∷ [];
  source_details = [];
  metadata_per_source = [];
}

abbrev payload : DataSync
payload = record { flag_data = "{}"; source = "file"; selector = "" }

abbrev loaded : Store list_db
unfolding set_state empty
loaded = (set_state parser list_db empty payload).0

set_state-IsWellFormed_example : IsWellFormed list_db (set_state parser list_db empty payload).0
unfolding set_state list_db
set_state-IsWellFormed_example =
    set_state-IsWellFormed parser list_db empty payload (λ k flag e. absurd (ground (arith, e)))

abbrev has_kind_opt : Option Value → Bool
has_kind_opt none = false
has_kind_opt (some value) = has_kind float value

typed_big :
    (value : Value)
    → lookup "big" (entries size.variants) ≡ some value
    → has_kind float value ≡ true
unfolding lookup
typed_big value e = subst (λ o. has_kind_opt o ≡ true) e refl

resolve-static_example :
    (value : Value) × (lookup "big" (entries size.variants) ≡ some value)
    × (resolve engine 7 (as_istore list_db loaded) float "size" none ≡ record {
      value = value;
      variant = "big";
      reason = static_reason;
      metadata =
          flag_metadata
            (as_istore list_db loaded)
            (record size { key = "size"; source = "file" })
            (get list_db loaded "size").1;
      error = none;
    })
unfolding loaded list_db
resolve-static_example =
    resolve-static engine 7 list_db loaded none float "size"
      (record size { key = "size"; source = "file" })
      (set_state-IsWellFormed parser list_db empty payload (λ k flag e. absurd (ground (arith, e))))
      refl enabled_state refl (ground (arith, eq_iff "big" "")) (λ value e. typed_big value e)

-- The rule gives a variant in quotes and white space.
targeted : resolve engine 7 (with_flags all_flags) boolean "greet" none ≡ record {
  value = bool true;
  variant = "on";
  reason = targeting_match_reason;
  metadata = [];
  error = none;
}
unfolding run
targeted = refl

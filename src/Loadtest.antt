-- ===== src/Loadtest.antt =====
-- test/loadtest/sample_k6.js, the load test, and test/loadtest/ff_gen.go, which makes the flags that
-- it asks for. `Math.random()` is `numerator / denominator`, below one. How a number is printed
-- (`decimal`) and what the random choices are (`pick`) is left open.
pub mod Requests
pub mod Tests
use flagd.Prelude.{
  ℕ, zero, suc, ◌+◌, ◌*◌, ◌/◌, Bool, true, false, Option, none, some, List, [], ◌∷◌, String, ◌==◌,
  if◌then◌else◌, eqb,
}
use flagd.Prelude.Dict.{Dict, insert}
use flagd.Model.{Value, bool, str}
use Prim.Native.String.{◌++◌ as ◌<>◌}

abbrev pub prefix : String
prefix = "flag"

-- `customOptions`
abbrev pub ff_count : ℕ
ff_count = 100

abbrev pub flag_type : String
flag_type = "boolean"

unfoldable pub gen_url : String → Option String
gen_url kind =
    if kind == "boolean"
    then some "http://localhost:8013/flagd.evaluation.v1.Service/ResolveBoolean"
    else if kind == "string"
    then some "http://localhost:8013/flagd.evaluation.v1.Service/ResolveString"
    else none

pub record Request : Type 0 where
  pub url : Option String
  pub flag_key : String

pub record GeneratedFlag : Type 0 where
  pub state : String
  pub default_variant : String
  pub variants : Dict Value

module _ (decimal : ℕ → String) where
  -- One iteration of the default function; the context is empty.
  unfoldable pub iteration : ℕ → ℕ → Request
  unfolding gen_url
  iteration numerator denominator = record {
    url = gen_url flag_type;
    flag_key = prefix <> decimal (numerator * ff_count / denominator);
  }

  -- A response other than 200 is reported with the flag's key and the printed body.
  unfoldable pub report : Request → ℕ → String → Option String
  report request status body =
      if eqb status 200
      then none
      else some ("Error response - FlagId : " <> request.flag_key <> " Response :" <> body)

module _ (decimal : ℕ → String) (pick : ℕ → Bool) where
  bool_flag : ℕ → GeneratedFlag
  bool_flag i = record {
    state = "ENABLED";
    default_variant = if pick i then "on" else "off";
    variants = ("on", bool true) ∷ ("off", bool false) ∷ [];
  }

  string_flag : ℕ → GeneratedFlag
  string_flag i = record {
    state = "ENABLED";
    default_variant = if pick i then "key1" else "key2";
    variants = ("key1", str "value1") ∷ ("key2", str "value2") ∷ [];
  }

  -- The loops over `i`, with the rounds left.
  generate : (ℕ → GeneratedFlag) → ℕ → ℕ → Dict GeneratedFlag → Dict GeneratedFlag
  generate make i zero flags = flags
  generate make i (suc rounds) flags =
      generate make (i + 1) rounds (insert ("flag" <> decimal i) (make i) flags)

  unfoldable pub set_bool_flags : ℕ → Dict GeneratedFlag
  unfolding generate bool_flag insert
  set_bool_flags count = generate bool_flag 0 count []

  unfoldable pub set_string_flags : ℕ → Dict GeneratedFlag
  unfolding generate string_flag insert
  set_string_flags count = generate string_flag 0 count []

  -- `main`: an unknown type falls back to `boolean`.
  unfoldable pub generate_flags : String → ℕ → Dict GeneratedFlag
  unfolding set_bool_flags set_string_flags
  generate_flags kind count =
      if kind == "string" then set_string_flags count else set_bool_flags count

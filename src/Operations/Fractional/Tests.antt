-- ===== src/Operations/Fractional/Tests.antt =====
-- Two variants of one half each, over hashes that are given, in arithmetic with six decimal places
-- that knows no numbers below zero.
use native.Mathlib.Nat.{zero-div, mul-zero}
use flagd.Prelude.{ℕ, ◌*◌, ◌/◌, ◌+◌, ltb, none, String, ◌==◌, ◌≡◌, ◌⊎◌, refl, arith, if◌then◌else◌}
use flagd.Model.{
  Value, null, str, num, arr, obj, no_items, item, no_fields, field, ℤ, pos, negsuc, truncate,
}
use flagd.Operations.Fractional.{Floats, Hashing, evaluate}
use flagd.Operations.Fractional.Pick.{ListsIn, evaluate-Lists}

abbrev from_int : ℤ → ℕ
from_int (pos n) = n * 1000000
from_int (negsuc n) = 0

abbrev decimals : Floats
decimals = record {
  Float = ℕ;
  of_int = from_int;
  abs = λ a. a;
  mul = λ a b. (a * b) / 1000000;
  div = λ a b. (a * 1000000) / b;
  add = λ a b. a + b;
  less = λ a b. ltb a b;
  IsZero = λ z. z ≡ 0;
  of_int-IsZero = refl;
  mul-IsZero = λ n z e. rw (e, mul-zero (from_int n)) refl;
  div-IsZero = λ z n e nz. rw e (zero-div (from_int n));
  less-add = λ a b z e. ground (arith, e);
  less-abs = λ a. ground arith;
  less-mul = λ a n e. ground arith;
  less-div = λ a n e. ground arith;
}

-- The hash of `low` is a quarter of the greatest, that of `top` the greatest.
abbrev hashing : Hashing
hashing = record {
  string_sum32 = λ value. if value == "low" then pos 536870912 else pos 2147483647;
  flag_key = λ properties. none;
  out_of_range = λ x. pos 0;
}

abbrev half : String → Value
half name =
    arr (item (str name) (item (num (record { significand = pos 50; fraction_bits = 0 })) no_items))

abbrev halves : String → Value
halves key = arr (item (str key) (item (half "red") (item (half "blue") no_items)))

-- The second rule takes the targeting key for the value.
abbrev bare : Value
bare = arr (item (half "red") (item (half "blue") no_items))

abbrev keyed : Value
keyed = obj (field "targetingKey" (str "low") no_fields)

-- The value with the greatest hash gets no variant.
runs :
    (evaluate hashing decimals (halves "low") keyed ≡ str "red")
    × (evaluate hashing decimals bare keyed ≡ str "red")
    × (evaluate hashing decimals bare (obj no_fields) ≡ null)
    × (evaluate hashing decimals (halves "top") keyed ≡ str "")
    × (evaluate hashing decimals (half "red") null ≡ null)
unfolding evaluate truncate
runs = (refl, refl, refl, refl, refl)

evaluate-Lists_example :
    (evaluate hashing decimals (halves "low") keyed ≡ null)
    ⊎ (evaluate hashing decimals (halves "low") keyed ≡ str "")
    ⊎ ((name : String) × (evaluate hashing decimals (halves "low") keyed ≡ str name)
        × ListsIn hashing (halves "low") name)
evaluate-Lists_example = evaluate-Lists hashing decimals (halves "low") keyed

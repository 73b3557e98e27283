-- ===== src/Evaluator/Integer.antt =====
-- `ResolveIntValue`: the number of the flag, its fraction cut off.
use native.Mathlib.Nat.{div-mul-le_self, lt-div-mul-add, two-pow-succ}
use flagd.Prelude.{
  ℕ, zero, suc, refl, ◌⊎◌, inl, inr, Bool-cases, false, ◌+◌, ◌*◌, ◌/◌, ◌^◌, ◌≤◌, ◌<◌, none, some,
  String, ◌≡◌, true, arith,
}
use flagd.Model.{
  ℤ, pos, negsuc, neg, Float64, Value, num, GoMap, truncate, truncate_by, error_reason,
}
use flagd.Evaluator.{
  IStore, Engine, float, is_int64, has_kind, to_int64, resolve, resolve_int_value,
}
use flagd.Evaluator.Resolve.{resolve-ok}
use flagd.Evaluator.Failure.{resolve-error}

-- `r` is `s / d` without its fraction: towards zero, and less than one away.
abbrev pub IsTruncated : (r s : ℤ) (d : ℕ) → Type 0
IsTruncated (pos q) (pos n) d = (q * d ≤ n) × (n < (q + 1) * d)
IsTruncated (pos q) (negsuc n) d = (q ≡ 0) × (suc n < d)
IsTruncated (negsuc q) (pos n) d = ⊥
IsTruncated (negsuc q) (negsuc n) d = ((q + 1) * d ≤ suc n) × (suc n < (q + 2) * d)

below : (n d : ℕ) → 0 < d → (n / d * d ≤ n) × (n < (n / d + 1) * d)
below n d h = (div-mul-le_self n d, ground (arith, lt-div-mul-add {a = n} h))

neg-IsTruncated :
    (q n d : ℕ) → (q * d ≤ suc n) × (suc n < (q + 1) * d) → IsTruncated (neg q) (negsuc n) d
neg-IsTruncated zero n d h = (refl, ground (arith, h))
neg-IsTruncated (suc q) n d h = (ground (arith, h), ground (arith, h))

truncate_by-IsTruncated : (s : ℤ) (d : ℕ) → 0 < d → IsTruncated (truncate_by s d) s d
truncate_by-IsTruncated (pos n) d h = below n d h
truncate_by-IsTruncated (negsuc n) d h = neg-IsTruncated (suc n / d) n d (below (suc n) d h)

two_pow_positive : (b : ℕ) → 0 < 2 ^ b
two_pow_positive zero = ground arith
two_pow_positive (suc b) = ground (arith, two_pow_positive b, two-pow-succ b)

truncate-IsTruncated : (x : Float64) → IsTruncated (truncate x) x.significand (2 ^ x.fraction_bits)
unfolding truncate
truncate-IsTruncated x =
    truncate_by-IsTruncated x.significand (2 ^ x.fraction_bits) (two_pow_positive x.fraction_bits)

module _ (e : Engine) (now : ℕ) (s : IStore) (flag_key : String) (context : GoMap Value) where
  has_float : (v : Value) → has_kind float v ≡ true → (x : Float64) × (v ≡ num x)
  has_float (num x) h = (x, refl)
  has_float v h = absurd (ground (arith, h))

  fits :
      (x : Float64)
      → (is_int64 (truncate x) ≡ false)
        ⊎ IsTruncated (to_int64 e now s (num x)) x.significand (2 ^ x.fraction_bits)
  fits x = elim (Bool-cases (is_int64 (truncate x))) [
    | inl n ↦ inr (rw n (truncate-IsTruncated x))
    | inr n ↦ inl n
  ]

  -- If a flag resolves to a number, `ResolveIntValue` returns it without its fraction (towards zero,
  -- less than one away), unless the result does not fit into an int64.
  pub resolve_int_value-IsTruncated :
      (resolve_int_value e now s flag_key context).1.error ≡ none
      → (x : Float64) × ((resolve_int_value e now s flag_key context).1.value ≡ num x)
        × ((is_int64 (truncate x) ≡ false)
            ⊎ IsTruncated
                (resolve_int_value e now s flag_key context).0
                x.significand
                (2 ^ x.fraction_bits))
  unfolding resolve_int_value
  resolve_int_value-IsTruncated h =
      let (flag, found, why, at_variant, typed) = resolve-ok e now s flag_key context float h in
      let (x, v) = has_float (resolve e now s float flag_key context).value typed in
      (x, v, rw v (fits x))

  -- If `ResolveIntValue` fails, its value is 0 and its reason is ERROR.
  resolve_int_value-error :
      (code : String)
      → (resolve_int_value e now s flag_key context).1.error ≡ some code
      → ((resolve_int_value e now s flag_key context).0 ≡ pos 0)
        × ((resolve_int_value e now s flag_key context).1.reason ≡ error_reason)
  unfolding resolve_int_value
  resolve_int_value-error code h =
      let (zeroed, why) = resolve-error e now s flag_key context float code h in
      (rw zeroed refl, why)

-- ===== src/Operations/Fractional.antt =====
-- core/pkg/evaluator/fractional.go: the operation `fractional` of the rules, which gives each hash
-- of a value one of the weighted variants. Logging is left out.
pub mod Pick
pub mod Tests
use Prim.Native.String.{◌++◌ as ◌<>◌}
use flagd.Prelude.{
  ℕ, zero, true, false, ◌+◌, ◌-◌, ◌%◌, ◌≡◌, ◌≢◌, ltb, Bool, Option, none, some, List, [], ◌∷◌,
  String, ◌==◌, if◌then◌else◌,
}
use flagd.Model.{
  Value, null, str, num, arr, obj, Items, no_items, item, Fields, no_fields, field, Float64, ℤ, pos,
  negsuc, truncate,
}
use flagd.Evaluator.{is_int64, flagd_properties_key}

-- `int` is 64 bits wide: an integer as a word, in two's complement, and back.
abbrev pub word : ℤ → ℕ
word (pos n) = n % 0x10000000000000000
word (negsuc n) = 0xffffffffffffffff - n % 0x10000000000000000

abbrev pub signed : ℕ → ℤ
signed w = if ltb w 0x8000000000000000 then pos w else negsuc (0xffffffffffffffff - w)

abbrev pub add_int : ℤ → ℤ → ℤ
add_int a b = signed ((word a + word b) % 0x10000000000000000)

abbrev pub is_zero : ℤ → Bool
is_zero (pos zero) = true
is_zero n = false

-- The arithmetic of float64, and what IEEE 754 says about a zero of either sign and about what is
-- not below zero.
pub record Floats : Type 1 where
  pub Float : Type 0
  pub of_int : ℤ → Float
  pub abs : Float → Float
  pub mul : Float → Float → Float
  pub div : Float → Float → Float
  pub add : Float → Float → Float
  pub less : Float → Float → Bool
  pub IsZero : Float → Type 0
  pub of_int-IsZero : IsZero (of_int (pos 0))
  pub mul-IsZero : (n : ℤ) (z : Float) → IsZero z → IsZero (mul (of_int n) z)
  pub div-IsZero : (z : Float) (n : ℤ) → IsZero z → n ≢ pos 0 → IsZero (div z (of_int n))
  pub less-add : (a b z : Float) → IsZero z → less a (add b z) ≡ less a b
  pub less-abs : (a : Float) → less (abs a) (of_int (pos 0)) ≡ false
  pub less-mul :
      (a : Float) (n : ℕ)
      → less a (of_int (pos 0)) ≡ false
      → less (mul a (of_int (pos n))) (of_int (pos 0)) ≡ false
  pub less-div :
      (a : Float) (n : ℕ)
      → less a (of_int (pos 0)) ≡ false
      → less (div a (of_int (pos n))) (of_int (pos 0)) ≡ false

-- The hash of github.com/twmb/murmur3 as an int32, the field `FlagKey` that `getFlagdProperties`
-- reads from a value by way of JSON (`none` is an error), and the conversion to int of a float64
-- that is out of its range.
pub record Hashing : Type 0 where
  pub string_sum32 : String → ℤ
  pub flag_key : Value → Option String
  pub out_of_range : Float64 → ℤ

pub record FractionalEvaluationVariant : Type 0 where
  pub variant : String
  pub weight : ℤ

pub record FractionalEvaluationDistribution : Type 0 where
  pub total_weight : ℤ
  pub weighted_variants : List FractionalEvaluationVariant

abbrev pub targeting_key_key : String
targeting_key_key = "targetingKey"

-- The entry of a map.
abbrev pub content : String → Fields → Option Value
content key no_fields = none
content key (field name v rest) = if name == key then some v else content key rest

module _ (h : Hashing) where
  -- `int(weight)`
  abbrev pub to_int : Float64 → ℤ
  to_int x = if is_int64 (truncate x) then truncate x else h.out_of_range x

  -- The weight after the name: one, unless a number says otherwise.
  abbrev pub weight_of : Items → ℤ
  weight_of (item (num x) rest) = to_int x
  weight_of rest = pos 1

  -- One element of the distributions; `none` is an error.
  abbrev pub parse_distribution : Value → Option FractionalEvaluationVariant
  parse_distribution (arr (item (str name) rest)) =
      some (record { variant = name; weight = weight_of rest })
  parse_distribution v = none

  -- The loop over the values, with the sum so far.
  unfoldable pub parse_from : ℤ → Items → Option FractionalEvaluationDistribution
  parse_from total no_items = some (record { total_weight = total; weighted_variants = [] })
  parse_from total (item v rest) = elim (parse_distribution v) [
    | none ↦ none
    | some w ↦ elim (parse_from (add_int total w.weight) rest) [
      | none ↦ none
      | some d ↦ some (record d { weighted_variants = w ∷ d.weighted_variants })
    ]
  ]

  unfoldable pub parse_fractional_evaluation_distributions :
      Items → Option FractionalEvaluationDistribution
  unfolding parse_from
  parse_fractional_evaluation_distributions values = parse_from (pos 0) values

  -- `properties.FlagKey`; an error leaves the empty text.
  abbrev pub key_of : Option Value → String
  key_of none = ""
  key_of (some properties) = elim (h.flag_key properties) [ none ↦ "" | some key ↦ key ]

  abbrev pub with_targeting_key : Fields → Option Value → Option String
  with_targeting_key data_map (some (str targeting_key)) =
      some (key_of (content flagd_properties_key data_map) <> targeting_key)
  with_targeting_key data_map v = none

  -- The value to distribute, and the values that are left.
  unfoldable pub bucket_by : Value → Items → Fields → Option String × Items
  bucket_by (str key) rest data_map = (some key, rest)
  bucket_by null rest data_map =
      (with_targeting_key data_map (content targeting_key_key data_map), rest)
  bucket_by v rest data_map =
      (with_targeting_key data_map (content targeting_key_key data_map), item v rest)

  unfoldable pub parse_fractional_evaluation_data :
      Value → Value → Option (String × FractionalEvaluationDistribution)
  unfolding bucket_by parse_fractional_evaluation_distributions
  parse_fractional_evaluation_data (arr (item v (item w rest))) (obj data_map) =
      elim (bucket_by v (item w rest) data_map).0 [
        | none ↦ none
        | some key ↦
            elim (parse_fractional_evaluation_distributions
              (bucket_by v (item w rest) data_map).1) [ none ↦ none | some d ↦ some (key, d) ]
      ]
  parse_fractional_evaluation_data values context = none

  module _ (f : Floats) where
    unfoldable pub get_percentage : FractionalEvaluationVariant → ℤ → f.Float
    get_percentage v total_weight =
        if is_zero total_weight
        then f.of_int (pos 0)
        else f.div (f.mul (f.of_int (pos 100)) (f.of_int v.weight)) (f.of_int total_weight)

    -- The loop of `distributeValue`, from a range's end on.
    unfoldable pub pick : f.Float → ℤ → f.Float → List FractionalEvaluationVariant → String
    unfolding get_percentage
    pick bucket total range_end [] = ""
    pick bucket total range_end (v ∷ rest) =
        let next = f.add range_end (get_percentage v total) in
        let later = pick bucket total next rest in if f.less bucket next then v.variant else later

    abbrev pub max_int32 : ℤ
    max_int32 = pos 0x7fffffff

    unfoldable pub distribute_value : String → FractionalEvaluationDistribution → String
    unfolding pick
    distribute_value value d =
        let hash_ratio = f.div (f.abs (f.of_int (h.string_sum32 value))) (f.of_int max_int32) in
        pick (f.mul hash_ratio (f.of_int (pos 100))) d.total_weight (f.of_int (pos 0))
          d.weighted_variants

    unfoldable pub evaluate : Value → Value → Value
    unfolding parse_fractional_evaluation_data distribute_value
    evaluate values context = elim (parse_fractional_evaluation_data values context) [
      | none ↦ null
      | some (value, d) ↦ str (distribute_value value d)
    ]

-- ===== src/Evaluator/Config.antt =====
-- How a sync payload enters the store: `SetState`, `configToFlagDefinition` and the `$evaluators` of
-- core/pkg/evaluator/json.go. The JSON schema only warns in the log, so it is left out.
use flagd.Prelude.{
  ℕ, ◌+◌, ltb, eqb, code, Option, none, some, [], ◌∷◌, String, ◌==◌, ◌⊎◌, inl, inr, Bool, false,
  ◌||◌, ◌≡◌, if◌then◌else◌,
}
use flagd.Prelude.Dict.{Dict, has, lookup, HasDistinctKeys}
use flagd.Model.{GoMap, Value, entries, Flag, Notification}
use flagd.Store.{MemDb, Store, update}

-- `sync.DataSync`
pub record DataSync : Type 0 where
  pub flag_data : String
  pub source : String
  pub selector : String

pub record Definition : Type 0 where
  pub flags : Dict Flag
  pub metadata : GoMap Value

-- The libraries that the code reads a configuration with: `json.Unmarshal` into `Evaluators` (each
-- evaluator as its raw text) and into `Definition`, a Go map with distinct keys, and the replacement
-- of each reference to an evaluator by the regular expression that is made from its name.
pub record Parser : Type 0 where
  pub unmarshal_evaluators : String → Option (Dict String)
  pub unmarshal_definition : String → Option Definition
  pub replace_references : String → Option (String → String → String)
  pub flags-HasDistinctKeys :
      (text : String) (d : Definition)
      → unmarshal_definition text ≡ some d
      → HasDistinctKeys d.flags

pub data ConfigError : Type 0 where
  transposing_unmarshal compile_regex evaluator_empty unmarshalling : ConfigError
  invalid_default_variant : String → String → ConfigError

-- The bytes of a text in UTF-8.
unfoldable pub byte_length : String → ℕ
byte_length String.[] = 0
byte_length (String.◌∷◌ c s) =
    (if ltb (code c) 0x80
      then 1
      else if ltb (code c) 0x800
      then 2
      else if ltb (code c) 0x10000
      then 3
      else 4)
    + byte_length s

abbrev contains : ℕ → String → Bool
contains wanted String.[] = false
contains wanted (String.◌∷◌ c s) = eqb (code c) wanted || contains wanted s

abbrev after_first : ℕ → String → String
after_first wanted String.[] = ""
after_first wanted (String.◌∷◌ c s) = if eqb (code c) wanted then s else after_first wanted s

abbrev before_last : ℕ → String → String
before_last wanted String.[] = ""
before_last wanted (String.◌∷◌ c s) =
    if contains wanted s
    then String.◌∷◌ c (before_last wanted s)
    else if eqb (code c) wanted
    then ""
    else String.◌∷◌ c (before_last wanted s)

-- `regBrace.ReplaceAllString(…, "")`: all up to the first opening brace goes, and all from the last
-- closing brace on.
unfoldable pub strip_braces : String → String
strip_braces s = before_last 125 (if contains 123 s then after_first 123 s else s)

-- The type of a result, or of the error in its place.
abbrev pub Result : Type 0 → Type 0
Result A = ConfigError ⊎ A

-- The first flag, in the order of the loop, whose default variant it does not have.
unfoldable pub validate_default_variants : Dict Flag → Option ConfigError
unfolding lookup
validate_default_variants [] = none
validate_default_variants ((name, flag) ∷ rest) =
    if flag.default_variant == ""
    then validate_default_variants rest
    else if has flag.default_variant (entries flag.variants)
    then validate_default_variants rest
    else some (invalid_default_variant flag.default_variant name)

module _ (p : Parser) where
  -- The loop over the evaluators.
  unfoldable pub transpose_loop : Dict String → String → Result String
  unfolding byte_length strip_braces
  transpose_loop [] state = inr state
  transpose_loop ((eval_name, eval_raw) ∷ rest) state = elim (p.replace_references eval_name) [
    | none ↦ inl compile_regex
    | some replace_all ↦
        if ltb (byte_length eval_raw) 3
        then inl evaluator_empty
        else transpose_loop rest (replace_all state (strip_braces eval_raw))
  ]

  unfoldable pub transpose_evaluators : String → Result String
  unfolding transpose_loop
  transpose_evaluators state = elim (p.unmarshal_evaluators state) [
    | none ↦ inl transposing_unmarshal
    | some evaluators ↦ transpose_loop evaluators state
  ]

  unfoldable pub unmarshal_valid : String → Result Definition
  unfolding validate_default_variants
  unmarshal_valid text = elim (p.unmarshal_definition text) [
    | none ↦ inl unmarshalling
    | some definition ↦ elim (validate_default_variants definition.flags) [
      | none ↦ inr definition
      | some err ↦ inl err
    ]
  ]

  unfoldable pub config_to_flag_definition : String → Result Definition
  unfolding transpose_evaluators unmarshal_valid
  config_to_flag_definition config = elim (transpose_evaluators config) [
    | inl err ↦ inl err
    | inr transposed ↦ unmarshal_valid transposed
  ]

  unfoldable pub set_state :
      (m : MemDb) → Store m → DataSync → Store m × Result (Dict Notification × Bool)
  unfolding config_to_flag_definition update
  set_state m s payload = elim (config_to_flag_definition payload.flag_data) [
    | inl err ↦ (s, inl err)
    | inr definition ↦
        let (s', events, resync) =
          update m payload.source payload.selector s definition.flags definition.metadata in
        (s', inr (events, resync))
  ]

-- ===== src/Convert.antt =====
-- core/pkg/utils/convert_to_json.go and yaml.go: the text of a source, by its format.
use flagd.Prelude.{
  ℕ, ◌+◌, leb, eqb, code, Bool, true, false, ◌&&◌, ◌||◌, Option, none, some, String, ◌==◌,
  if◌then◌else◌,
}

-- `mime.ParseMediaType`, and the reading of YAML with its printing as JSON; `none` is an error.
pub record Formats : Type 0 where
  pub parse_media_type : String → Option String
  pub unmarshal_yaml : String → Option String

abbrev between : ℕ → ℕ → ℕ → Bool
between low high c = leb low c && leb c high

abbrev is_alphanumeric : ℕ → Bool
is_alphanumeric c = between 48 57 c || between 65 90 c || between 97 122 c

-- `alphanumericRegex.ReplaceAllString(…, "")`
unfoldable pub alphanumeric : String → String
alphanumeric String.[] = ""
alphanumeric (String.◌∷◌ c s) =
    let rest = alphanumeric s in if is_alphanumeric (code c) then String.◌∷◌ c rest else rest

abbrev lower : ℕ → ℕ
lower c = if between 65 90 c then c + 32 else c

-- Whether a text is a name in lower case after `strings.ToLower`; the texts are of ASCII, as a
-- media type and what `alphanumeric` leaves are.
unfoldable pub is_named : (name text : String) → Bool
is_named String.[] String.[] = true
is_named String.[] (String.◌∷◌ d t) = false
is_named (String.◌∷◌ c s) String.[] = false
is_named (String.◌∷◌ c s) (String.◌∷◌ d t) = eqb (code c) (lower (code d)) && is_named s t

module _ (f : Formats) where
  unfoldable pub yaml_to_json : String → Option String
  yaml_to_json raw_file = if raw_file == "" then some "" else f.unmarshal_yaml raw_file

  unfoldable pub detected_type : (file_extension media_type : String) → Option String
  unfolding alphanumeric
  detected_type file_extension media_type =
      if file_extension == ""
      then f.parse_media_type media_type
      else some (alphanumeric file_extension)

  unfoldable pub convert_detected : (data_text detected : String) → Option String
  unfolding yaml_to_json is_named
  convert_detected data_text detected =
      if is_named "yaml" detected
        || is_named "yml" detected
        || is_named "application/yaml" detected
        || is_named "application/x-yaml" detected
      then yaml_to_json data_text
      else if is_named "json" detected || is_named "application/json" detected
      then some data_text
      else none

  unfoldable pub convert_to_json : (data_text file_extension media_type : String) → Option String
  unfolding detected_type convert_detected
  convert_to_json data_text file_extension media_type =
      elim (detected_type file_extension media_type) [
        | none ↦ none
        | some detected ↦ convert_detected data_text detected
      ]

-- ===== src/Playground/Sample.antt =====
-- A platform that meets the hypotheses: a JSON text is any text behind one character, and a core
-- holds the definition that it was given.
use flagd.Prelude.{
  ℕ, some, [], ◌∷◌, String, ◌==◌, ◌≡◌, ◌≢◌, refl, ap, true, ◌⊎◌, inl, inr, arith, if◌then◌else◌,
  eq_iff,
}
use flagd.Prelude.Dict.{Dict, lookup}
use flagd.Playground.{
  Outcome, value, thrown, returns, Kind, Platform, text, thunk, get_string, Scenario,
}
use flagd.Playground.Checked.{HasValidTemplates, accept}

abbrev parse : String → Outcome String
parse String.[] = thrown "Unexpected end of JSON input"
parse (String.◌∷◌ c s) = value s

abbrev print : String → String
print s = String.◌∷◌ "j" s

abbrev configure : String → String → Outcome String
configure s c = if s == "jbad" then thrown "invalid" else value s

abbrev respond : String → Kind → String → String → Outcome String
respond core kind key context = if key == "missing" then thrown "FLAG_NOT_FOUND" else value core

pub parse_empty : (d : String) → parse "" ≢ value d
parse_empty d h = cc

pub parse-print : (d : String) → Unit {0} → parse (print d) ≡ value d
parse-print d _ = refl

abbrev pub sample : Platform
sample = record {
  Data = String;
  parse = parse;
  stringify = print;
  pretty = print;
  parse_empty = parse_empty;
  IsJson = λ d. Unit;
  parse-stringify = parse-print;
  parse-pretty = parse-print;
  Core = String;
  empty_core = "";
  set_configurations = configure;
  flag_keys = λ c. c ∷ [];
  resolve = respond;
}

abbrev pub basic : Scenario
basic = record {
  description = "basic";
  flag_definition = text "jbasic";
  flag_key = "basic-boolean";
  return_type = "boolean";
  context = text "j{}";
}

abbrev pub timed : Scenario
timed = record {
  description = "timed";
  flag_definition = thunk (λ now. "jtimed");
  flag_key = "banner";
  return_type = "boolean";
  context = thunk (λ now. "j{}");
}

abbrev pub table : Dict Scenario
table = ("Basic", basic) ∷ ("Timed", timed) ∷ []

cases :
    (name : String) (template : Scenario)
    → lookup name table ≡ some template
    → (template ≡ basic) ⊎ (template ≡ timed)
unfolding lookup
cases name template h = ground (arith, eq_iff "Basic" name, eq_iff "Timed" name)

accepted :
    (template : Scenario) (now : ℕ) (c : String)
    → (template ≡ basic) ⊎ (template ≡ timed)
    → (c' : String) × (accept sample c (get_string now template.flag_definition) ≡ some c')
unfolding accept get_string
accepted template now c (inl e) =
    ("jbasic", ap (λ (t : Scenario). accept sample c (get_string now t.flag_definition)) e)
accepted template now c (inr e) =
    ("jtimed", ap (λ (t : Scenario). accept sample c (get_string now t.flag_definition)) e)

parsed :
    (template : Scenario) (now : ℕ)
    → (template ≡ basic) ⊎ (template ≡ timed)
    → returns (sample.parse (get_string now template.context)) ≡ true
unfolding get_string
parsed template now (inl e) =
    ap (λ (t : Scenario). returns (sample.parse (get_string now t.context))) e
parsed template now (inr e) =
    ap (λ (t : Scenario). returns (sample.parse (get_string now t.context))) e

pub table-HasValidTemplates : HasValidTemplates sample table
table-HasValidTemplates = record {
  definition = λ name template now c h. accepted template now c (cases name template h);
  context = λ name template now h. parsed template now (cases name template h);
}

-- ===== src/Evaluator/Text.antt =====
-- What json.go uses of Go's `strings`: `TrimSpace`, and `ReplaceAll` of the double quote.
use flagd.Prelude.{Bool, true, ◌&&◌, ◌||◌, String, code, ℕ, if◌then◌else◌, eqb, leb, ◌≡◌, refl}

-- `unicode.IsSpace`
unfoldable pub is_space : ℕ → Bool
is_space c =
    (leb 9 c && leb c 13)
    || eqb c 32
    || eqb c 0x85
    || eqb c 0xa0
    || eqb c 0x1680
    || (leb 0x2000 c && leb c 0x200a)
    || eqb c 0x2028
    || eqb c 0x2029
    || eqb c 0x202f
    || eqb c 0x205f
    || eqb c 0x3000

abbrev all_space : String → Bool
all_space String.[] = true
all_space (String.◌∷◌ c s) = is_space (code c) && all_space s

abbrev trim_left : String → String
trim_left String.[] = ""
trim_left (String.◌∷◌ c s) = if is_space (code c) then trim_left s else String.◌∷◌ c s

abbrev trim_right : String → String
trim_right String.[] = ""
trim_right (String.◌∷◌ c s) =
    if is_space (code c) && all_space s then "" else String.◌∷◌ c (trim_right s)

unfoldable pub trim_space : String → String
unfolding is_space
trim_space s = trim_right (trim_left s)

unfoldable pub remove_quotes : String → String
remove_quotes String.[] = ""
remove_quotes (String.◌∷◌ c s) =
    if eqb (code c) 34 then remove_quotes s else String.◌∷◌ c (remove_quotes s)

trimmed : trim_space " \"on\" " ≡ "\"on\""
unfolding trim_space
trimmed = refl

-- ===== src/Loadtest/Tests.antt =====
-- The load test with one way to print numbers.
use flagd.Prelude.{ℕ, true, some, String, ◌≡◌, refl, arith}
use flagd.Prelude.Dict.{lookup}
use flagd.Loadtest.{GeneratedFlag, gen_url, iteration, generate_flags}
use flagd.Loadtest.Requests.{IsBooleanFlag, iteration-generate_flags}

-- Unary digits keep the keys apart.
abbrev tally : ℕ → String
tally ℕ.zero = ""
tally (ℕ.suc n) = String.◌∷◌ "i" (tally n)

keys : (iteration tally 3 50).flag_key ≡ "flagiiiiii"
unfolding iteration
keys = refl

iteration-generate_flags_example :
    ((iteration tally 3 50).url ≡ gen_url "boolean")
    × ((f : GeneratedFlag) × (lookup
            (iteration tally 3 50).flag_key
            (generate_flags tally (λ i. true) "boolean" 100)
          ≡ some f)
        × IsBooleanFlag f)
iteration-generate_flags_example =
    iteration-generate_flags tally (λ i. true) 3 50 100 (omega arith) (omega arith)

-- ===== src/Rand/Runs.antt =====
-- A random string from concrete draws.
use gosrt.Common.{◌≡◌, refl, arith, some, [], ◌∷◌, All}
use gosrt.Crypto.Sample.{sample}
use gosrt.Rand.{alpha_numeric_charset, int63, random_string}
use gosrt.Rand.Charset.{Among, hits, ends, rolls, random_string-Rolls}

random_string-Rolls_example :
    (random_string sample 1 2 alpha_numeric_charset 5 ≡ some (some (51 ∷ 101 ∷ []), 7))
    × All (Among alpha_numeric_charset) (51 ∷ 101 ∷ [])
unfolding int63
random_string-Rolls_example =
    random_string-Rolls sample 1 alpha_numeric_charset (51 ∷ 101 ∷ []) 5 7 (omega arith)
      (omega arith) refl
      (rolls (hits refl (omega arith)) (omega arith)
        (rolls (hits refl (omega arith)) (omega arith) ends))

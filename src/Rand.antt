-- ===== src/Rand.antt =====
-- rand/rand.go, over the random source of crypto/rand. An int64 that is not negative is its number.
pub mod Charset
mod Runs
use gosrt.Common.{
  ℕ, zero, suc, ◌+◌, ◌*◌, ◌-◌, ◌%◌, ◌^◌, Option, none, some, List, [], ◌∷◌, ◌++◌, length, ltb, ◌==◌,
  if◌then◌else◌, sub64, bit_and,
}
use gosrt.Packet.Wire.{byte_at}
use gosrt.Packet.Wire
use gosrt.Crypto.{Primitives}

-- The letters and the digits.
abbrev run : ℕ → ℕ → List ℕ
run a zero = []
run a (suc n) = a ∷ run (suc a) n

abbrev pub alpha_numeric_charset : List ℕ
alpha_numeric_charset = run 97 26 ++ (run 65 26 ++ run 48 10)

-- The seven last bytes, and the low seven bits of the first.
abbrev pub big_endian_63 : List ℕ → ℕ
big_endian_63 b =
    bit_and (byte_at b 0) 0x7f * 2 ^ 56
    + byte_at b 1 * 2 ^ 48
    + byte_at b 2 * 2 ^ 40
    + byte_at b 3 * 2 ^ 32
    + Wire.uint32 b 4

-- The largest value with which a whole number of rounds of `n` ends.
abbrev pub max_int63 : ℕ → ℕ
max_int63 n = 2 ^ 63 - 1 - 2 ^ 63 % n

module _ (pr : Primitives) where
  open pr use {Random, read_random}

  unfoldable pub uint32 : Random → Option ℕ × Random
  uint32 r =
      let (b, r) = read_random r 4 in (elim b [ none ↦ none | some b ↦ some (Wire.uint32 b 0) ], r)

  unfoldable pub int63 : Random → Option ℕ × Random
  int63 r =
      let (b, r) = read_random r 8 in (elim b [ none ↦ none | some b ↦ some (big_endian_63 b) ], r)

  -- The draws of the loop, until one is at most `most`. `none` is fuel that ran out.
  unfoldable pub redraw : ℕ → ℕ → Option ℕ × Random → Option (Option ℕ × Random)
  redraw fuel most (none, r) = some (none, r)
  redraw zero most (some v, r) = none
  redraw (suc fuel) most (some v, r) =
      let rest = redraw fuel most (int63 r) in if ltb most v then rest else some (some v, r)

  -- `Int63n` for n above 0.
  unfoldable pub int63n : ℕ → ℕ → Random → Option (Option ℕ × Random)
  int63n fuel n r =
      if bit_and n (n - 1) == 0
      then (let (v, r) = int63 r in
          some (elim v [ none ↦ none | some v ↦ some (bit_and v (n - 1)) ], r))
      else elim (redraw fuel (max_int63 n) (int63 r)) [
        | none ↦ none
        | some (none, r) ↦ some (none, r)
        | some (some v, r) ↦ some (some (v % n), r)
      ]

  -- `RandomString` over a charset that is not empty.
  unfoldable pub random_string : ℕ → ℕ → List ℕ → Random → Option (Option (List ℕ) × Random)
  random_string fuel zero charset r = some (some [], r)
  random_string fuel (suc n) charset r = elim (int63n fuel (length charset) r) [
    | none ↦ none
    | some (none, r) ↦ some (none, r)
    | some (some j, r) ↦ elim (random_string fuel n charset r) [
      | none ↦ none
      | some (none, r) ↦ some (none, r)
      | some (some s, r) ↦ some (some (byte_at charset j ∷ s), r)
    ]
  ]

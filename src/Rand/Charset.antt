-- ===== src/Rand/Charset.antt =====
-- rand/rand.go: the strings that are made of a charset, over the numbers that the source gives.
use gosrt.Common.{
  ℕ, zero, suc, ◌+◌, ◌*◌, ◌/◌, ◌-◌, ◌^◌, ◌≤◌, ◌<◌, ◌≡◌, refl, arith, some, List, [], ◌∷◌, length,
  All, ◌==◌, ◌%◌, true, false, bit_and, ltb,
}
use native.Mathlib.Nat.{mod-lt, mod-add-div'}
use gosrt.Packet.Wire.{byte_at}
use gosrt.Crypto.{Primitives}
use gosrt.Rand.{max_int63, int63, redraw, int63n, random_string}

-- A byte of the charset.
abbrev pub Among : List ℕ → ℕ → Type 0
Among charset b = (j : ℕ) × (j < length charset) × (b ≡ byte_at charset j)

module _ (pr : Primitives) where
  open pr use {Random}

  -- After a number of draws that are thrown away, a value comes that lies below the largest multiple of
  -- `n` among the 63-bit numbers, so that each remainder stands for equally many of the values.
  pub data Draws (n : ℕ) : ℕ → ℕ → Random → Random → Type 0 where
    hits :
        {v : ℕ} {r r' : Random} → int63 pr r ≡ (some v, r') → v < 2 ^ 63 / n * n → Draws n 0 v r r'
    misses :
        {k v w : ℕ} {r r' r'' : Random}
        → int63 pr r ≡ (some v, r')
        → 2 ^ 63 / n * n ≤ v
        → Draws n k w r' r''
        → Draws n (suc k) w r r''

  -- Each byte is the one at the remainder of such a value, after fewer than `fuel` draws thrown away.
  pub data Rolls (charset : List ℕ) (fuel : ℕ) : Random → List ℕ → Random → Type 0 where
    ends : {r : Random} → Rolls charset fuel r [] r
    rolls :
        {k v : ℕ} {s : List ℕ} {r r' r'' : Random}
        → Draws (length charset) k v r r'
        → k < fuel
        → Rolls charset fuel r' s r''
        → Rolls charset fuel r (byte_at charset (v % length charset) ∷ s) r''

  bound_lem : (n : ℕ) → 1 ≤ n → n < 2 ^ 63 → max_int63 n + 1 ≡ 2 ^ 63 / n * n
  bound_lem n h b = omega (arith, mod-lt (2 ^ 63) h, mod-add-div' (2 ^ 63) n)

  redraw-Draws :
      (fuel n k v : ℕ) (r r' : Random)
      → 1 ≤ n
      → n < 2 ^ 63
      → k < fuel
      → Draws n k v r r'
      → redraw pr fuel (max_int63 n) (int63 pr r) ≡ some (some v, r')
  unfolding redraw
  redraw-Draws zero n k v r r' h b l d = absurd (omega arith)
  redraw-Draws (suc fuel) n k v r r' h b l (hits e i) =
      let t : (ltb (max_int63 n) v ≡ false) = ground (arith, i, bound_lem n h b) in rw (e, t) refl
  redraw-Draws (suc fuel) n k w r r' h b l (misses {v = v} {r' = s} e i d) =
      let t : (ltb (max_int63 n) v ≡ true) = ground (arith, i, bound_lem n h b) in
      rw (e, t) (redraw-Draws fuel n _ w s r' h b (omega arith) d)

  Rolls-Among :
      (fuel : ℕ) (charset s : List ℕ) (r r' : Random)
      → 1 ≤ length charset
      → Rolls charset fuel r s r'
      → All (Among charset) s
  Rolls-Among fuel charset s r r' h ends = tt
  Rolls-Among fuel charset s r r' h (rolls {v = v} {s = t} {r' = q} d l k) =
      ((v % length charset, mod-lt v h, refl), Rolls-Among fuel charset t q r' h k)

  int63n-Draws :
      (fuel n k v : ℕ) (r r' : Random)
      → 1 ≤ n
      → n < 2 ^ 63
      → (bit_and n (n - 1) == 0) ≡ false
      → k < fuel
      → Draws n k v r r'
      → int63n pr fuel n r ≡ some (some (v % n), r')
  unfolding int63n
  int63n-Draws fuel n k v r r' h b odd l d =
      rw (int63n, odd, redraw-Draws fuel n k v r r' h b l d) refl

  rolled :
      (fuel : ℕ) (charset s : List ℕ) (r r' : Random)
      → 1 ≤ length charset
      → length charset < 2 ^ 63
      → (bit_and (length charset) (length charset - 1) == 0) ≡ false
      → Rolls charset fuel r s r'
      → random_string pr fuel (length s) charset r ≡ some (some s, r')
  unfolding random_string
  rolled fuel charset s r r' h b odd ends = refl
  rolled fuel charset s r r' h b odd (rolls {k = j} {v = v} {s = t} {r' = q} d l k) =
      rw
        (
          random_string,
          int63n-Draws fuel (length charset) j v r q h b odd l d,
          rolled fuel charset t q r' h b odd k,
        )
        refl

  -- Over a charset whose length is above 0, below 2 ^ 63 and no power of two, where the source gives
  -- the numbers for a string with fewer than `fuel` draws thrown away for each byte, this string comes
  -- out, and the source is left behind those draws; each byte of it stands in the charset.
  pub random_string-Rolls :
      (fuel : ℕ) (charset s : List ℕ) (r r' : Random)
      → 1 ≤ length charset
      → length charset < 2 ^ 63
      → (bit_and (length charset) (length charset - 1) == 0) ≡ false
      → Rolls charset fuel r s r'
      → (random_string pr fuel (length s) charset r ≡ some (some s, r')) × All (Among charset) s
  random_string-Rolls fuel charset s r r' h b odd k =
      (rolled fuel charset s r r' h b odd k, Rolls-Among fuel charset s r r' h k)

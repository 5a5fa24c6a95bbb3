-- ===== src/Packet/Handshake/Panics.antt =====
-- When reading a handshake returns, and when it panics.
use gosrt.Common.{
  ℕ, suc, ◌%◌, ◌<◌, ◌≡◌, ◌≢◌, refl, arith, Bool, true, false, not, ◌||◌, Option, some, List, [],
  ◌∷◌, length, drop, ltb, leb, ◌==◌, if◌then◌else◌,
}
use gosrt.Packet.Wire.{Result, ok, err, panics, too_short, invalid_encryption_field, uint16, uint32}
use gosrt.Packet.Quiet.{quiet}
use gosrt.Packet.Handshake.{
  Handshake, hstype_conclusion, extensions, read_rest, fixed_fields, read_fixed, unmarshal,
}
use gosrt.Packet.Handshake.Loop.{Ends, extensions-Ends, drop-length}

if-Ends :
    (b t : Bool) (r : Result Handshake) (q : Option (Result Handshake))
    → quiet r ≡ true
    → (t ≡ false → Ends b q)
    → Ends b (if t then some r else q)
if-Ends b true r q h k = (r, refl, λ _. h)
if-Ends b false r q h k = k refl

rest-Ends :
    (h : Handshake) (d : List ℕ)
    → ltb (length d) 48 ≡ false
    → Ends (length d % 4 == 0) (read_rest d (ok h))
rest-Ends h d long =
    let f = h.encryption_field in
    let b = length d % 4 == 0 in
    let e = drop-length 48 d in
    if-Ends b (not (h.handshake_type == hstype_conclusion)) (ok h) _ refl (λ _.
      if-Ends b ((h.extension_field == 0) || leb (length d) 48) (ok h) _ refl (λ more.
        if-Ends b (not ((f == 0) || (f == 2) || (f == 3) || (f == 4)))
          (err invalid_encryption_field) _ refl
          (λ _.
            let (r, q, k) = extensions-Ends (length d) h (drop 48 d) (ground (arith, e)) in
            (r, q, λ w. k (ground (arith, e))))))

unmarshal-Ends : (c : Handshake) (d : List ℕ) → Ends (length d % 4 == 0) (unmarshal c d)
unfolding unmarshal read_fixed
unmarshal-Ends c d =
    if-Ends (length d % 4 == 0) (ltb (length d) 48) (err too_short) _ refl
      (λ long. rw long (rest-Ends (fixed_fields c d) d long))

-- Reading a handshake returns for any data: the fuel is enough.
pub unmarshal_returns :
    (c : Handshake) (d : List ℕ) → (r : Result Handshake) × (unmarshal c d ≡ some r)
unmarshal_returns c d = let (r, q, k) = unmarshal-Ends c d in (r, q)

-- On whole words reading a handshake returns a handshake or an error, and does not panic.
pub unmarshal-quiet_words :
    (c : Handshake) (d : List ℕ)
    → length d % 4 ≡ 0
    → (r : Result Handshake) × (unmarshal c d ≡ some r) × (quiet r ≡ true)
unmarshal-quiet_words c d w = let (r, q, k) = unmarshal-Ends c d in (r, q, k (ground (arith)))

short_loop :
    (fuel : ℕ) (c : Handshake) (d : List ℕ) → length d < 4 → extensions (suc fuel) c d ≡ some panics
unfolding extensions
short_loop fuel c [] h = refl
short_loop fuel c (a ∷ []) h = refl
short_loop fuel c (a ∷ b ∷ []) h = refl
short_loop fuel c (a ∷ b ∷ x ∷ []) h = refl
short_loop fuel c (a ∷ b ∷ x ∷ y ∷ d) h = absurd (omega arith)

-- A conclusion handshake without encryption whose extension field is set, with one to three bytes
-- behind its 48 fixed ones, panics.
pub unmarshal_panics :
    (c : Handshake) (d : List ℕ)
    → 48 < length d
    → length d < 52
    → uint32 d 20 ≡ hstype_conclusion
    → uint16 d 6 ≢ 0
    → uint16 d 4 ≡ 0
    → unmarshal c d ≡ some panics
unfolding unmarshal read_fixed
unmarshal_panics c (x ∷ d) h k t e f =
    let p =
      short_loop (length d) (fixed_fields c (x ∷ d)) (drop 48 (x ∷ d))
        (omega (arith, drop-length 48 (x ∷ d))) in
    ground (arith, p)
unmarshal_panics c [] h k t e f = absurd (omega arith)

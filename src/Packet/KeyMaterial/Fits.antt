-- ===== src/Packet/KeyMaterial/Fits.antt =====
-- Key material that fits the buffer of its writer.
use gosrt.Common.{
  ℕ, ◌≤◌, ◌≡◌, inl, inr, refl, arith, Bool-cases, List, [], ◌++◌, length, length-append,
  le→ltb_false, ◌==◌, if◌then◌else◌,
}
use gosrt.Packet.Wire.{ok}
use gosrt.Packet.KeyMaterial.{KeyMaterial, fixed_bytes, marshal}
use gosrt.Packet.KeyMaterial.RoundTrip.{fixed_bytes-length}

-- The sizes that the buffer of 128 bytes has room for.
abbrev pub IsSmall : KeyMaterial → Type 0
IsSmall m = (length m.salt ≤ 16) × (length m.wrap ≤ 72)

pub small-written : (m : KeyMaterial) → IsSmall m → (b : List ℕ) × (marshal m ≡ ok b)
unfolding marshal
small-written m (s, w) =
    let rest = (if m.slen == 0 then [] else m.salt) ++ m.wrap in
    let salted : (length (if m.slen == 0 then [] else m.salt) ≤ 16) =
      elim (Bool-cases (m.slen == 0)) [ inl t ↦ rw t (omega arith) | inr t ↦ rw t s ] in
    let n = length-append (if m.slen == 0 then [] else m.salt) m.wrap in
    let k = length-append (fixed_bytes m) rest in
    (
      fixed_bytes m ++ rest,
      rw (le→ltb_false 128 (length (fixed_bytes m ++ rest)) (omega (arith, fixed_bytes-length m)))
          refl,
    )

-- ===== src/Net/Ip/Loopback.antt =====
-- Addresses that are written and read: IPv4 ones, and IPv6 ones that begin with 12 bytes of zeros.
use gosrt.Common.{
  ℕ, ◌+◌, ◌≤◌, ◌≡◌, refl, ap, ◌∙◌, ◌*◌, ◌/◌, ◌%◌, ◌^◌, arith, true, some, List, [], ◌∷◌, ◌++◌,
  replicate, IsByte,
}
use gosrt.Config.{same_bytes}
use gosrt.Packet.Wire.{ok}
use gosrt.Net.Ip.{v4_of, or_default, ipv4, is_v4, is_unspecified, is_valid, unmarshal, marshal}

-- The address of the last four bytes.
abbrev pub low : ℕ → ℕ → ℕ → ℕ → List ℕ
low a b c d = replicate 12 0 ++ (a ∷ b ∷ c ∷ d ∷ [])

is_valid-low : (a b c d : ℕ) → 1 ≤ a + b + c + d → is_valid (some (low a b c d)) ≡ true
unfolding is_valid is_unspecified is_v4 same_bytes
is_valid-low a b c d h = ground arith

pub is_valid-ipv4 : (a b c d : ℕ) → 1 ≤ a + b + c + d → is_valid (some (ipv4 a b c d)) ≡ true
unfolding is_valid is_unspecified is_v4 same_bytes
is_valid-ipv4 a b c d h = ground arith

-- What it is written as.
marshal-low :
    (a b c d : ℕ)
    → 1 ≤ a + b + c + d
    → marshal (some (low a b c d)) ≡ (d ∷ c ∷ b ∷ a ∷ []) ++ replicate 12 0
unfolding marshal is_v4 same_bytes
marshal-low a b c d h = rw (is_valid-low a b c d h) refl

-- The bytes of a little-endian word.
pub v4_of-word :
    (a b c d : ℕ)
    → IsByte a
    → IsByte b
    → IsByte c
    → IsByte d
    → v4_of (d + c * 2 ^ 8 + b * 2 ^ 16 + a * 2 ^ 24) ≡ ipv4 a b c d
v4_of-word a b c d ha hb hc hd =
    let e1 : ((d + c * 2 ^ 8 + b * 2 ^ 16 + a * 2 ^ 24) / 2 ^ 24 % 2 ^ 8 ≡ a) = omega arith in
    let e2 : ((d + c * 2 ^ 8 + b * 2 ^ 16 + a * 2 ^ 24) / 2 ^ 16 % 2 ^ 8 ≡ b) = omega arith in
    let e3 : ((d + c * 2 ^ 8 + b * 2 ^ 16 + a * 2 ^ 24) / 2 ^ 8 % 2 ^ 8 ≡ c) = omega arith in
    let e4 : ((d + c * 2 ^ 8 + b * 2 ^ 16 + a * 2 ^ 24) % 2 ^ 8 ≡ d) = omega arith in
    rw (e1, e2, e3, e4) refl

unmarshal-low :
    (a b c d : ℕ)
    → 1 ≤ a + b + c + d
    → IsByte a
    → IsByte b
    → IsByte c
    → IsByte d
    → unmarshal ((d ∷ c ∷ b ∷ a ∷ []) ++ replicate 12 0) ≡ ok (ipv4 a b c d)
unfolding unmarshal
unmarshal-low a b c d h ha hb hc hd =
    ap (λ i. ok (or_default (some i))) (v4_of-word a b c d ha hb hc hd)
    ∙ rw (is_valid-ipv4 a b c d h) refl

-- Such an address, other than `::` itself, comes back as the IPv4 address of its last four bytes.
pub unmarshal-marshal-low :
    (a b c d : ℕ)
    → IsByte a
    → IsByte b
    → IsByte c
    → IsByte d
    → 1 ≤ a + b + c + d
    → unmarshal (marshal (some (low a b c d))) ≡ ok (ipv4 a b c d)
unmarshal-marshal-low a b c d ha hb hc hd h =
    ap unmarshal (marshal-low a b c d h) ∙ unmarshal-low a b c d h ha hb hc hd

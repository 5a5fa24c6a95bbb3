-- ===== src/Net/Ip/Ordinary.antt =====
-- Addresses that are read as they were written.
use gosrt.Common.{
  ℕ, ◌+◌, ◌≤◌, ◌≡◌, refl, ap, ◌∙◌, ◌*◌, ◌/◌, ◌%◌, ◌^◌, arith, true, false, ◌&&◌, ◌==◌, some, List,
  [], ◌∷◌, ◌++◌, IsByte,
}
use gosrt.Config.{same_bytes}
use gosrt.Net.Ip.{
  groups, or_default, ipv4, is_v4, is_unspecified, is_valid, marshal, read_ip, write_ip, read_back,
  widen,
}
use gosrt.Net.Ip.Loopback.{is_valid-ipv4, v4_of-word}

-- Four bytes.
pub record Quad : Type 0 where
  pub a : ℕ
  pub b : ℕ
  pub c : ℕ
  pub d : ℕ
  pub a_fits : IsByte a
  pub b_fits : IsByte b
  pub c_fits : IsByte c
  pub d_fits : IsByte d

abbrev pub bytes : Quad → List ℕ
bytes q = q.a ∷ q.b ∷ q.c ∷ q.d ∷ []

abbrev pub total : Quad → ℕ
total q = q.a + q.b + q.c + q.d

abbrev pub ip_of : Quad → Quad → Quad → Quad → List ℕ
ip_of p q r s = bytes p ++ (bytes q ++ (bytes r ++ bytes s))

-- An IPv4 address other than 0.0.0.0, or an IPv6 address that does not begin with 12 zeros.
pub data IsOrdinary : List ℕ → Type 0 where
  is_ipv4 : (q : Quad) → 1 ≤ total q → IsOrdinary (ipv4 q.a q.b q.c q.d)
  is_ipv6 :
      (p q r s : Quad)
      → 1 ≤ total p + total q + total r
      → is_v4 (ip_of p q r s) ≡ false
      → IsOrdinary (ip_of p q r s)

-- From the last byte to the first.
abbrev back : Quad → List ℕ
back q = q.d ∷ q.c ∷ q.b ∷ q.a ∷ []

abbrev word : Quad → ℕ
word q = q.d + q.c * 2 ^ 8 + q.b * 2 ^ 16 + q.a * 2 ^ 24

groups-word : (q : Quad) → groups (word q) ≡ bytes q
groups-word q =
    let w = word q in
    let e1 : (w / 2 ^ 16 % 2 ^ 16 / 2 ^ 8 % 2 ^ 8 ≡ q.a) =
      omega (arith, q.a_fits, q.b_fits, q.c_fits, q.d_fits) in
    let e2 : (w / 2 ^ 16 % 2 ^ 16 % 2 ^ 8 ≡ q.b) =
      omega (arith, q.a_fits, q.b_fits, q.c_fits, q.d_fits) in
    let e3 : (w % 2 ^ 16 / 2 ^ 8 % 2 ^ 8 ≡ q.c) =
      omega (arith, q.a_fits, q.b_fits, q.c_fits, q.d_fits) in
    let e4 : (w % 2 ^ 16 % 2 ^ 8 ≡ q.d) = omega (arith, q.a_fits, q.b_fits, q.c_fits, q.d_fits) in
    λ i. e1 i ∷ e2 i ∷ e3 i ∷ e4 i ∷ []

is_valid-ip_of :
    (p q r s : Quad)
    → 1 ≤ total p + total q + total r
    → is_v4 (ip_of p q r s) ≡ false
    → is_valid (some (ip_of p q r s)) ≡ true
unfolding is_valid is_unspecified same_bytes
is_valid-ip_of p q r s h v = ground arith

not_zero :
    (p q r : Quad)
    → 1 ≤ total p + total q + total r
    → ((word p == 0) && (word q == 0) && (word r == 0)) ≡ false
not_zero p q r h = ground arith

written-ip_of :
    (p q r s : Quad)
    → 1 ≤ total p + total q + total r
    → is_v4 (ip_of p q r s) ≡ false
    → read_ip (marshal (some (ip_of p q r s))) ≡ ip_of p q r s
unfolding marshal
written-ip_of p q r s h v =
    let own : (or_default (some (ip_of p q r s)) ≡ ip_of p q r s) =
      rw (is_valid-ip_of p q r s h v) refl in
    let out : (write_ip (ip_of p q r s) ≡ back s ++ (back r ++ (back q ++ back p))) = rw v refl in
    ap (λ x. read_ip (write_ip (widen x))) own
    ∙ (ap read_ip out
        ∙ rw (not_zero p q r h)
            (λ i. groups-word p i ++ (groups-word q i ++ (groups-word r i ++ groups-word s i))))

written-ipv4 :
    (q : Quad)
    → 1 ≤ total q
    → read_ip (marshal (some (ipv4 q.a q.b q.c q.d))) ≡ ipv4 q.a q.b q.c q.d
unfolding marshal is_v4 same_bytes
written-ipv4 q h =
    let own : (or_default (some (ipv4 q.a q.b q.c q.d)) ≡ ipv4 q.a q.b q.c q.d) =
      rw (is_valid-ipv4 q.a q.b q.c q.d h) refl in
    ap (λ x. read_ip (write_ip (widen x))) own
    ∙ v4_of-word q.a q.b q.c q.d q.a_fits q.b_fits q.c_fits q.d_fits

-- Such an address is read back as it is.
pub read_back-IsOrdinary : (ip : List ℕ) → IsOrdinary ip → read_back ip ≡ ip
read_back-IsOrdinary ip (is_ipv4 q h) =
    ap (λ x. or_default (some x)) (written-ipv4 q h) ∙ rw (is_valid-ipv4 q.a q.b q.c q.d h) refl
read_back-IsOrdinary ip (is_ipv6 p q r s h v) =
    ap (λ x. or_default (some x)) (written-ip_of p q r s h v) ∙ rw (is_valid-ip_of p q r s h v) refl

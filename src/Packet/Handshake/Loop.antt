-- ===== src/Packet/Handshake/Loop.antt =====
-- The loop over the extensions of a handshake: that it ends, and when it panics.
use gosrt.Common.{
  ℕ, zero, suc, ◌+◌, ◌-◌, ◌*◌, ◌%◌, ◌^◌, ◌<◌, ◌≡◌, refl, arith, Bool, true, false, ◌&&◌, Option,
  some, List, [], ◌∷◌, length, drop, ltb, ◌==◌,
}
use gosrt.Packet.Wire.{Result, ok, err, panics}
use gosrt.Packet.HandshakeExtension.{HandshakeExtension}
use gosrt.Packet.HandshakeExtension
use gosrt.Packet.Quiet.{quiet, then-quiet}
use gosrt.Packet.KeyMaterial.{KeyMaterial}
use gosrt.Packet.KeyMaterial
use gosrt.Packet.Handshake.{
  Handshake, extension, extensions, empty_key_material, with_key, read_hs, read_km, read_sid,
  read_congestion, check_key_length, go_on,
}

check_key_length-quiet : (c : Handshake) (k : KeyMaterial) → quiet (check_key_length c k) ≡ true
unfolding check_key_length
check_key_length-quiet c k = ground arith

read_hs-quiet : (c : Handshake) (l : ℕ) (pivot : List ℕ) → quiet (read_hs c l pivot) ≡ true
unfolding read_hs
read_hs-quiet c l pivot =
    let q =
      then-quiet (HandshakeExtension.unmarshal pivot)
        (λ x. ok (record c { has_hs = true; srt_hs = some x }))
        (HandshakeExtension.Quiet.unmarshal-quiet pivot) (λ x. refl) in
    ground (arith, q)

read_km-quiet : (c : Handshake) (l : ℕ) (pivot : List ℕ) → quiet (read_km c l pivot) ≡ true
unfolding read_km
read_km-quiet c l pivot =
    let q =
      then-quiet (KeyMaterial.unmarshal empty_key_material pivot) (with_key c)
        (KeyMaterial.Quiet.unmarshal-quiet empty_key_material pivot)
        (λ k. check_key_length-quiet _ k) in
    ground (arith, q)

extension-quiet : (c : Handshake) (t l : ℕ) (pivot : List ℕ) → quiet (extension c t l pivot) ≡ true
unfolding extension read_sid read_congestion
extension-quiet c t l pivot = ground (arith, read_hs-quiet c l pivot, read_km-quiet c l pivot)

-- The loop has ended, and with a value or an error if the test says so.
abbrev pub Ends : Bool → Option (Result Handshake) → Type 0
Ends b q = (r : Result Handshake) × (q ≡ some r) × (b ≡ true → quiet r ≡ true)

go_on-Ends :
    (b : Bool) (rest : Handshake → Option (Result Handshake)) (more : Bool) (e : Result Handshake)
    → quiet e ≡ true
    → (more ≡ true → (c : Handshake) → Ends b (rest c))
    → Ends b (go_on rest more e)
go_on-Ends b rest true (ok c) h k = k refl c
go_on-Ends b rest false (ok c) h k = (ok c, refl, λ _. refl)
go_on-Ends b rest more (err e) h k = (err e, refl, λ _. refl)
go_on-Ends b rest more panics h k = absurd (ground arith)

pub drop-length : (n : ℕ) (d : List ℕ) → length (drop n d) ≡ length d - n
drop-length zero d = omega arith
drop-length (suc n) [] = omega arith
drop-length (suc n) (x ∷ d) = omega (arith, drop-length n d)

-- Whole words, and one of them at least.
abbrev whole : List ℕ → Bool
whole d = (length d % 4 == 0) && ltb 0 (length d)

broken : (d : List ℕ) → length d < 4 → whole d ≡ true → quiet {A = Handshake} panics ≡ true
broken d h w = ground arith

pub extensions-Ends :
    (fuel : ℕ) (c : Handshake) (d : List ℕ) → length d < fuel → Ends (whole d) (extensions fuel c d)
unfolding extensions
extensions-Ends zero c d h = absurd (omega arith)
extensions-Ends (suc fuel) c [] h = (panics, refl, broken [] (omega arith))
extensions-Ends (suc fuel) c (a ∷ []) h = (panics, refl, broken (a ∷ []) (omega arith))
extensions-Ends (suc fuel) c (a ∷ b ∷ []) h = (panics, refl, broken (a ∷ b ∷ []) (omega arith))
extensions-Ends (suc fuel) c (a ∷ b ∷ x ∷ []) h =
    (panics, refl, broken (a ∷ b ∷ x ∷ []) (omega arith))
extensions-Ends (suc fuel) c (a ∷ b ∷ x ∷ y ∷ pivot) h =
    let l = (x * 2 ^ 8 + y) * 4 in
    go_on-Ends (whole (a ∷ b ∷ x ∷ y ∷ pivot)) _ (ltb l (length pivot)) _
      (extension-quiet c (a * 2 ^ 8 + b) l pivot)
      (λ m c'.
        let e = drop-length l pivot in
        let (r, q, k) = extensions-Ends fuel c' (drop l pivot) (omega (arith, e)) in
        (r, q, λ w. k (ground (arith, e))))

-- ===== src/Connection/Announced.antt =====
-- connection.go: the keys that take turns, and the outputs that announce one.
use gosrt.Common.{
  ℕ, ◌≡◌, ◌⊎◌, inl, inr, refl, true, false, List, [], ◌∷◌, ◌++◌, All, suc, zero, Option, none, some,
  Option-cases, ◌==◌, if◌then◌else◌,
}
use gosrt.Packet.Wire.{ok}
use gosrt.Packet.KeyMaterial.{marshal}
use gosrt.Packet.Handshake.{empty_key_material}
use gosrt.Crypto.{Primitives, Crypto, marshal_km, generate, generate_sek}
use gosrt.Packet.Types.{Packet, opposite, encryption_is_valid}
use gosrt.Crypto.Exchange.{IsKey}
use gosrt.Connection.State.{
  Output, on_send, resets_idle_timeout, stops_idle_timeout, closes_later, stops_hs_requests,
  stops_km_requests, on_shutdown,
}
use gosrt.Connection.Pop.{ctrltype_user, exttype_kmreq}

-- The key in use after a number of switches.
abbrev pub switched : ℕ → ℕ → ℕ
switched zero key = key
switched (suc n) key = opposite (switched n key)

-- The even or the odd key, of which one is in use.
abbrev pub IsOne : ℕ → Type 0
IsOne key = (key ≡ 1) ⊎ (key ≡ 2)

pub IsOne→IsKey : (key : ℕ) → IsOne key → IsKey key
IsOne→IsKey key (inl e) = inl e
IsOne→IsKey key (inr e) = inr (inl e)

pub opposite-IsOne : (key : ℕ) → IsOne key → IsOne (opposite key)
unfolding opposite
opposite-IsOne key (inl e) = inr (rw e refl)
opposite-IsOne key (inr e) = inl (rw e refl)

pub switched-IsOne : (n key : ℕ) → IsOne key → IsOne (switched n key)
switched-IsOne zero key h = h
switched-IsOne (suc n) key h = opposite-IsOne (switched n key) (switched-IsOne n key h)

-- The key itself.
abbrev pub secret : ℕ → Option Crypto → List ℕ
secret key none = []
secret key (some cr) = if key == 1 then cr.even_sek else cr.odd_sek

-- The packet announces a key of these keys: its payload is their message for it.
abbrev pub IsAnnouncement : Primitives → Crypto → List ℕ → ℕ → Packet → Type 0
IsAnnouncement pr cr passphrase key p =
    (p.header.is_control_packet ≡ true)
    × (p.header.control_type ≡ ctrltype_user)
    × (p.header.sub_type ≡ exttype_kmreq)
    × (b : List ℕ) × (p.payload ≡ some b)
    × (marshal (marshal_km pr cr empty_key_material passphrase key).0 ≡ ok b)

-- Some output is a packet of this kind.
abbrev pub Sends : (Packet → Type 0) → List Output → Type 0
Sends P [] = ⊥
Sends P (on_send p ∷ os) = P p ⊎ Sends P os
Sends P (o ∷ os) = Sends P os

pub Sends-append : (P : Packet → Type 0) (os qs : List Output) → Sends P os → Sends P (os ++ qs)
Sends-append P [] qs h = elim h [ ]
Sends-append P (on_send p ∷ os) qs (inl h) = inl h
Sends-append P (on_send p ∷ os) qs (inr h) = inr (Sends-append P os qs h)
Sends-append P (resets_idle_timeout ∷ os) qs h = Sends-append P os qs h
Sends-append P (stops_idle_timeout ∷ os) qs h = Sends-append P os qs h
Sends-append P (closes_later ∷ os) qs h = Sends-append P os qs h
Sends-append P (stops_hs_requests ∷ os) qs h = Sends-append P os qs h
Sends-append P (stops_km_requests ∷ os) qs h = Sends-append P os qs h
Sends-append P (on_shutdown ∷ os) qs h = Sends-append P os qs h

pub Sends-behind : (P : Packet → Type 0) (os qs : List Output) → Sends P qs → Sends P (os ++ qs)
Sends-behind P [] qs h = h
Sends-behind P (on_send p ∷ os) qs h = inr (Sends-behind P os qs h)
Sends-behind P (resets_idle_timeout ∷ os) qs h = Sends-behind P os qs h
Sends-behind P (stops_idle_timeout ∷ os) qs h = Sends-behind P os qs h
Sends-behind P (closes_later ∷ os) qs h = Sends-behind P os qs h
Sends-behind P (stops_hs_requests ∷ os) qs h = Sends-behind P os qs h
Sends-behind P (stops_km_requests ∷ os) qs h = Sends-behind P os qs h
Sends-behind P (on_shutdown ∷ os) qs h = Sends-behind P os qs h

even_kept :
    (pr : Primitives) (cr : Crypto) (r : pr.Random)
    → (generate_sek pr cr 2 r).0.even_sek ≡ cr.even_sek
unfolding generate_sek generate encryption_is_valid
even_kept pr cr r = elim (Option-cases (pr.read_random r cr.key_length).0) [
  | inl e ↦ rw e refl
  | inr (sek, e) ↦ rw e refl
]

odd_kept :
    (pr : Primitives) (cr : Crypto) (r : pr.Random)
    → (generate_sek pr cr 1 r).0.odd_sek ≡ cr.odd_sek
unfolding generate_sek generate encryption_is_valid
odd_kept pr cr r = elim (Option-cases (pr.read_random r cr.key_length).0) [
  | inl e ↦ rw e refl
  | inr (sek, e) ↦ rw e refl
]

-- Making the other key anew leaves a key as it is.
pub generate_sek-secret :
    (pr : Primitives) (cr : Crypto) (key : ℕ) (r : pr.Random)
    → IsOne key
    → secret key (some (generate_sek pr cr (opposite key) r).0) ≡ secret key (some cr)
unfolding opposite
generate_sek-secret pr cr key r (inl e) = rw e (even_kept pr cr r)
generate_sek-secret pr cr key r (inr e) = rw e (odd_kept pr cr r)

-- The packets are data packets.
abbrev pub AllData : List Packet → Type 0
AllData = All (λ (p : Packet). p.header.is_control_packet ≡ false)

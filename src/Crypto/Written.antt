-- ===== src/Crypto/Written.antt =====
-- crypto/crypto.go with packet/packet.go: a key material message can be written, also where the keys
-- were not wrapped.
use gosrt.Common.{ℕ, ◌≤◌, ◌≡◌, inl, inr, refl, arith, Option-cases, List, length, replicate}
use gosrt.Packet.Wire.{ok}
use gosrt.Packet.KeyMaterial.{KeyMaterial, marshal}
use gosrt.Packet.KeyMaterial.Fits.{IsSmall, small-written}
use gosrt.Packet.Handshake.{empty_key_material}
use gosrt.Crypto.Keys.{HasKeys, length-copy}
use gosrt.Crypto.Exchange.{Laws, IsKey, plain_keys-length, good_key}
use gosrt.Crypto.OverWire.{key_length-cases, message}
use gosrt.Crypto.{
  Primitives, Crypto, plain_keys, announce, calculate_kek, wrap_keys, marshal_km, key_count,
}

module _ (pr : Primitives) (laws : Laws pr) (c : Crypto) (hc : HasKeys c) (passphrase : List ℕ)
    (key : ℕ) (k : IsKey key) where
  keys_fit : length (plain_keys c key) ≤ 64
  keys_fit =
      let n = plain_keys-length c c hc hc refl key k in
      let two : (key_count key ≤ 2) = ground arith in
      elim (key_length-cases c.key_length hc.valid) [
        | inl e ↦ ground (arith, n)
        | inr (inl e) ↦ ground (arith, n)
        | inr (inr e) ↦ ground (arith, n)
      ]

  wrap_keys-IsSmall : (m : KeyMaterial) → IsSmall m → IsSmall (wrap_keys pr c m passphrase key).0
  unfolding wrap_keys
  wrap_keys-IsSmall m (s, w) =
      elim (Option-cases (calculate_kek pr passphrase c.salt c.key_length)) [
        | inl f ↦ rw (wrap_keys, f) (s, w)
        | inr (kek, f) ↦ elim (Option-cases (pr.wrap_key kek (plain_keys c key))) [
          | inl g ↦ rw (wrap_keys, f, g) (s, w)
          | inr (v, g) ↦
              rw (wrap_keys, f, g)
                (s, omega (arith, laws.wrap_length kek (plain_keys c key) v g, keys_fit))
        ]
      ]

  -- Whether or not the keys were wrapped, the message is written.
  pub message-written : (b : List ℕ) × (marshal (message pr c passphrase key) ≡ ok b)
  unfolding marshal_km announce
  message-written =
      let g = good_key c c hc hc refl pr laws empty_key_material passphrase key k in
      small-written (message pr c passphrase key) (
        rw (message, marshal_km, g)
          (wrap_keys-IsSmall (announce c empty_key_material key)
            (omega (arith, length-copy (replicate 16 0) c.salt), omega arith)))

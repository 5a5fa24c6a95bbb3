-- ===== src/Crypto/Runs.antt =====
-- Keys, their exchange and encryption with concrete primitives.
use gosrt.Common.{◌≡◌, inr, refl, none, [], ◌∷◌}
use gosrt.Packet.Types.{encryption_is_valid}
use gosrt.Packet.Wire.{ok, ◌>>=◌}
use gosrt.Packet.KeyMaterial.{KeyMaterial, marshal, unmarshal}
use gosrt.Packet.Handshake.{empty_key_material}
use gosrt.Crypto.Keys.{HasKeys, Derived, creates, generates, Derived-HasKeys}
use gosrt.Crypto.Sample.{sample, sample-FillsBuffers, sample-Laws, keys, keys-HasKeys}
use gosrt.Crypto.Exchange.{with_keys_of}
use gosrt.Crypto.OverWire.{message, unmarshal_km-over_wire, decrypt-over_wire}
use gosrt.Crypto.{
  new, generate, wrap_keys, calculate_kek, xor_stream, generate_sek, unmarshal_km, marshal_km,
  encrypt_or_decrypt_payload,
}

keys-Derived : Derived sample (keys 1)
unfolding new generate
keys-Derived = creates 16 1 (keys 1) refl

Derived-HasKeys_example : HasKeys (generate_sek sample (keys 1) 1 9).0
Derived-HasKeys_example =
    Derived-HasKeys sample sample-FillsBuffers (generate_sek sample (keys 1) 1 9).0
      (generates keys-Derived 1 9)

sent_both : (marshal_km sample (keys 1) empty_key_material (1 ∷ 2 ∷ []) 3).1 ≡ none
unfolding marshal_km encryption_is_valid wrap_keys calculate_kek
sent_both = refl

unmarshal_km-over_wire_example :
    (m : KeyMaterial) × ((marshal (message sample (keys 1) (1 ∷ 2 ∷ []) 3)
        >>= unmarshal empty_key_material)
      ≡ ok m)
    × (m.key_based_encryption ≡ 3)
    × (unmarshal_km sample (keys 5) m (1 ∷ 2 ∷ []) ≡ (with_keys_of (keys 5) (keys 1) 3, none))
unmarshal_km-over_wire_example =
    unmarshal_km-over_wire sample sample-Laws (keys 1) (keys 5) (keys-HasKeys 1) (keys-HasKeys 5)
      refl (1 ∷ 2 ∷ []) 3 (inr (inr refl)) sent_both empty_key_material

encrypted : (encrypt_or_decrypt_payload sample (keys 1) (8 ∷ 9 ∷ []) 2 77).1 ≡ none
unfolding encrypt_or_decrypt_payload xor_stream
encrypted = refl

decrypt-over_wire_example :
    (m : KeyMaterial) × ((marshal (message sample (keys 1) (1 ∷ 2 ∷ []) 3)
        >>= unmarshal empty_key_material)
      ≡ ok m)
    × (encrypt_or_decrypt_payload sample
          (unmarshal_km sample (keys 5) m (1 ∷ 2 ∷ [])).0
          (encrypt_or_decrypt_payload sample (keys 1) (8 ∷ 9 ∷ []) 2 77).0
          2
          77
        ≡ (8 ∷ 9 ∷ [], none))
decrypt-over_wire_example =
    decrypt-over_wire sample sample-Laws (keys 1) (keys 5) (keys-HasKeys 1) (keys-HasKeys 5) refl
      (1 ∷ 2 ∷ []) 3 (inr (inr refl)) sent_both empty_key_material (8 ∷ 9 ∷ []) 2 77
      (inr refl, inr refl) encrypted

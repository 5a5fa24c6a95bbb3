-- ===== src/Crypto/OverWire.antt =====
-- crypto/crypto.go with packet/packet.go: keys that travel in a key material message, and a payload
-- that one peer encrypts and the other decrypts.
use mathlib.Core.Option.{none-ne-some}
use gosrt.Common.{
  ℕ, ◌+◌, ◌*◌, ◌≡◌, ◌⊎◌, inl, inr, refl, sym, ap, ◌∙◌, arith, true, none, some, Option-cases, List,
  length, ◌==◌, ==_iff, if◌then◌else◌,
}
use gosrt.Packet.Wire.{ok, ◌>>=◌}
use gosrt.Packet.KeyMaterial.{KeyMaterial, wrap_size, marshal, unmarshal}
use gosrt.Packet.KeyMaterial.Fields.{IsValid}
use gosrt.Packet.KeyMaterial.RoundTrip.{unmarshal-marshal-KeyMaterial}
use gosrt.Packet.Handshake.{empty_key_material}
use gosrt.Crypto.Keys.{HasKeys}
use gosrt.Crypto.Exchange.{
  Laws, IsKey, with_keys_of, marshal_km-cases, unmarshal_km_lem, plain_keys-length,
}
use gosrt.Crypto.{
  Primitives, Crypto, valid_key_length, key_count, announce, counter, unmarshal_km, marshal_km,
  xor_stream, encrypt_or_decrypt_payload,
}

pub key_length-cases : (n : ℕ) → valid_key_length n ≡ true → (n ≡ 16) ⊎ (n ≡ 24) ⊎ (n ≡ 32)
key_length-cases n h = ground arith

-- The key that a payload is encrypted with is among those that a message announces.
abbrev pub Announces : ℕ → ℕ → Type 0
Announces key used = ((used ≡ 1) ⊎ (used ≡ 2)) × ((key ≡ used) ⊎ (key ≡ 3))

-- The message with a key, as `sendKMRequest` makes it.
abbrev pub message : Primitives → Crypto → List ℕ → ℕ → KeyMaterial
message pr c passphrase key = (marshal_km pr c empty_key_material passphrase key).0

module _ (pr : Primitives) (laws : Laws pr) where
  abbrev pub sek : Crypto → ℕ → List ℕ
  sek c used = if used == 1 then c.even_sek else c.odd_sek

  xor_stream_lem :
      (b : pr.Block) (key ctr p : List ℕ)
      → pr.new_cipher key ≡ some b
      → xor_stream pr key ctr p ≡ (pr.xor_key_stream b ctr p, none)
  unfolding xor_stream
  xor_stream_lem b key ctr p f = rw (xor_stream, f) refl

  xor_stream_twice :
      (key ctr p : List ℕ)
      → (xor_stream pr key ctr p).1 ≡ none
      → xor_stream pr key ctr (xor_stream pr key ctr p).0 ≡ (p, none)
  unfolding xor_stream
  xor_stream_twice key ctr p e = elim (Option-cases (pr.new_cipher key)) [
    | inl f ↦ absurd (none-ne-some _ (sym (rw (xor_stream, f) at e)))
    | inr (b, f) ↦
        rw (xor_stream_lem b key ctr p f, xor_stream_lem b key ctr (pr.xor_key_stream b ctr p) f)
          (ap (λ x. (x, none)) (laws.xor_twice b ctr p))
  ]

  -- What a peer encrypts without an error, with the even or the odd key, a peer with the same salt
  -- and the same key decrypts.
  pub encrypt_twice :
      (c d : Crypto) (p : List ℕ) (used n : ℕ)
      → (used ≡ 1) ⊎ (used ≡ 2)
      → length c.salt ≡ 16
      → d.salt ≡ c.salt
      → sek d used ≡ sek c used
      → (encrypt_or_decrypt_payload pr c p used n).1 ≡ none
      → encrypt_or_decrypt_payload pr d (encrypt_or_decrypt_payload pr c p used n).0 used n
        ≡ (p, none)
  unfolding encrypt_or_decrypt_payload
  encrypt_twice c d p used n (inl u) l s k e =
      let t : ((length c.salt == 16) ≡ true) = (==_iff _ _).1 l in
      let t' : ((length d.salt == 16) ≡ true) = rw s t in
      let q : (d.even_sek ≡ c.even_sek) = rw u at k in
      rw (u, t, t', s, q)
        (xor_stream_twice c.even_sek (counter c.salt n) p
          (rw (encrypt_or_decrypt_payload, u, t) at e))
  encrypt_twice c d p used n (inr u) l s k e =
      let t : ((length c.salt == 16) ≡ true) = (==_iff _ _).1 l in
      let t' : ((length d.salt == 16) ≡ true) = rw s t in
      let q : (d.odd_sek ≡ c.odd_sek) = rw u at k in
      rw (u, t, t', s, q)
        (xor_stream_twice c.odd_sek (counter c.salt n) p
          (rw (encrypt_or_decrypt_payload, u, t) at e))

  module _ (c d : Crypto) (hc : HasKeys c) (hd : HasKeys d) (same : c.key_length ≡ d.key_length)
      (passphrase : List ℕ) (key : ℕ) (k : IsKey key)
      (sent : (marshal_km pr c empty_key_material passphrase key).1 ≡ none) where
    announced_sek : (used : ℕ) → Announces key used → sek (with_keys_of d c key) used ≡ sek c used
    announced_sek used (inl u, inl t) = rw (u, t ∙ u) refl
    announced_sek used (inl u, inr t) = rw (u, t) refl
    announced_sek used (inr u, inl t) = rw (u, t ∙ u) refl
    announced_sek used (inr u, inr t) = rw (u, t) refl

    announced-IsValid :
        (w : List ℕ)
        → length w ≡ key_count key * c.key_length + 8
        → IsValid (record (announce c empty_key_material key) { salt = c.salt; wrap = w })
    unfolding announce wrap_size
    announced-IsValid w h = record {
      s = refl;
      version = refl;
      packet_type = refl;
      sign = refl;
      resv1 = omega arith;
      some_key = elim k [
        | inl e ↦ omega arith
        | inr (inl e) ↦ omega arith
        | inr (inr e) ↦ omega arith
      ];
      key_flags = elim k [
        | inl e ↦ omega arith
        | inr (inl e) ↦ omega arith
        | inr (inr e) ↦ omega arith
      ];
      key_index = refl;
      cipher = omega arith;
      authentication = omega arith;
      encapsulation = refl;
      resv2 = omega arith;
      resv3 = omega arith;
      klen = key_length-cases c.key_length hc.valid;
      slen = inr refl;
      salt = λ _. hc.salt;
      wrap = h;
    }

    -- A message with keys that was wrapped without an error is written without a panic; a receiver
    -- that reads it from the wire finds the flags of the keys, and takes over the salt and the announced
    -- keys, and no other.
    pub unmarshal_km-over_wire :
        (old : KeyMaterial)
        → (m : KeyMaterial) × ((marshal (message pr c passphrase key) >>= unmarshal old) ≡ ok m)
          × (m.key_based_encryption ≡ key)
          × (unmarshal_km pr d m passphrase ≡ (with_keys_of d c key, none))
    unfolding announce
    unmarshal_km-over_wire old =
        let (kek, w, f, g, m) =
          marshal_km-cases c d hc hd same pr laws empty_key_material passphrase key k sent in
        let full : KeyMaterial = record (announce c empty_key_material key) {
          salt = c.salt;
          wrap = w;
        } in
        let read : KeyMaterial = record full { error = old.error } in
        let n : (length w ≡ key_count key * c.key_length + 8) =
          laws.wrap_length kek _ w g
          ∙ (ap (λ x. x + 8)
              (plain_keys-length c d hc hd same key k ∙ ap (λ x. key_count key * x) (sym same))) in
        (
          read,
          rw m (unmarshal-marshal-KeyMaterial full old (announced-IsValid w n)),
          refl,
          unmarshal_km_lem c d hc hd same pr laws empty_key_material passphrase key k read kek refl
              refl f g,
        )

    -- After that the receiver decrypts what the sender encrypts, without an error, with an announced
    -- key.
    pub decrypt-over_wire :
        (old : KeyMaterial) (p : List ℕ) (used n : ℕ)
        → Announces key used
        → (encrypt_or_decrypt_payload pr c p used n).1 ≡ none
        → (m : KeyMaterial) × ((marshal (message pr c passphrase key) >>= unmarshal old) ≡ ok m)
          × (encrypt_or_decrypt_payload pr
                (unmarshal_km pr d m passphrase).0
                (encrypt_or_decrypt_payload pr c p used n).0
                used
                n
              ≡ (p, none))
    decrypt-over_wire old p used n a e =
        let (m, r, flags, u) = unmarshal_km-over_wire old in
        let same_key : (sek (with_keys_of d c key) used ≡ sek c used) = announced_sek used a in
        (m, r, rw u (encrypt_twice c (with_keys_of d c key) p used n a.0 hc.salt refl same_key e))

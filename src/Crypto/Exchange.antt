-- ===== src/Crypto/Exchange.antt =====
-- crypto/crypto.go: the exchange of keys between two peers, and what they encrypt for one another.
use gosrt.Common.{
  ℕ, ◌+◌, ◌*◌, ◌≡◌, ◌⊎◌, inl, inr, refl, sym, ap, ◌∙◌, arith, true, false, Bool-cases, none, some,
  Option-cases, List, ◌++◌, length, length-append, take_front, drop_front, replicate,
  length-replicate, ==_iff, ◌==◌, if◌then◌else◌,
}
use mathlib.Core.Option.{none-ne-some}
use gosrt.Packet.Types.{encryption_is_valid, even_key_encrypted, odd_key_encrypted}
use gosrt.Packet.KeyMaterial.{KeyMaterial}
use gosrt.Crypto.Keys.{HasKeys, length-copy, copy_whole}
use gosrt.Crypto.{
  Primitives, Crypto, copy, key_count, store_keys, plain_keys, announce, calculate_kek, unwrap_keys,
  unmarshal_km, wrap_keys, marshal_km, bad_key, take_salt,
}

-- What the code relies on: unwrapping with the key undoes the wrap, which adds 8 bytes, and the key
-- stream of a counter is its own inverse.
pub record Laws (pr : Primitives) : Type 0 where
  pub unwrap-wrap :
      (kek keys w : List ℕ) → pr.wrap_key kek keys ≡ some w → pr.unwrap_key kek w ≡ some keys
  pub wrap_length :
      (kek keys w : List ℕ) → pr.wrap_key kek keys ≡ some w → length w ≡ length keys + 8
  pub xor_twice :
      (b : pr.Block) (counter payload : List ℕ)
      → pr.xor_key_stream b counter (pr.xor_key_stream b counter payload) ≡ payload

-- The receiver's keys with the salt and the announced keys of the sender.
abbrev pub with_keys_of : Crypto → Crypto → ℕ → Crypto
with_keys_of d c key = record d {
  salt = c.salt;
  even_sek = if key == odd_key_encrypted then d.even_sek else c.even_sek;
  odd_sek = if key == even_key_encrypted then d.odd_sek else c.odd_sek;
}

-- The even key, the odd one, or both.
abbrev pub IsKey : ℕ → Type 0
IsKey key = (key ≡ 1) ⊎ (key ≡ 2) ⊎ (key ≡ 3)

module _ (c d : Crypto) (hc : HasKeys c) (hd : HasKeys d) (same : c.key_length ≡ d.key_length) where
  zeros_copy :
      (sek : List ℕ) → length sek ≡ c.key_length → copy (replicate c.key_length 0) sek ≡ sek
  zeros_copy sek e = copy_whole _ sek (length-replicate c.key_length 0 ∙ sym e)

  -- What the sender lays out, the receiver stores.
  store_keys-plain_keys :
      (key : ℕ)
      → IsKey key
      → store_keys (record d { salt = c.salt }) key (plain_keys c key) ≡ with_keys_of d c key
  unfolding store_keys plain_keys
  store_keys-plain_keys key k =
      let ec = zeros_copy c.even_sek hc.even in
      let oc = zeros_copy c.odd_sek hc.odd in
      let ed = copy_whole d.even_sek c.even_sek (hd.even ∙ (sym same ∙ sym hc.even)) in
      let od = copy_whole d.odd_sek c.odd_sek (hd.odd ∙ (sym same ∙ sym hc.odd)) in
      elim k [
        | inl e ↦
            rw e (λ i. record d { salt = c.salt; even_sek = (ap (copy d.even_sek) ec ∙ ed) i })
        | inr (inl e) ↦
            rw e (λ i. record d { salt = c.salt; odd_sek = (ap (copy d.odd_sek) oc ∙ od) i })
        | inr (inr e) ↦
            let both =
              copy (replicate c.key_length 0) c.even_sek
              ++ copy (replicate c.key_length 0) c.odd_sek in
            let size =
              length-copy (replicate c.key_length 0) c.even_sek
              ∙ (length-replicate c.key_length 0 ∙ same) in
            let front =
              take_front d.key_length _ (copy (replicate c.key_length 0) c.odd_sek) size in
            let back = drop_front d.key_length _ (copy (replicate c.key_length 0) c.odd_sek) size in
            rw e (λ i. record d {
              salt = c.salt;
              even_sek = (ap (copy d.even_sek) (front ∙ ec) ∙ ed) i;
              odd_sek = (ap (copy d.odd_sek) (back ∙ oc) ∙ od) i;
            })
      ]

  pub plain_keys-length :
      (key : ℕ) → IsKey key → length (plain_keys c key) ≡ key_count key * d.key_length
  unfolding plain_keys
  plain_keys-length key k =
      let z = length-replicate {A = ℕ} c.key_length 0 in
      let n = length-copy (replicate c.key_length 0) c.even_sek in
      let m = length-copy (replicate c.key_length 0) c.odd_sek in
      elim k [
        | inl e ↦ rw e (omega (arith, z, n, same))
        | inr (inl e) ↦ rw e (omega (arith, z, m, same))
        | inr (inr e) ↦ rw e (
            omega (
              arith,
              z,
              n,
              m,
              same,
              length-append (copy (replicate c.key_length 0) c.even_sek)
                  (copy (replicate c.key_length 0) c.odd_sek),
            ))
      ]

  module _ (pr : Primitives) (laws : Laws pr) (km : KeyMaterial) (passphrase : List ℕ) (key : ℕ)
      (k : IsKey key) where
    salt16 : copy (if length km.salt == 16 then km.salt else replicate 16 0) c.salt ≡ c.salt
    salt16 = elim (Bool-cases (length km.salt == 16)) [
      | inl t ↦ rw t (copy_whole km.salt c.salt ((==_iff _ _).0 t ∙ sym hc.salt))
      | inr t ↦ rw t (copy_whole (replicate 16 0) c.salt (sym hc.salt))
    ]

    pub good_key : bad_key pr key ≡ false
    unfolding encryption_is_valid
    good_key = elim k [ inl e ↦ rw e refl | inr (inl e) ↦ rw e refl | inr (inr e) ↦ rw e refl ]

    -- A message that carries these keys.
    module _ (m : KeyMaterial) (kek : List ℕ) (flags : m.key_based_encryption ≡ key)
        (salted : m.salt ≡ c.salt)
        (derived : calculate_kek pr passphrase c.salt c.key_length ≡ some kek)
        (wrapped : pr.wrap_key kek (plain_keys c key) ≡ some m.wrap) where
      take_salt_lem : take_salt pr d m ≡ record d { salt = c.salt }
      take_salt_lem =
          let n : ((length m.salt == 0) ≡ false) = rw salted (rw hc.salt refl) in
          rw n (λ i. record d {
            salt = (ap (copy d.salt) salted ∙ copy_whole d.salt c.salt (hd.salt ∙ sym hc.salt)) i;
          })

      unwrap_keys_lem :
          unwrap_keys pr (record d { salt = c.salt }) m passphrase ≡ (with_keys_of d c key, none)
      unfolding unwrap_keys
      unwrap_keys_lem =
          let t : ((length (plain_keys c key) == key_count key * d.key_length) ≡ true) =
            (==_iff _ _).1 (plain_keys-length key k) in
          rw
            (
              unwrap_keys,
              ap (calculate_kek pr passphrase c.salt) (sym same) ∙ derived,
              laws.unwrap-wrap kek (plain_keys c key) m.wrap wrapped,
              flags,
              t,
            )
            (ap (λ x. (x, none)) (store_keys-plain_keys key k))

      pub unmarshal_km_lem : unmarshal_km pr d m passphrase ≡ (with_keys_of d c key, none)
      unfolding unmarshal_km
      unmarshal_km_lem =
          let good : (bad_key pr m.key_based_encryption ≡ false) = rw flags good_key in
          let t : ((length m.wrap == key_count m.key_based_encryption * d.key_length + 8) ≡ true) =
            rw flags (
              (==_iff _ _).1 (
                laws.wrap_length kek (plain_keys c key) m.wrap wrapped
                ∙ ap (λ n. n + 8) (plain_keys-length key k))) in
          rw (good, t, take_salt_lem) unwrap_keys_lem

    -- What MarshalKM made, when it reports no error.
    pub marshal_km-cases :
        (marshal_km pr c km passphrase key).1 ≡ none
        → (kek w : List ℕ) × (calculate_kek pr passphrase c.salt c.key_length ≡ some kek)
          × (pr.wrap_key kek (plain_keys c key) ≡ some w)
          × ((marshal_km pr c km passphrase key).0
              ≡ record (announce c km key) { salt = c.salt; wrap = w })
    unfolding marshal_km wrap_keys announce
    marshal_km-cases e = elim (Option-cases (calculate_kek pr passphrase c.salt c.key_length)) [
      | inl f ↦ absurd (none-ne-some _ (sym (rw (marshal_km, good_key, wrap_keys, f) at e)))
      | inr (kek, f) ↦ elim (Option-cases (pr.wrap_key kek (plain_keys c key))) [
        | inl g ↦ absurd (none-ne-some _ (sym (rw (marshal_km, good_key, wrap_keys, f, g) at e)))
        | inr (w, g) ↦ (
          kek,
          w,
          f,
          g,
          rw (marshal_km, good_key, wrap_keys, f, g)
              (λ i. record (announce c km key) { salt = salt16 i; wrap = w }),
        )
      ]
    ]

    -- Key material that was wrapped without an error, for a sender and a receiver with keys of one
    -- length, gives the receiver the salt and the announced keys of the sender, and no other.
    pub unmarshal_km-marshal_km :
        (marshal_km pr c km passphrase key).1 ≡ none
        → unmarshal_km pr d (marshal_km pr c km passphrase key).0 passphrase
          ≡ (with_keys_of d c key, none)
    unfolding announce
    unmarshal_km-marshal_km e =
        let (kek, w, f, g, m) = marshal_km-cases e in
        rw m (
          unmarshal_km_lem (record (announce c km key) { salt = c.salt; wrap = w }) kek refl refl f
            g)

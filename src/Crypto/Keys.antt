-- ===== src/Crypto/Keys.antt =====
-- crypto/crypto.go: the sizes of the keys and of the salt.
use gosrt.Common.{
  ℕ, ◌+◌, ◌*◌, ◌≡◌, inl, inr, refl, sym, ◌∙◌, arith, true, Bool-cases, some, Option-cases, List, [],
  ◌∷◌, length, take, drop, take_all, drop_all, append-nil, ◌==◌,
}
use mathlib.Core.Option.{some-injective, none-ne-some}
use gosrt.Common.{subst}
use gosrt.Packet.Types.{encryption_is_valid, even_key_encrypted, odd_key_encrypted}
use gosrt.Packet.KeyMaterial.{KeyMaterial}
use gosrt.Crypto.{
  Primitives, Crypto, copy, valid_key_length, key_count, store_keys, generate, new, generate_sek,
  calculate_kek, unwrap_keys, unmarshal_km, take_salt, bad_key,
}

-- The salt has 16 bytes, and both keys have the key length, which is one of the three.
pub record HasKeys (c : Crypto) : Type 0 where
  pub salt : length c.salt ≡ 16
  pub valid : valid_key_length c.key_length ≡ true
  pub even : length c.even_sek ≡ c.key_length
  pub odd : length c.odd_sek ≡ c.key_length

pub length-copy : (dst src : List ℕ) → length (copy dst src) ≡ length dst
length-copy [] [] = refl
length-copy [] (y ∷ ys) = refl
length-copy (x ∷ xs) [] = refl
length-copy (x ∷ xs) (y ∷ ys) = omega (arith, length-copy xs ys)

pub copy_whole : (dst src : List ℕ) → length dst ≡ length src → copy dst src ≡ src
copy_whole dst src e =
    rw (take_all (length dst) src (sym e), drop_all (length src) dst e) (append-nil src)

pub store_keys-HasKeys :
    (c : Crypto) (key : ℕ) (keys : List ℕ) → HasKeys c → HasKeys (store_keys c key keys)
unfolding store_keys
store_keys-HasKeys c key keys h = elim (Bool-cases (key == even_key_encrypted)) [
  | inl t ↦ rw t (record {
    salt = h.salt;
    valid = h.valid;
    even = length-copy c.even_sek keys ∙ h.even;
    odd = h.odd;
  })
  | inr t ↦ elim (Bool-cases (key == odd_key_encrypted)) [
    | inl u ↦
        rw (t, u)
          (record {
            salt = h.salt;
            valid = h.valid;
            even = h.even;
            odd = length-copy c.odd_sek keys ∙ h.odd;
          })
    | inr u ↦
        rw (t, u)
          (record {
            salt = h.salt;
            valid = h.valid;
            even = length-copy c.even_sek (take c.key_length keys) ∙ h.even;
            odd = length-copy c.odd_sek (drop c.key_length keys) ∙ h.odd;
          })
  ]
]

module _ (pr : Primitives) where
  open pr use {Random, read_random, unwrap_key}

  -- The documented length of what the random source returns.
  abbrev pub FillsBuffers : Type 0
  FillsBuffers = (r : Random) (n : ℕ) (b : List ℕ) → (read_random r n).0 ≡ some b → length b ≡ n

  pub new-HasKeys :
      FillsBuffers → (n : ℕ) (r : Random) (c : Crypto) → (new pr n r).0 ≡ some c → HasKeys c
  unfolding new generate
  new-HasKeys fills n r c e = elim (Bool-cases (valid_key_length n)) [
    | inr t ↦ absurd (ground (arith, t, e))
    | inl t ↦
        let r₁ = (read_random r 16).1 in
        let r₂ = (read_random r₁ n).1 in
        elim (Option-cases (read_random r 16).0) [
          | inl f ↦ absurd (none-ne-some _ (rw (new, t, f) at e))
          | inr (salt, f) ↦ elim (Option-cases (read_random r₁ n).0) [
            | inl g ↦ absurd (none-ne-some _ (rw (new, t, f, g) at e))
            | inr (even, g) ↦ elim (Option-cases (read_random r₂ n).0) [
              | inl k ↦ absurd (none-ne-some _ (rw (new, t, f, g, k) at e))
              | inr (odd, k) ↦
                  subst HasKeys (some-injective _ _ (rw (new, t, f, g, k) at e)) (record {
                    salt = fills r 16 salt f;
                    valid = t;
                    even = fills r₁ n even g;
                    odd = fills r₂ n odd k;
                  })
            ]
          ]
        ]
  ]

  pub generate_sek-HasKeys :
      FillsBuffers
      → (c : Crypto) (key : ℕ) (r : Random) → HasKeys c
      → HasKeys (generate_sek pr c key r).0
  unfolding generate_sek generate
  generate_sek-HasKeys fills c key r h = elim (Bool-cases (encryption_is_valid key)) [
    | inr t ↦ rw t h
    | inl t ↦ elim (Option-cases (read_random r c.key_length).0) [
      | inl e ↦ rw (t, e) h
      | inr (sek, e) ↦
          let n = fills r c.key_length sek e in
          elim (Bool-cases (key == even_key_encrypted)) [
            | inl u ↦
                rw (t, e, u) (record { salt = h.salt; valid = h.valid; even = n; odd = h.odd })
            | inr u ↦ elim (Bool-cases (key == odd_key_encrypted)) [
              | inl v ↦
                  rw (t, e, u, v)
                    (record { salt = h.salt; valid = h.valid; even = h.even; odd = n })
              | inr v ↦ rw (t, e, u, v) h
            ]
          ]
    ]
  ]

  pub unwrap_keys-HasKeys :
      (c : Crypto) (km : KeyMaterial) (passphrase : List ℕ)
      → HasKeys c
      → HasKeys (unwrap_keys pr c km passphrase).0
  unfolding unwrap_keys
  unwrap_keys-HasKeys c km passphrase h =
      elim (Option-cases (calculate_kek pr passphrase c.salt c.key_length)) [
        | inl e ↦ rw (unwrap_keys, e) h
        | inr (kek, e) ↦
            rw (unwrap_keys, e)
              (elim (Option-cases (unwrap_key kek km.wrap)) [
                | inl f ↦ rw f h
                | inr (keys, f) ↦
                    rw f
                      (elim (Bool-cases
                        (length keys == key_count km.key_based_encryption * c.key_length)) [
                          | inl t ↦ rw t (store_keys-HasKeys c km.key_based_encryption keys h)
                          | inr t ↦ rw t h
                        ])
              ])
      ]

  take_salt-HasKeys : (c : Crypto) (km : KeyMaterial) → HasKeys c → HasKeys (take_salt pr c km)
  take_salt-HasKeys c km h = elim (Bool-cases (length km.salt == 0)) [
    | inl t ↦ rw t h
    | inr t ↦ rw t (record {
      salt = length-copy c.salt km.salt ∙ h.salt;
      valid = h.valid;
      even = h.even;
      odd = h.odd;
    })
  ]

  pub unmarshal_km-HasKeys :
      (c : Crypto) (km : KeyMaterial) (passphrase : List ℕ)
      → HasKeys c
      → HasKeys (unmarshal_km pr c km passphrase).0
  unfolding unmarshal_km
  unmarshal_km-HasKeys c km passphrase h = elim (Bool-cases (bad_key pr km.key_based_encryption)) [
    | inl t ↦ rw t h
    | inr t ↦
        elim (Bool-cases (length km.wrap == key_count km.key_based_encryption * c.key_length + 8)) [
          | inl u ↦
              rw (t, u)
                (unwrap_keys-HasKeys (take_salt pr c km) km passphrase (take_salt-HasKeys c km h))
          | inr u ↦ rw (t, u) h
        ]
  ]

  -- The keys that a sequence of calls leads to, from new ones.
  pub data Derived : Crypto → Type 0 where
    creates : (n : ℕ) (r : Random) (c : Crypto) → (new pr n r).0 ≡ some c → Derived c
    generates :
        {c : Crypto} → Derived c → (key : ℕ) (r : Random) → Derived (generate_sek pr c key r).0
    unmarshals :
        {c : Crypto}
        → Derived c
        → (km : KeyMaterial) (passphrase : List ℕ) → Derived (unmarshal_km pr c km passphrase).0

  -- Where the random source fills its buffers: after any sequence of calls that generate keys or take
  -- over key material, with or without an error, the salt has 16 bytes, the key length is 16, 24 or 32,
  -- and both keys have that length.
  pub Derived-HasKeys : FillsBuffers → (c : Crypto) → Derived c → HasKeys c
  Derived-HasKeys fills c (creates n r _ e) = new-HasKeys fills n r c e
  Derived-HasKeys fills c (generates {c = b} h key r) =
      generate_sek-HasKeys fills b key r (Derived-HasKeys fills b h)
  Derived-HasKeys fills c (unmarshals {c = b} h km passphrase) =
      unmarshal_km-HasKeys b km passphrase (Derived-HasKeys fills b h)

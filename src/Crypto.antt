-- ===== src/Crypto.antt =====
-- crypto/crypto.go: the keys of a connection, their exchange, and the encryption of payloads.
-- crypto/rand, crypto/pbkdf2, crypto/aes, crypto/cipher and the key wrap of openpgp are the record
-- `Primitives`, a parameter. rand/rand.go's `Read` passes crypto/rand's on.
pub mod Keys
pub mod Exchange
pub mod OverWire
pub mod Written
pub mod Sample
mod Runs
use gosrt.Common.{
  ℕ, ◌+◌, ◌*◌, ◌-◌, Bool, not, ◌||◌, Option, none, some, List, [], ◌∷◌, ◌++◌, length, take, drop,
  replicate, ◌==◌, if◌then◌else◌, bit_xor,
}
use gosrt.Packet.Types.{
  unencrypted_packet, even_key_encrypted, odd_key_encrypted, even_and_odd_key, encryption_is_valid,
}
use gosrt.Packet.Wire.{put32}
use gosrt.Packet.KeyMaterial.{KeyMaterial}

pub record Primitives : Type 1 where
  -- The state of the random source, and `rand.Read` into a buffer of that length.
  pub Random : Type 0
  pub read_random : Random → ℕ → Option (List ℕ) × Random
  -- pbkdf2.Key with SHA-1: passphrase, salt, iterations, length.
  pub derive_key : List ℕ → List ℕ → ℕ → ℕ → Option (List ℕ)
  -- keywrap.Wrap and keywrap.Unwrap
  pub wrap_key : List ℕ → List ℕ → Option (List ℕ)
  pub unwrap_key : List ℕ → List ℕ → Option (List ℕ)
  -- aes.NewCipher, and XORKeyStream of cipher.NewCTR for a block cipher and a counter.
  pub Block : Type 0
  pub new_cipher : List ℕ → Option Block
  pub xor_key_stream : Block → List ℕ → List ℕ → List ℕ

pub data CryptoError : Type 0 where
  invalid_key_size unknown_key_type invalid_key invalid_wrap invalid_salt invalid_sek : CryptoError
  -- An error of a primitive, passed on.
  primitive_error : CryptoError

pub record Crypto : Type 0 where
  pub salt : List ℕ
  pub key_length : ℕ
  pub even_sek : List ℕ
  pub odd_sek : List ℕ

-- Go's `copy` of a slice into another, which keeps its length.
abbrev pub copy : List ℕ → List ℕ → List ℕ
copy dst src = take (length dst) src ++ drop (length src) dst

-- `salt[i] ^ ctr[i]` for the bytes that both have.
unfoldable pub xor_bytes : List ℕ → List ℕ → List ℕ
xor_bytes [] ys = []
xor_bytes (x ∷ xs) [] = x ∷ xs
xor_bytes (x ∷ xs) (y ∷ ys) = bit_xor x y ∷ xor_bytes xs ys

-- The counter of the first block: the sequence number in the bytes 10 to 13, the first 14 bytes
-- combined with the salt.
unfoldable pub counter : List ℕ → ℕ → List ℕ
counter salt n = xor_bytes (replicate 10 0 ++ put32 n) (take 14 salt) ++ (0 ∷ 0 ∷ [])

abbrev pub valid_key_length : ℕ → Bool
valid_key_length n = (n == 16) || (n == 24) || (n == 32)

-- The number of keys in a message.
abbrev pub key_count : ℕ → ℕ
key_count key = if key == even_and_odd_key then 2 else 1

-- The keys of a message go where its flags say.
unfoldable pub store_keys : Crypto → ℕ → List ℕ → Crypto
store_keys c key keys =
    if key == even_key_encrypted
    then record c { even_sek = copy c.even_sek keys }
    else if key == odd_key_encrypted
    then record c { odd_sek = copy c.odd_sek keys }
    else record c {
      even_sek = copy c.even_sek (take c.key_length keys);
      odd_sek = copy c.odd_sek (drop c.key_length keys);
    }

-- The keys that a message carries: two halves of a fresh slice are filled for both keys.
unfoldable pub plain_keys : Crypto → ℕ → List ℕ
plain_keys c key =
    let zeros = replicate c.key_length 0 in
    if key == even_key_encrypted
    then copy zeros c.even_sek
    else if key == odd_key_encrypted
    then copy zeros c.odd_sek
    else copy zeros c.even_sek ++ copy zeros c.odd_sek

-- The fields that MarshalKM sets before it wraps the keys. `uint16(c.keyLength)` is the length
-- itself, which `new` bounds.
unfoldable pub announce : Crypto → KeyMaterial → ℕ → KeyMaterial
announce c km key = record km {
  s = 0;
  version = 1;
  packet_type = 2;
  sign = 0x2029;
  key_based_encryption = key;
  key_encryption_key_index = 0;
  cipher = 2;
  authentication = 0;
  stream_encapsulation = 2;
  slen = 16;
  klen = c.key_length;
  salt = copy (if length km.salt == 16 then km.salt else replicate 16 0) c.salt;
}

module _ (pr : Primitives) where
  open pr use {Random, read_random, derive_key, wrap_key, unwrap_key, new_cipher, xor_key_stream}

  unfoldable pub generate : ℕ → Random → Option (List ℕ) × Random
  generate n r = read_random r n

  unfoldable pub new : ℕ → Random → (Option Crypto) × Random
  new n r =
      if not (valid_key_length n)
      then (none, r)
      else let (salt, r₁) = generate 16 r in
        let (even, r₂) = generate n r₁ in
        let (odd, r₃) = generate n r₂ in
        elim salt [
          | none ↦ (none, r₁)
          | some salt ↦ elim even [
            | none ↦ (none, r₂)
            | some even ↦ elim odd [
              | none ↦ (none, r₃)
              | some odd ↦ (
                some (record { salt = salt; key_length = n; even_sek = even; odd_sek = odd }),
                r₃,
              )
            ]
          ]
        ]

  unfoldable pub generate_sek : Crypto → ℕ → Random → Crypto × Random × Option CryptoError
  generate_sek c key r =
      if not (encryption_is_valid key)
      then (c, r, some unknown_key_type)
      else let (fresh, r') = generate c.key_length r in
        elim fresh [
          | none ↦ (c, r', some primitive_error)
          | some sek ↦
              if key == even_key_encrypted
              then (record c { even_sek = sek }, r', none)
              else if key == odd_key_encrypted
              then (record c { odd_sek = sek }, r', none)
              else (c, r', none)
        ]

  unfoldable pub calculate_kek : List ℕ → List ℕ → ℕ → Option (List ℕ)
  calculate_kek passphrase salt n = derive_key passphrase (drop 8 salt) 2048 n

  abbrev pub bad_key : ℕ → Bool
  bad_key key = (key == unencrypted_packet) || not (encryption_is_valid key)

  -- What UnmarshalKM does once the salt is in place.
  unfoldable pub unwrap_keys : Crypto → KeyMaterial → List ℕ → Crypto × Option CryptoError
  unwrap_keys c km passphrase = elim (calculate_kek passphrase c.salt c.key_length) [
    | none ↦ (c, some primitive_error)
    | some kek ↦ elim (unwrap_key kek km.wrap) [
      | none ↦ (c, some primitive_error)
      | some keys ↦
          if not (length keys == key_count km.key_based_encryption * c.key_length)
          then (c, some invalid_wrap)
          else (store_keys c km.key_based_encryption keys, none)
    ]
  ]

  abbrev pub take_salt : Crypto → KeyMaterial → Crypto
  take_salt c km = if length km.salt == 0 then c else record c { salt = copy c.salt km.salt }

  -- `len(km.Wrap)-8` is an int, which is negative for a shorter wrap.
  unfoldable pub unmarshal_km : Crypto → KeyMaterial → List ℕ → Crypto × Option CryptoError
  unmarshal_km c km passphrase =
      if bad_key km.key_based_encryption
      then (c, some invalid_key)
      else if not (length km.wrap == key_count km.key_based_encryption * c.key_length + 8)
      then (c, some invalid_wrap)
      else unwrap_keys (take_salt c km) km passphrase

  -- The message with the wrapped keys, or as far as it was filled in.
  unfoldable pub wrap_keys : Crypto → KeyMaterial → List ℕ → ℕ → KeyMaterial × Option CryptoError
  wrap_keys c km passphrase key = elim (calculate_kek passphrase c.salt c.key_length) [
    | none ↦ (km, some primitive_error)
    | some kek ↦ elim (wrap_key kek (plain_keys c key)) [
      | none ↦ (km, some primitive_error)
      | some w ↦ (record km { wrap = w }, none)
    ]
  ]

  unfoldable pub marshal_km : Crypto → KeyMaterial → List ℕ → ℕ → KeyMaterial × Option CryptoError
  marshal_km c km passphrase key =
      if bad_key key then (km, some invalid_key) else wrap_keys c (announce c km key) passphrase key

  -- The payload with the key stream of a key and a counter; without a cipher it stays.
  unfoldable pub xor_stream : List ℕ → List ℕ → List ℕ → List ℕ × Option CryptoError
  xor_stream sek ctr payload = elim (new_cipher sek) [
    | none ↦ (payload, some primitive_error)
    | some b ↦ (xor_key_stream b ctr payload, none)
  ]

  -- The payload is changed in place; on an error it stays.
  unfoldable pub encrypt_or_decrypt_payload : Crypto → List ℕ → ℕ → ℕ → List ℕ × Option CryptoError
  encrypt_or_decrypt_payload c payload key n =
      if not (length c.salt == 16)
      then (payload, some invalid_salt)
      else if key == even_key_encrypted
      then xor_stream c.even_sek (counter c.salt n) payload
      else if key == odd_key_encrypted
      then xor_stream c.odd_sek (counter c.salt n) payload
      else (payload, some invalid_sek)

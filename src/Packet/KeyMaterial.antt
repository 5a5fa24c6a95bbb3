-- ===== src/Packet/KeyMaterial.antt =====
-- packet/packet.go: the key material message.
pub mod Fields
pub mod RoundTrip
pub mod Fits
pub mod Quiet
use gosrt.Common.{
  ℕ, ◌+◌, ◌*◌, ◌/◌, ◌%◌, ◌^◌, Bool, true, false, not, ◌&&◌, ◌||◌, List, [], ◌∷◌, ◌++◌, length, take,
  drop, ltb, ◌==◌, if◌then◌else◌, bit_and, bit_or,
}
use gosrt.Packet.Types.{unencrypted_packet, even_and_odd_key, encryption_is_valid}
use gosrt.Packet.Wire.{
  reading, Result, ok, err, panics, ◌>>=◌, too_short, invalid_error, invalid_s, invalid_version,
  invalid_packet_type, invalid_signature, invalid_key_flags, invalid_key_index,
  invalid_encapsulation, invalid_key_length, invalid_salt_length, put16, put32, byte_at, uint16,
  uint32,
}

pub record KeyMaterial : Type 0 where
  pub error : ℕ
  pub s : ℕ
  pub version : ℕ
  pub packet_type : ℕ
  pub sign : ℕ
  pub resv1 : ℕ
  pub key_based_encryption : ℕ
  pub key_encryption_key_index : ℕ
  pub cipher : ℕ
  pub authentication : ℕ
  pub stream_encapsulation : ℕ
  pub resv2 : ℕ
  pub resv3 : ℕ
  pub slen : ℕ
  pub klen : ℕ
  pub salt : List ℕ
  pub wrap : List ℕ

-- An error response carries a code, in little endian.
abbrev pub km_no_secret : ℕ
km_no_secret = 3

abbrev pub km_bad_secret : ℕ
km_bad_secret = 4

abbrev little_uint32 : List ℕ → ℕ
little_uint32 d = byte_at d 0 + byte_at d 1 * 2 ^ 8 + byte_at d 2 * 2 ^ 16 + byte_at d 3 * 2 ^ 24

pub unmarshal_error : KeyMaterial → List ℕ → Result KeyMaterial
unmarshal_error c d =
    let e = little_uint32 d in
    reading 4 d (
      if (e == km_no_secret) || (e == km_bad_secret)
      then ok (record c { error = e })
      else err invalid_error)

-- The fixed fields, as they stand in the first 16 bytes.
pub read_fields : KeyMaterial → List ℕ → KeyMaterial
read_fields c d = record c {
  s = bit_and (byte_at d 0) 0x80 / 2 ^ 7;
  version = bit_and (byte_at d 0) 0x70 / 2 ^ 4;
  packet_type = bit_and (byte_at d 0) 0x0f;
  sign = uint16 d 1;
  resv1 = bit_and (byte_at d 3) 0xfc / 2 ^ 2;
  key_based_encryption = bit_and (byte_at d 3) 0x03;
  key_encryption_key_index = uint32 d 4;
  cipher = byte_at d 8;
  authentication = byte_at d 9;
  stream_encapsulation = byte_at d 10;
  resv2 = byte_at d 11;
  resv3 = uint16 d 12;
  slen = byte_at d 14 * 4;
  klen = byte_at d 15 * 4;
}

-- The tests of the fixed fields, in their order.
pub check_fields : KeyMaterial → Result KeyMaterial
check_fields c =
    if not (c.s == 0)
    then err invalid_s
    else if not (c.version == 1)
    then err invalid_version
    else if not (c.packet_type == 2)
    then err invalid_packet_type
    else if not (c.sign == 0x2029)
    then err invalid_signature
    else if not (encryption_is_valid c.key_based_encryption)
        || (c.key_based_encryption == unencrypted_packet)
    then err invalid_key_flags
    else if not (c.key_encryption_key_index == 0)
    then err invalid_key_index
    else if not (c.stream_encapsulation == 2)
    then err invalid_encapsulation
    else if not ((c.klen == 16) || (c.klen == 24) || (c.klen == 32))
    then err invalid_key_length
    else ok c

-- The size of the wrapped keys: one, or two.
unfoldable pub wrap_size : KeyMaterial → ℕ
wrap_size c = (if c.key_based_encryption == even_and_odd_key then 2 else 1) * c.klen + 8

pub read_wrap : KeyMaterial → List ℕ → Result KeyMaterial
read_wrap c rest =
    if ltb (length rest) (wrap_size c)
    then err too_short
    else ok (record c { wrap = take (wrap_size c) rest })

pub read_salt : KeyMaterial → List ℕ → Result KeyMaterial
read_salt c rest =
    if c.slen == 0
    then read_wrap c rest
    else if not (c.slen == 16)
    then err invalid_salt_length
    else if ltb (length rest) 16
    then err too_short
    else reading 16 rest (read_wrap (record c { salt = take 16 rest }) (drop 16 rest))

pub unmarshal : KeyMaterial → List ℕ → Result KeyMaterial
unmarshal c d =
    if length d == 4
    then unmarshal_error c d
    else if ltb (length d) 16
    then err too_short
    else reading 16 d (check_fields (read_fields c d) >>= (λ c. read_salt c (drop 16 d)))

-- The first 16 bytes; fields are uint8 or uint16, so shifts and conversions wrap.
pub fixed_bytes : KeyMaterial → List ℕ
fixed_bytes c =
    bit_or (bit_or (bit_and (c.s * 2 ^ 7 % 2 ^ 8) 0x80) (bit_and (c.version * 2 ^ 4 % 2 ^ 8) 0x70))
      (bit_and c.packet_type 0x0f)
    ∷ (put16 c.sign
        ++ (bit_or (bit_and (c.resv1 * 2 ^ 2 % 2 ^ 8) 0xfc)
              (bit_and (c.key_based_encryption % 2 ^ 8) 0x03)
            ∷ (put32 c.key_encryption_key_index
                ++ (c.cipher
                    ∷ c.authentication
                    ∷ c.stream_encapsulation
                    ∷ c.resv2
                    ∷ (put16 c.resv3 ++ ((c.slen / 4 % 2 ^ 8) ∷ (c.klen / 4 % 2 ^ 8) ∷ []))))))

-- The buffer has 128 bytes, and a slice beyond them panics.
pub marshal : KeyMaterial → Result (List ℕ)
marshal c =
    let bytes = fixed_bytes c ++ ((if c.slen == 0 then [] else c.salt) ++ c.wrap) in
    if ltb 128 (length bytes) then panics else ok bytes

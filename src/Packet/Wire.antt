-- ===== src/Packet/Wire.antt =====
-- Go's encoding/binary as packet/packet.go uses it, and the results of the parsers.
use gosrt.Common.{
  ℕ, ◌+◌, ◌*◌, ◌/◌, ◌%◌, ◌^◌, ◌<◌, ◌≡◌, refl, length, ltb, if◌then◌else◌, List, [], ◌∷◌, get_or,
  bit_and, bit_or,
}
use gosrt.Common.Bits.{agree_below, agree_below→eq}

pub data Error : Type 0 where
  too_short invalid_payload not_control invalid_length invalid_error invalid_s invalid_version
        invalid_packet_type invalid_signature invalid_key_flags invalid_key_index
        invalid_encapsulation invalid_key_length invalid_salt_length invalid_encryption_field
        invalid_ip :
      Error

-- `panics` is an index or a slice bound out of range.
pub data Result {ℓ} (A : Type ℓ) : Type ℓ where
  ok : A → Result A
  err : Error → Result A
  panics : Result A

infixl 5 ◌>>=◌
abbrev pub ◌>>=◌ {ℓ κ} : {A : Type ℓ} {B : Type κ} → Result A → (A → Result B) → Result B
ok a >>= f = f a
err e >>= f = err e
panics >>= f = panics

-- `r`, once `n` bytes of `d` are read: where there are fewer, the index is out of range.
abbrev pub reading {ℓ} : {A : Type ℓ} → ℕ → List ℕ → Result A → Result A
reading n d r = if ltb (length d) n then panics else r

-- BigEndian.PutUint16 and PutUint32
abbrev pub put16 : ℕ → List ℕ
put16 v = (v / 2 ^ 8 % 2 ^ 8) ∷ (v % 2 ^ 8) ∷ []

abbrev pub put32 : ℕ → List ℕ
put32 v = (v / 2 ^ 24 % 2 ^ 8) ∷ (v / 2 ^ 16 % 2 ^ 8) ∷ (v / 2 ^ 8 % 2 ^ 8) ∷ (v % 2 ^ 8) ∷ []

-- `d[i]`, where a length test stands before.
abbrev pub byte_at : List ℕ → ℕ → ℕ
byte_at d i = get_or d i 0

-- BigEndian.Uint16(d[i:]) and Uint32(d[i:])
abbrev pub uint16 : List ℕ → ℕ → ℕ
uint16 d i = byte_at d i * 2 ^ 8 + byte_at d (i + 1)

abbrev pub uint32 : List ℕ → ℕ → ℕ
uint32 d i =
    byte_at d i * 2 ^ 24
    + byte_at d (i + 1) * 2 ^ 16
    + byte_at d (i + 2) * 2 ^ 8
    + byte_at d (i + 3)

-- Flags of one byte.
pub flag_0x80 : (b : ℕ) → b < 256 → bit_and b 0x80 ≡ b / 128 * 128
unfolding agree_below
flag_0x80 = agree_below→eq _ _ 256 refl

pub field_0xc0 : (b : ℕ) → b < 256 → bit_and b 0xc0 ≡ b / 64 * 64
unfolding agree_below
field_0xc0 = agree_below→eq _ _ 256 refl

pub flag_0x20 : (b : ℕ) → b < 256 → bit_and b 0x20 ≡ b / 32 % 2 * 32
unfolding agree_below
flag_0x20 = agree_below→eq _ _ 256 refl

pub field_0x18 : (b : ℕ) → b < 256 → bit_and b 0x18 ≡ b / 8 % 4 * 8
unfolding agree_below
field_0x18 = agree_below→eq _ _ 256 refl

pub flag_0x04 : (b : ℕ) → b < 256 → bit_and b 0x04 ≡ b / 4 % 2 * 4
unfolding agree_below
flag_0x04 = agree_below→eq _ _ 256 refl

pub field_0x03 : (b : ℕ) → b < 256 → bit_and b 0x03 ≡ b % 4
unfolding agree_below
field_0x03 = agree_below→eq _ _ 256 refl

pub set_0x80 : (b : ℕ) → b < 128 → bit_or b 0x80 ≡ b + 128
unfolding agree_below
set_0x80 = agree_below→eq _ _ 128 refl

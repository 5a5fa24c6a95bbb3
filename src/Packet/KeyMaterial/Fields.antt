-- ===== src/Packet/KeyMaterial/Fields.antt =====
-- The fixed fields of key material, written and read.
use gosrt.Common.{
  ℕ, ◌+◌, ◌*◌, ◌/◌, ◌%◌, ◌^◌, ◌<◌, ◌≡◌, ◌≢◌, ◌⊎◌, inl, inr, refl, sym, ap, ◌∙◌, arith, false, not,
  List, ◌++◌, length, ◌||◌, ◌==◌, bit_and, bit_or, IsByte, IsU16,
}
use gosrt.Common.Bits.{agree_below, agree_below→eq}
use gosrt.Packet.Types.{unencrypted_packet, encryption_is_valid}
use gosrt.Packet.Wire.{ok, byte_at, uint16, uint32, field_0x03}
use gosrt.Packet.KeyMaterial.{KeyMaterial, wrap_size, fixed_bytes, read_fields, check_fields}

-- Key material that the protocol allows.
pub record IsValid (c : KeyMaterial) : Type 0 where
  pub s : c.s ≡ 0
  pub version : c.version ≡ 1
  pub packet_type : c.packet_type ≡ 2
  pub sign : c.sign ≡ 0x2029
  pub resv1 : c.resv1 < 64
  pub some_key : 0 < c.key_based_encryption
  pub key_flags : c.key_based_encryption < 4
  pub key_index : c.key_encryption_key_index ≡ 0
  pub cipher : IsByte c.cipher
  pub authentication : IsByte c.authentication
  pub encapsulation : c.stream_encapsulation ≡ 2
  pub resv2 : IsByte c.resv2
  pub resv3 : IsU16 c.resv3
  pub klen : (c.klen ≡ 16) ⊎ (c.klen ≡ 24) ⊎ (c.klen ≡ 32)
  pub slen : (c.slen ≡ 0) ⊎ (c.slen ≡ 16)
  pub salt : c.slen ≢ 0 → length c.salt ≡ 16
  pub wrap : length c.wrap ≡ wrap_size c

abbrev byte3 : ℕ → ℕ
byte3 i = bit_or (bit_and (i / 4 * 2 ^ 2 % 2 ^ 8) 0xfc) (bit_and (i % 4 % 2 ^ 8) 0x03)

byte3_same : (i : ℕ) → i < 256 → byte3 i ≡ i
unfolding agree_below
byte3_same = agree_below→eq byte3 (λ i. i) 256 refl

field_0xfc : (b : ℕ) → b < 256 → bit_and b 0xfc ≡ b / 4 * 4
unfolding agree_below
field_0xfc = agree_below→eq _ _ 256 refl

byte3_lem :
    (c : KeyMaterial)
    → IsValid c
    → bit_or
        (bit_and (c.resv1 * 2 ^ 2 % 2 ^ 8) 0xfc)
        (bit_and (c.key_based_encryption % 2 ^ 8) 0x03)
      ≡ c.resv1 * 4 + c.key_based_encryption
byte3_lem c v =
    let i = c.resv1 * 4 + c.key_based_encryption in
    let e : (i / 4 ≡ c.resv1) = omega (arith, v.key_flags) in
    let f : (i % 4 ≡ c.key_based_encryption) = omega (arith, v.key_flags) in
    rw (e, f) at (byte3_same i (omega (arith, v.key_flags, v.resv1)))

-- The fields of a header that was written.
pub read_fixed :
    (old c : KeyMaterial) (rest : List ℕ)
    → IsValid c
    → read_fields old (fixed_bytes c ++ rest)
      ≡ record c { error = old.error; salt = old.salt; wrap = old.wrap }
unfolding read_fields fixed_bytes
read_fixed old c rest v =
    let k = byte3_lem c v in
    let b = c.resv1 * 4 + c.key_based_encryption in
    let small : (b < 256) = omega (arith, v.key_flags, v.resv1) in
    let first : (byte_at (fixed_bytes c) 0 ≡ 0x12) = rw (v.s, v.version, v.packet_type) refl in
    let r : (bit_and (byte_at (fixed_bytes c) 3) 0xfc / 2 ^ 2 ≡ c.resv1) =
      rw k (omega (arith, field_0xfc b small, v.key_flags)) in
    let f : (bit_and (byte_at (fixed_bytes c) 3) 0x03 ≡ c.key_based_encryption) =
      rw k (omega (arith, field_0x03 b small, v.key_flags)) in
    let g : (uint16 (fixed_bytes c) 1 ≡ c.sign) = omega (arith, v.sign) in
    let j : (uint32 (fixed_bytes c) 4 ≡ c.key_encryption_key_index) = omega (arith, v.key_index) in
    let h : (uint16 (fixed_bytes c) 12 ≡ c.resv3) = omega (arith, v.resv3) in
    let l : (byte_at (fixed_bytes c) 14 * 4 ≡ c.slen) = elim v.slen [
      | inl e ↦ omega arith
      | inr e ↦ omega arith
    ] in
    let m : (byte_at (fixed_bytes c) 15 * 4 ≡ c.klen) = elim v.klen [
      | inl e ↦ omega arith
      | inr (inl e) ↦ omega arith
      | inr (inr e) ↦ omega arith
    ] in
    λ i. record {
      error = old.error;
      s = (ap (λ t. bit_and t 0x80 / 2 ^ 7) first ∙ sym v.s) i;
      version = (ap (λ t. bit_and t 0x70 / 2 ^ 4) first ∙ sym v.version) i;
      packet_type = (ap (λ t. bit_and t 0x0f) first ∙ sym v.packet_type) i;
      sign = g i;
      resv1 = r i;
      key_based_encryption = f i;
      key_encryption_key_index = j i;
      cipher = c.cipher;
      authentication = c.authentication;
      stream_encapsulation = c.stream_encapsulation;
      resv2 = c.resv2;
      resv3 = h i;
      slen = l i;
      klen = m i;
      salt = old.salt;
      wrap = old.wrap;
    }

klen_test :
    (k : ℕ) → (k ≡ 16) ⊎ (k ≡ 24) ⊎ (k ≡ 32) → not ((k == 16) || (k == 24) || (k == 32)) ≡ false
klen_test k (inl e) = rw e refl
klen_test k (inr (inl e)) = rw e refl
klen_test k (inr (inr e)) = rw e refl

key_test :
    (k : ℕ) → 0 < k → k < 4 → not (encryption_is_valid k) || (k == unencrypted_packet) ≡ false
unfolding encryption_is_valid
key_test k p q = ground arith

pub check_valid :
    (c : KeyMaterial) (e : ℕ) (salt wrap : List ℕ)
    → IsValid c
    → check_fields (record c { error = e; salt = salt; wrap = wrap })
      ≡ ok (record c { error = e; salt = salt; wrap = wrap })
unfolding check_fields
check_valid c e salt wrap v =
    rw
      (
        v.s,
        v.version,
        v.packet_type,
        v.sign,
        v.key_index,
        v.encapsulation,
        klen_test c.klen v.klen,
        key_test c.key_based_encryption v.some_key v.key_flags,
      )
      refl

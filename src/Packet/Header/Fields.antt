-- ===== src/Packet/Header/Fields.antt =====
-- The fields of a packet header as they stand in its bytes.
use gosrt.Common.{
  ℕ, ◌+◌, ◌-◌, ◌*◌, ◌/◌, ◌%◌, ◌^◌, ◌≤◌, ◌<◌, ◌≡◌, refl, ◌∙◌, arith, Bool, true, false,
  if◌then◌else◌, u32, bit_and, bit_or, IsU16, IsU32,
}
use gosrt.Common.Bits.{agree_below, agree_below→eq, bit_and_26}
use gosrt.Circular.Offset.{IsSeq}
use gosrt.Packet.Types.{PacketHeader}
use gosrt.Packet.Wire.{
  flag_0x80, field_0xc0, flag_0x20, field_0x18, flag_0x04, set_0x80, uint32, put32,
}
use gosrt.Packet.Header.{is_set, flags}

-- The fields fit the bits that the wire format has for them.
pub record Fits (h : PacketHeader) : Type 0 where
  pub control_type_fits : h.control_type < 2 ^ 15
  pub sub_type_fits : IsU16 h.sub_type
  pub type_specific_fits : IsU32 h.type_specific
  pub sequence : IsSeq h.packet_sequence_number
  pub position_fits : h.packet_position_flag < 4
  pub encryption_fits : h.key_base_encryption_flag < 4
  pub message_fits : h.message_number < 2 ^ 26
  pub timestamp_fits : IsU32 h.timestamp
  pub destination_fits : IsU32 h.destination_socket_id

-- What the reader makes of a header: the fields of its kind of packet, over those that it had.
abbrev pub received_control : PacketHeader → PacketHeader → PacketHeader
received_control old h = record old {
  is_control_packet = true;
  control_type = h.control_type;
  sub_type = h.sub_type;
  type_specific = h.type_specific;
  timestamp = h.timestamp;
  destination_socket_id = h.destination_socket_id;
}

abbrev pub received_data : PacketHeader → PacketHeader → PacketHeader
received_data old h = record old {
  is_control_packet = false;
  packet_sequence_number = h.packet_sequence_number;
  packet_position_flag = h.packet_position_flag;
  order_flag = h.order_flag;
  key_base_encryption_flag = h.key_base_encryption_flag;
  retransmitted_packet_flag = h.retransmitted_packet_flag;
  message_number = h.message_number;
  timestamp = h.timestamp;
  destination_socket_id = h.destination_socket_id;
}

abbrev pub received : PacketHeader → PacketHeader → PacketHeader
received old h = if h.is_control_packet then received_control old h else received_data old h

abbrev bit : Bool → ℕ
bit true = 1
bit false = 0

bit-le : (b : Bool) → bit b ≤ 1
bit-le true = omega arith
bit-le false = omega arith

abbrev or_flags : Bool → Bool → ℕ → ℕ
or_flags o r i =
    let f = bit_and (i / 4) 3 * 2 ^ 6 in
    let f = if o then bit_or f (2 ^ 5) else f in
    let f = bit_or f (bit_and (i % 4) 3 * 2 ^ 3) in if r then bit_or f (2 ^ 2) else f

abbrev sum_flags : Bool → Bool → ℕ → ℕ
sum_flags o r i = i / 4 * 64 + bit o * 32 + i % 4 * 8 + bit r * 4

or_flags_sum : (o r : Bool) (i : ℕ) → i < 16 → or_flags o r i ≡ sum_flags o r i
unfolding agree_below
or_flags_sum true true = agree_below→eq (or_flags true true) (sum_flags true true) 16 refl
or_flags_sum true false = agree_below→eq (or_flags true false) (sum_flags true false) 16 refl
or_flags_sum false true = agree_below→eq (or_flags false true) (sum_flags false true) 16 refl
or_flags_sum false false = agree_below→eq (or_flags false false) (sum_flags false false) 16 refl

flags_lem :
    (h : PacketHeader)
    → h.packet_position_flag < 4
    → h.key_base_encryption_flag < 4
    → flags h
      ≡ h.packet_position_flag * 64
        + bit h.order_flag * 32
        + h.key_base_encryption_flag * 8
        + bit h.retransmitted_packet_flag * 4
unfolding flags
flags_lem h p k =
    let i = h.packet_position_flag * 4 + h.key_base_encryption_flag in
    let e : (i / 4 ≡ h.packet_position_flag) = omega arith in
    let f : (i % 4 ≡ h.key_base_encryption_flag) = omega arith in
    rw (e, f) at (or_flags_sum h.order_flag h.retransmitted_packet_flag i (omega arith))

-- The second word of a data packet.
unfoldable pub field : PacketHeader → ℕ
field h = u32 (u32 (flags h * 2 ^ 24) + bit_and h.message_number 0x3ff_ffff)

pub record Word (h : PacketHeader) (w : ℕ) : Type 0 where
  pub position : bit_and (w / 2 ^ 24 % 2 ^ 8) 0xc0 / 2 ^ 6 ≡ h.packet_position_flag
  pub order : is_set (w / 2 ^ 24 % 2 ^ 8) 0x20 ≡ h.order_flag
  pub encryption : bit_and (w / 2 ^ 24 % 2 ^ 8) 0x18 / 2 ^ 3 ≡ h.key_base_encryption_flag
  pub again : is_set (w / 2 ^ 24 % 2 ^ 8) 0x04 ≡ h.retransmitted_packet_flag
  pub number : bit_and (uint32 (put32 w) 0) 0x3ff_ffff ≡ h.message_number

pub is_set-bit : (b mask k : ℕ) (v : Bool) → 0 < k → bit_and b mask ≡ bit v * k → is_set b mask ≡ v
unfolding is_set
is_set-bit b mask k true p e = ground arith
is_set-bit b mask k false p e = ground arith

field_lem :
    (h : PacketHeader)
    → Fits h
    → field h
      ≡ h.packet_position_flag * 2 ^ 30
        + bit h.order_flag * 2 ^ 29
        + h.key_base_encryption_flag * 2 ^ 27
        + bit h.retransmitted_packet_flag * 2 ^ 26
        + h.message_number
unfolding field
field_lem h f =
    rw (flags_lem h f.position_fits f.encryption_fits, bit_and_26 h.message_number)
      (omega (arith, bit-le h.order_flag, bit-le h.retransmitted_packet_flag))

pub field-Word : (h : PacketHeader) → Fits h → Word h (field h)
field-Word h f =
    let w = field h in
    let e = field_lem h f in
    let o = bit-le h.order_flag in
    let r = bit-le h.retransmitted_packet_flag in
    let b = w / 2 ^ 24 % 2 ^ 8 in
    let small : (b < 256) = omega arith in
    record {
      position = omega (arith, field_0xc0 b small);
      order = is_set-bit b 0x20 32 h.order_flag (omega arith) (omega (arith, flag_0x20 b small));
      encryption = omega (arith, field_0x18 b small);
      again =
          is_set-bit b 0x04 4 h.retransmitted_packet_flag (omega arith)
            (omega (arith, flag_0x04 b small));
      number = bit_and_26 (uint32 (put32 w) 0) ∙ omega arith;
    }

-- The first byte of a data packet, and of a control packet.
pub data_byte : (v : ℕ) → v ≤ 2 ^ 31 - 1 → is_set (v / 2 ^ 24 % 2 ^ 8) 0x80 ≡ false
data_byte v h =
    is_set-bit (v / 2 ^ 24 % 2 ^ 8) 0x80 128 false (omega arith)
      (omega (arith, flag_0x80 (v / 2 ^ 24 % 2 ^ 8) (omega arith)))

pub control_byte : (b : ℕ) → b < 128 → is_set (bit_or b 0x80) 0x80 ≡ true
control_byte b h = rw (set_0x80 b h) (
    is_set-bit (b + 128) 0x80 128 true (omega arith)
      (omega (arith, flag_0x80 (b + 128) (omega arith))))

-- ===== src/Packet/Header.antt =====
-- packet/packet.go: `Marshal` and `Unmarshal` of a packet. Address fields are not part of the model,
-- nor is a nil writer.
pub mod Fields
pub mod RoundTrip
use gosrt.Common.{
  ℕ, ◌+◌, ◌*◌, ◌/◌, ◌%◌, ◌^◌, Bool, true, false, not, Option, none, some, List, [], ◌∷◌, ◌++◌,
  length, drop, ltb, ◌==◌, if◌then◌else◌, u32, bit_and, bit_or,
}
use gosrt.Circular.{new}
use gosrt.Packet.Types.{PacketHeader, Packet, max_sequence_number, new_packet, decommission}
use gosrt.Packet.Wire.{
  Result, ok, err, panics, too_short, invalid_payload, put16, put32, byte_at, uint16, uint32,
}

unfoldable pub is_set : ℕ → ℕ → Bool
is_set b mask = not (bit_and b mask == 0)

pub unmarshal_control : PacketHeader → List ℕ → PacketHeader
unmarshal_control h d = record h {
  is_control_packet = true;
  control_type = bit_and (uint16 d 0) 0x7fff;
  sub_type = uint16 d 2;
  type_specific = uint32 d 4;
}

pub unmarshal_data : PacketHeader → List ℕ → PacketHeader
unmarshal_data h d = record h {
  is_control_packet = false;
  packet_sequence_number = new (uint32 d 0) max_sequence_number;
  packet_position_flag = bit_and (byte_at d 4) 0xc0 / 2 ^ 6;
  order_flag = is_set (byte_at d 4) 0x20;
  key_base_encryption_flag = bit_and (byte_at d 4) 0x18 / 2 ^ 3;
  retransmitted_packet_flag = is_set (byte_at d 4) 0x04;
  message_number = bit_and (uint32 d 4) 0x3ff_ffff;
}

-- The payload buffer of a packet that was given back to the pool is nil.
pub unmarshal : Packet → List ℕ → Result Packet
unmarshal p d =
    let h =
      if is_set (byte_at d 0) 0x80
      then unmarshal_control p.header d
      else unmarshal_data p.header d in
    if ltb (length d) 16 then err too_short else elim p.payload [
      | none ↦ panics
      | some _ ↦ ok (record {
        header = record h { timestamp = uint32 d 8; destination_socket_id = uint32 d 12 };
        payload = some (drop 16 d);
      })
    ]

-- `NewPacketFromData`
pub new_packet_from_data : List ℕ → Result Packet
new_packet_from_data d = if length d == 0 then ok new_packet else unmarshal new_packet d

pub set_data : Packet → List ℕ → Result Packet
set_data p d = elim p.payload [ none ↦ panics | some _ ↦ ok (record p { payload = some d }) ]

-- The flags of a data packet, in one byte.
pub flags : PacketHeader → ℕ
flags h =
    let f = bit_and h.packet_position_flag 3 * 2 ^ 6 in
    let f = if h.order_flag then bit_or f (2 ^ 5) else f in
    let f = bit_or f (bit_and h.key_base_encryption_flag 3 * 2 ^ 3) in
    if h.retransmitted_packet_flag then bit_or f (2 ^ 2) else f

-- The first byte of a control packet gets its top bit.
abbrev pub mark_control : List ℕ → List ℕ
mark_control [] = []
mark_control (b ∷ bs) = bit_or b 0x80 ∷ bs

-- The first two words.
pub control_words : PacketHeader → List ℕ
control_words h = mark_control (put16 h.control_type ++ (put16 h.sub_type ++ put32 h.type_specific))

pub data_words : PacketHeader → List ℕ
data_words h =
    put32 h.packet_sequence_number.value
    ++ put32 (u32 (u32 (flags h * 2 ^ 24) + bit_and h.message_number 0x3ff_ffff))

pub marshal_header : PacketHeader → List ℕ
marshal_header h =
    (if h.is_control_packet then control_words h else data_words h)
    ++ (put32 h.timestamp ++ put32 h.destination_socket_id)

pub marshal : Packet → Result (List ℕ)
marshal p = elim p.payload [
  | none ↦ err invalid_payload
  | some b ↦ ok (marshal_header p.header ++ b)
]

-- ===== src/Packet/Ack.antt =====
-- packet/packet.go: the control information field of an acknowledgement, full, small or lite.
pub mod RoundTrip
use gosrt.Common.{ℕ, ◌+◌, ◌*◌, ◌/◌, ◌%◌, ◌^◌, Bool, true, false, List, ◌∷◌, [], ◌++◌, length, take}
use gosrt.Common.{ltb, ◌==◌, if◌then◌else◌, bit_and}
use gosrt.Circular.{Number, new}
use gosrt.Packet.Types.{max_sequence_number}
use gosrt.Packet.Wire.{Result, ok, err, too_short, put32, uint32}

pub record CifAck : Type 0 where
  pub is_lite : Bool
  pub is_small : Bool
  pub last_ack_packet_sequence_number : Number
  pub rtt : ℕ
  pub rtt_var : ℕ
  pub available_buffer_size : ℕ
  pub packets_receiving_rate : ℕ
  pub estimated_link_capacity : ℕ
  pub receiving_rate : ℕ

-- A sequence number of a control information field: the top bit of the word is not part of it.
abbrev pub read_sequence_number : List ℕ → ℕ → Number
read_sequence_number d i = new (bit_and (uint32 d i) max_sequence_number) max_sequence_number

pub unmarshal : CifAck → List ℕ → Result CifAck
unmarshal c d =
    if length d == 4
    then ok (record c {
      is_lite = true;
      is_small = false;
      last_ack_packet_sequence_number = read_sequence_number d 0;
    })
    else if length d == 16
    then ok (record c {
      is_lite = false;
      is_small = true;
      last_ack_packet_sequence_number = read_sequence_number d 0;
      rtt = uint32 d 4;
      rtt_var = uint32 d 8;
      available_buffer_size = uint32 d 12;
    })
    else if ltb (length d) 28
    then err too_short
    else ok (record {
      is_lite = false;
      is_small = false;
      last_ack_packet_sequence_number = read_sequence_number d 0;
      rtt = uint32 d 4;
      rtt_var = uint32 d 8;
      available_buffer_size = uint32 d 12;
      packets_receiving_rate = uint32 d 16;
      estimated_link_capacity = uint32 d 20;
      receiving_rate = uint32 d 24;
    })

pub marshal : CifAck → List ℕ
marshal c =
    let buffer =
      put32 c.last_ack_packet_sequence_number.value
      ++ (put32 c.rtt
          ++ (put32 c.rtt_var
              ++ (put32 c.available_buffer_size
                  ++ (put32 c.packets_receiving_rate
                      ++ (put32 c.estimated_link_capacity ++ put32 c.receiving_rate))))) in
    if c.is_lite then take 4 buffer else if c.is_small then take 16 buffer else buffer

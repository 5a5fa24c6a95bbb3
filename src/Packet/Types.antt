-- ===== src/Packet/Types.antt =====
-- packet/packet.go: constants, the packet header and the packet.
-- `Addr` and `LocalAddr`, which belong to Go's net package, are left out: nothing modelled reads them.
use gosrt.Common.{ℕ, Bool, false, Option, none, some, List, [], length}
use gosrt.Common.{ltb, ◌==◌, if◌then◌else◌}
use gosrt.Circular.{Number, new}

abbrev pub max_sequence_number : ℕ
max_sequence_number = 0x7fff_ffff

abbrev pub max_timestamp : ℕ
max_timestamp = 0xffff_ffff

abbrev pub max_payload_size : ℕ
max_payload_size = 1456

-- PacketPosition
abbrev pub single_packet : ℕ
single_packet = 3

-- PacketEncryption
abbrev pub unencrypted_packet : ℕ
unencrypted_packet = 0

abbrev pub even_key_encrypted : ℕ
even_key_encrypted = 1

abbrev pub odd_key_encrypted : ℕ
odd_key_encrypted = 2

abbrev pub even_and_odd_key : ℕ
even_and_odd_key = 3

unfoldable pub encryption_is_valid : ℕ → Bool
encryption_is_valid p = ltb p 4

unfoldable pub opposite : ℕ → ℕ
opposite p =
    if p == even_key_encrypted
    then odd_key_encrypted
    else if p == odd_key_encrypted
    then even_key_encrypted
    else p

pub record PacketHeader : Type 0 where
  pub is_control_packet : Bool
  pub pkt_tsbpd_time : ℕ
  pub control_type : ℕ
  pub sub_type : ℕ
  pub type_specific : ℕ
  pub packet_sequence_number : Number
  pub packet_position_flag : ℕ
  pub order_flag : Bool
  pub key_base_encryption_flag : ℕ
  pub retransmitted_packet_flag : Bool
  pub message_number : ℕ
  pub timestamp : ℕ
  pub destination_socket_id : ℕ

-- `payload` is nil after Decommission.
pub record Packet : Type 0 where
  pub header : PacketHeader
  pub open header use *
  pub payload : Option (List ℕ)

-- The payload of a packet that is in use. Go reads a nil buffer only after Decommission, and then
-- panics; the congestion control drops a packet when it decommissions it.
abbrev pub payload_data : Packet → List ℕ
payload_data p = elim p.payload [ none ↦ [] | some b ↦ b ]

abbrev pub len : Packet → ℕ
len p = length (payload_data p)

unfoldable pub decommission : Packet → Packet
decommission p = record p { payload = none }

unfoldable pub new_packet : Packet
unfolding new
new_packet = record {
  header = record {
    is_control_packet = false;
    pkt_tsbpd_time = 0;
    control_type = 0;
    sub_type = 0;
    type_specific = 0;
    packet_sequence_number = new 0 max_sequence_number;
    packet_position_flag = single_packet;
    order_flag = false;
    key_base_encryption_flag = unencrypted_packet;
    retransmitted_packet_flag = false;
    message_number = 1;
    timestamp = 0;
    destination_socket_id = 0;
  };
  payload = some [];
}

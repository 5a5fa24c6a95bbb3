-- ===== src/Packet/Runs.antt =====
-- Packets and control information on concrete bytes.
use gosrt.Common.{
  none, ℕ, ◌-◌, ◌^◌, ◌≡◌, refl, arith, true, false, some, List, [], ◌∷◌, ◌++◌, replicate, inl, inr,
}
use gosrt.Circular.{Number}
use gosrt.Packet.Types.{Packet, new_packet}
use gosrt.Packet.Wire.{Result, panics, ok, ◌>>=◌}
use gosrt.Packet.Header.{marshal, unmarshal}
use gosrt.Packet.Header.Fields.{received}
use gosrt.Packet.Header.RoundTrip.{unmarshal-marshal}
use gosrt.Packet.Ack.{CifAck}
use gosrt.Packet.Ack
use gosrt.Packet.Ack.RoundTrip.{unmarshal-marshal-Ack}
use gosrt.Packet.Nak
use gosrt.Packet.Nak.RoundTrip.{unmarshal-marshal-Nak}
use gosrt.Packet.HandshakeExtension.{HandshakeExtension}
use gosrt.Packet.Quiet.{quiet}
use gosrt.Packet.Handshake.{Handshake}
use gosrt.Packet.Handshake
use gosrt.Packet.Handshake.Panics.{unmarshal_returns, unmarshal-quiet_words, unmarshal_panics}
use gosrt.Packet.KeyMaterial.{KeyMaterial}
use gosrt.Packet.KeyMaterial
use gosrt.Packet.KeyMaterial.Fields.{IsValid}
use gosrt.Packet.KeyMaterial.RoundTrip.{unmarshal-marshal-KeyMaterial}

abbrev number : ℕ → Number
number v = record { max = 2 ^ 31 - 1; threshold = 2 ^ 30 - 1; value = v }

abbrev data_packet : Packet
data_packet = record {
  header = record {
    is_control_packet = false;
    pkt_tsbpd_time = 0;
    control_type = 0;
    sub_type = 0;
    type_specific = 0;
    packet_sequence_number = number 70_000;
    packet_position_flag = 3;
    order_flag = true;
    key_base_encryption_flag = 2;
    retransmitted_packet_flag = true;
    message_number = 5;
    timestamp = 123_456;
    destination_socket_id = 9;
  };
  payload = some (1 ∷ 2 ∷ 3 ∷ []);
}

unmarshal-marshal_example :
    (marshal data_packet >>= unmarshal new_packet)
    ≡ ok (record {
      header = received new_packet.header data_packet.header;
      payload = some (1 ∷ 2 ∷ 3 ∷ []);
    })
unfolding new_packet
unmarshal-marshal_example =
    unmarshal-marshal data_packet new_packet (1 ∷ 2 ∷ 3 ∷ []) [] refl (omega arith) refl

abbrev small_ack : CifAck
small_ack = record {
  is_lite = false;
  is_small = true;
  last_ack_packet_sequence_number = number 70_000;
  rtt = 100_000;
  rtt_var = 50_000;
  available_buffer_size = 8192;
  packets_receiving_rate = 1;
  estimated_link_capacity = 2;
  receiving_rate = 3;
}

unmarshal-marshal-Ack_example : Ack.unmarshal small_ack (Ack.marshal small_ack) ≡ ok small_ack
unmarshal-marshal-Ack_example = unmarshal-marshal-Ack small_ack small_ack (omega arith)

-- A single number and a range.
abbrev losses : List Number
losses = number 3 ∷ number 3 ∷ number 5 ∷ number 9 ∷ []

abbrev losses_bytes : List ℕ
losses_bytes = 0 ∷ 0 ∷ 0 ∷ 3 ∷ 128 ∷ 0 ∷ 0 ∷ 5 ∷ 0 ∷ 0 ∷ 0 ∷ 9 ∷ []

marshal-losses : Nak.marshal losses ≡ ok losses_bytes
unfolding Nak.marshal Nak.write
marshal-losses = refl

unmarshal-marshal-Nak_example : (Nak.marshal losses >>= Nak.unmarshal (λ l. l)) ≡ ok losses
unmarshal-marshal-Nak_example =
    unmarshal-marshal-Nak (λ l. l) losses (omega arith) refl (omega arith)

abbrev extension : HandshakeExtension
extension = record {
  srt_version = 0x010401;
  srt_flags = record {
    tsbpd_snd = true;
    tsbpd_rcv = true;
    crypt = true;
    tlpktdrop = true;
    periodic_nak = true;
    rexmit_flg = true;
    stream = false;
    packet_filter = false;
  };
  recv_tsbpd_delay = 120;
  send_tsbpd_delay = 120;
}

abbrev key_material : KeyMaterial
key_material = record {
  error = 0;
  s = 0;
  version = 1;
  packet_type = 2;
  sign = 0x2029;
  resv1 = 0;
  key_based_encryption = 3;
  key_encryption_key_index = 0;
  cipher = 2;
  authentication = 0;
  stream_encapsulation = 2;
  resv2 = 0;
  resv3 = 0;
  slen = 16;
  klen = 16;
  salt = replicate 16 7;
  wrap = replicate 40 9;
}

key_material-IsValid : IsValid key_material
unfolding KeyMaterial.wrap_size
key_material-IsValid = record {
  s = refl;
  version = refl;
  packet_type = refl;
  sign = refl;
  resv1 = omega arith;
  some_key = omega arith;
  key_flags = omega arith;
  key_index = refl;
  cipher = omega arith;
  authentication = omega arith;
  encapsulation = refl;
  resv2 = omega arith;
  resv3 = omega arith;
  klen = inl refl;
  slen = inr refl;
  salt = λ _. refl;
  wrap = refl;
}

unmarshal-marshal-KeyMaterial_example :
    (KeyMaterial.marshal key_material >>= KeyMaterial.unmarshal key_material) ≡ ok key_material
unmarshal-marshal-KeyMaterial_example =
    unmarshal-marshal-KeyMaterial key_material key_material key_material-IsValid

-- A handshake before anything is read.
abbrev blank : Handshake
blank = record {
  is_request = false;
  version = 0;
  encryption_field = 0;
  extension_field = 0;
  initial_packet_sequence_number = number 0;
  max_transmission_unit_size = 0;
  max_flow_window_size = 0;
  handshake_type = 0;
  srt_socket_id = 0;
  syn_cookie = 0;
  peer_ip = [];
  has_hs = false;
  has_km = false;
  has_sid = false;
  has_congestion_ctl = false;
  srt_hs = none;
  srt_km = none;
  stream_id = [];
  congestion_ctl = [];
}

-- A conclusion handshake of version 5 with extensions announced.
abbrev conclusion : List ℕ
conclusion = 0 ∷ 0 ∷ 0 ∷ 5 ∷ 0 ∷ 0 ∷ 0 ∷ 1 ∷ (replicate 12 0 ++ (replicate 4 255 ++ replicate 24 0))

-- A stream id of four bytes.
abbrev stream_extension : List ℕ
stream_extension = 0 ∷ 5 ∷ 0 ∷ 1 ∷ 100 ∷ 99 ∷ 98 ∷ 97 ∷ []

unmarshal_panics_example : Handshake.unmarshal blank (conclusion ++ (0 ∷ [])) ≡ some panics
unmarshal_panics_example =
    unmarshal_panics blank (conclusion ++ (0 ∷ [])) (omega arith) (omega arith) refl (omega arith)
      refl

unmarshal-quiet_words_example :
    (r : Result Handshake) × (Handshake.unmarshal blank (conclusion ++ stream_extension) ≡ some r)
    × (quiet r ≡ true)
unmarshal-quiet_words_example = unmarshal-quiet_words blank (conclusion ++ stream_extension) refl

unmarshal_returns_example :
    (r : Result Handshake) × (Handshake.unmarshal blank (conclusion ++ stream_extension) ≡ some r)
unmarshal_returns_example = unmarshal_returns blank (conclusion ++ stream_extension)

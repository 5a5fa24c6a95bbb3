-- ===== src/Packet/HandshakeWriter/Runs.antt =====
-- A handshake with a handshake extension and a stream id, written and read back.
use gosrt.Common.{ℕ, ◌^◌, ◌-◌, ◌≡◌, refl, arith, true, false, List, [], ◌∷◌, ◌++◌, none, some}
use gosrt.Packet.Wire.{ok}
use gosrt.Packet.HandshakeExtension.{HandshakeExtension}
use gosrt.Net.Ip.{ipv4}
use gosrt.Packet.Handshake.{Handshake, hstype_conclusion, unmarshal, trim_right}
use gosrt.Packet.HandshakeWriter.{marshal, write_words, pad}
use gosrt.Net.Ip.Ordinary.{Quad, is_ipv4}
use gosrt.Packet.HandshakeWriter.Blocks.{Plain, sent, received}
use gosrt.Packet.HandshakeWriter.RoundTrip.{unmarshal-marshal-Handshake}

abbrev extension : HandshakeExtension
extension = record {
  srt_version = 0x01_0401;
  srt_flags = record {
    tsbpd_snd = true;
    tsbpd_rcv = true;
    crypt = true;
    tlpktdrop = true;
    periodic_nak = true;
    rexmit_flg = true;
    stream = false;
    packet_filter = false;
  };
  recv_tsbpd_delay = 120;
  send_tsbpd_delay = 120;
}

-- "/live"
abbrev stream_name : List ℕ
stream_name = 47 ∷ 108 ∷ 105 ∷ 118 ∷ 101 ∷ []

abbrev caller : Handshake
caller = record {
  is_request = true;
  version = 5;
  encryption_field = 0;
  extension_field = 0;
  initial_packet_sequence_number = record {
    max = 2 ^ 31 - 1;
    threshold = 2 ^ 30 - 1;
    value = 4711;
  };
  max_transmission_unit_size = 1500;
  max_flow_window_size = 25_600;
  handshake_type = hstype_conclusion;
  srt_socket_id = 42;
  syn_cookie = 77;
  peer_ip = ipv4 127 0 0 1;
  has_hs = true;
  has_km = false;
  has_sid = true;
  has_congestion_ctl = false;
  srt_hs = some extension;
  srt_km = none;
  stream_id = stream_name;
  congestion_ctl = [];
}

caller-Plain : Plain caller
caller-Plain = record {
  version = refl;
  conclusion = refl;
  extended = refl;
  no_key = refl;
  live = refl;
  cipher = refl;
  sequence = omega arith;
  mtu_fits = omega arith;
  flow_fits = omega arith;
  socket_fits = omega arith;
  cookie_fits = omega arith;
  stream_fits = omega arith;
}

-- The words of the name, with three zeros at its end.
stream_words : write_words (pad stream_name) ≡ 118 ∷ 105 ∷ 108 ∷ 47 ∷ 0 ∷ 0 ∷ 0 ∷ 101 ∷ []
unfolding write_words pad
stream_words = refl

same_name : trim_right (stream_name ++ (0 ∷ 0 ∷ 0 ∷ [])) ≡ stream_name
unfolding trim_right
same_name = refl

abbrev home : Quad
home = record {
  a = 127;
  b = 0;
  c = 0;
  d = 1;
  a_fits = omega arith;
  b_fits = omega arith;
  c_fits = omega arith;
  d_fits = omega arith;
}

unmarshal-marshal-Handshake_example :
    (bytes : List ℕ) × (marshal caller ≡ ok (sent caller, bytes))
    × (unmarshal caller bytes
        ≡ some (ok (record (received caller caller extension) { peer_ip = ipv4 127 0 0 1 })))
unmarshal-marshal-Handshake_example =
    unmarshal-marshal-Handshake caller caller extension caller-Plain refl (omega arith)
      (is_ipv4 home (omega arith))

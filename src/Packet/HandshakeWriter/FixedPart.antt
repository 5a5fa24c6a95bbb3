-- ===== src/Packet/HandshakeWriter/FixedPart.antt =====
-- The 48 fixed bytes of a handshake, and a handshake that has nothing else.
use gosrt.Common.{
  ℕ, ◌+◌, ◌≡◌, refl, ap, ◌∙◌, ltb, le→ltb_false, arith, false, List, [], ◌++◌, some, IsU16, IsU32,
  length, length-append, drop, drop_front, take_front, ◌==◌,
}
use gosrt.Circular.Offset.{IsSeq}
use gosrt.Packet.Wire.{ok, put16, put32, uint32, uint16}
use gosrt.Packet.Ack.RoundTrip.{read_written}
use gosrt.Net.Ip
use gosrt.Net.Ip.{read_back}
use gosrt.Packet.Handshake.{
  Handshake, hstype_conclusion, read_peer, fixed_fields, read_fixed, unmarshal,
}
use gosrt.Packet.HandshakeWriter.{fixed_part}

-- The fixed fields fit their words.
pub record FixedFits (c : Handshake) : Type 0 where
  pub version_fits : IsU32 c.version
  pub encryption_fits : IsU16 c.encryption_field
  pub extension_fits : IsU16 c.extension_field
  pub sequence : IsSeq c.initial_packet_sequence_number
  pub mtu_fits : IsU32 c.max_transmission_unit_size
  pub flow_fits : IsU32 c.max_flow_window_size
  pub type_fits : IsU32 c.handshake_type
  pub socket_fits : IsU32 c.srt_socket_id
  pub cookie_fits : IsU32 c.syn_cookie

-- The fixed fields of `c` in a handshake `h`, with the peer's address as it is read back.
abbrev pub set_fixed : Handshake → Handshake → Handshake
set_fixed h c = record h {
  version = c.version;
  encryption_field = c.encryption_field;
  extension_field = c.extension_field;
  initial_packet_sequence_number = c.initial_packet_sequence_number;
  max_transmission_unit_size = c.max_transmission_unit_size;
  max_flow_window_size = c.max_flow_window_size;
  handshake_type = c.handshake_type;
  srt_socket_id = c.srt_socket_id;
  syn_cookie = c.syn_cookie;
  peer_ip = read_back c.peer_ip;
}

word : (v : ℕ) → IsU32 v → uint32 (put32 v) 0 ≡ v
word v h = omega arith

half : (v : ℕ) → IsU16 v → uint16 (put16 v) 0 ≡ v
half v h = omega arith

fixed_fields-fixed_part :
    (h c : Handshake) (rest : List ℕ)
    → FixedFits c
    → fixed_fields h (fixed_part c ++ rest) ≡ set_fixed h c
unfolding fixed_part
fixed_fields-fixed_part h c rest f = λ i. record h {
  version = word c.version f.version_fits i;
  encryption_field = half c.encryption_field f.encryption_fits i;
  extension_field = half c.extension_field f.extension_fits i;
  initial_packet_sequence_number = read_written c.initial_packet_sequence_number f.sequence i;
  max_transmission_unit_size = word c.max_transmission_unit_size f.mtu_fits i;
  max_flow_window_size = word c.max_flow_window_size f.flow_fits i;
  handshake_type = word c.handshake_type f.type_fits i;
  srt_socket_id = word c.srt_socket_id f.socket_fits i;
  syn_cookie = word c.syn_cookie f.cookie_fits i;
  peer_ip =
      (ap (λ d. read_peer h.peer_ip (Ip.unmarshal d))
            (take_front 16 (Ip.marshal (some c.peer_ip)) rest (Ip.length-marshal (some c.peer_ip)))
          ∙ ap (read_peer h.peer_ip) (Ip.unmarshal-marshal_back c.peer_ip))
        i;
}

pub length-fixed_part :
    (c : Handshake) (rest : List ℕ) → FixedFits c → length (fixed_part c ++ rest) ≡ 48 + length rest
unfolding fixed_part
length-fixed_part c rest f =
    let ip = Ip.marshal (some c.peer_ip) in
    omega (arith, length-append ip rest, Ip.length-marshal (some c.peer_ip))

pub read-fixed_part :
    (h c : Handshake) (rest : List ℕ)
    → FixedFits c
    → read_fixed h (fixed_part c ++ rest) ≡ ok (set_fixed h c)
unfolding read_fixed
read-fixed_part h c rest f =
    let n : (ltb (length (fixed_part c ++ rest)) 48 ≡ false) =
      le→ltb_false (length (fixed_part c ++ rest)) 48 (omega (arith, length-fixed_part c rest f)) in
    rw (read_fixed, n, fixed_fields-fixed_part h c rest f) refl

pub drop-fixed_part :
    (c : Handshake) (rest : List ℕ) → FixedFits c → drop 48 (fixed_part c ++ rest) ≡ rest
unfolding fixed_part
drop-fixed_part c rest f =
    drop_front 16 (Ip.marshal (some c.peer_ip)) rest (Ip.length-marshal (some c.peer_ip))

-- A handshake that is no conclusion has nothing but its fixed part.
pub unmarshal-fixed_part :
    (h c : Handshake)
    → FixedFits c
    → (c.handshake_type == hstype_conclusion) ≡ false
    → unmarshal h (fixed_part c ++ []) ≡ some (ok (set_fixed h c))
unfolding unmarshal
unmarshal-fixed_part h c f t =
    let n : (length (fixed_part c ++ []) ≡ 48) = length-fixed_part c [] f in
    rw (unmarshal, read-fixed_part h c [] f, n, t) refl

-- ===== src/Packet/HandshakeExtension.antt =====
-- packet/packet.go: the handshake extension message and its flags.
pub mod RoundTrip
pub mod Quiet
use gosrt.Common.{
  ℕ, ◌+◌, ◌*◌, ◌/◌, ◌%◌, ◌^◌, Bool, List, ◌∷◌, [], ◌++◌, length, ltb, if◌then◌else◌, bit_or,
}
use gosrt.Packet.Wire.{Result, ok, err, reading, too_short, put16, put32, uint16, uint32}
use gosrt.Packet.Header.{is_set}

pub record HandshakeExtensionFlags : Type 0 where
  pub tsbpd_snd : Bool
  pub tsbpd_rcv : Bool
  pub crypt : Bool
  pub tlpktdrop : Bool
  pub periodic_nak : Bool
  pub rexmit_flg : Bool
  pub stream : Bool
  pub packet_filter : Bool

pub record HandshakeExtension : Type 0 where
  pub srt_version : ℕ
  pub srt_flags : HandshakeExtensionFlags
  pub recv_tsbpd_delay : ℕ
  pub send_tsbpd_delay : ℕ

unfoldable pub read_flags : ℕ → HandshakeExtensionFlags
unfolding is_set
read_flags v = record {
  tsbpd_snd = is_set v 0x01;
  tsbpd_rcv = is_set v 0x02;
  crypt = is_set v 0x04;
  tlpktdrop = is_set v 0x08;
  periodic_nak = is_set v 0x10;
  rexmit_flg = is_set v 0x20;
  stream = is_set v 0x40;
  packet_filter = is_set v 0x80;
}

pub unmarshal : List ℕ → Result HandshakeExtension
unmarshal d =
    if ltb (length d) 12
    then err too_short
    else reading 12 d (
        ok (record {
          srt_version = uint32 d 0;
          srt_flags = read_flags (uint32 d 4);
          recv_tsbpd_delay = uint16 d 8;
          send_tsbpd_delay = uint16 d 10;
        }))

abbrev flag : Bool → ℕ → ℕ → ℕ
flag b mask v = if b then bit_or v mask else v

unfoldable pub write_flags : HandshakeExtensionFlags → ℕ
write_flags f =
    let v = flag f.tsbpd_snd 0x01 0 in
    let v = flag f.tsbpd_rcv 0x02 v in
    let v = flag f.crypt 0x04 v in
    let v = flag f.tlpktdrop 0x08 v in
    let v = flag f.periodic_nak 0x10 v in
    let v = flag f.rexmit_flg 0x20 v in let v = flag f.stream 0x40 v in flag f.packet_filter 0x80 v

pub marshal : HandshakeExtension → List ℕ
marshal c =
    put32 c.srt_version
    ++ (put32 (write_flags c.srt_flags) ++ (put16 c.recv_tsbpd_delay ++ put16 c.send_tsbpd_delay))

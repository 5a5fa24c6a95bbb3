-- ===== src/Packet/HandshakeWriter/RoundTrip.antt =====
-- Reading back a handshake that was written.
use gosrt.Common.{
  ℕ, ◌≡◌, refl, ap, ◌∙◌, Bool, true, false, List, ◌++◌, some, length, if◌then◌else◌, ◌==◌,
}
use gosrt.Net.Ip.{read_back}
use gosrt.Net.Ip.Ordinary.{IsOrdinary, read_back-IsOrdinary}
use gosrt.Packet.Wire.{ok}
use gosrt.Packet.HandshakeExtension.{HandshakeExtension}
use gosrt.Packet.HandshakeExtension
use gosrt.Packet.Handshake.{Handshake, unmarshal}
use gosrt.Packet.HandshakeWriter.{without_empty_sid, fixed_part, marshal}
use gosrt.Packet.HandshakeWriter.Blocks.{
  Plain, sent, received, blocks, unmarshal-blocks, normal_hs, write-Plain, normal-Plain, with_fixed,
  with_stream,
}

-- The same of every address of the peer, which is read back as net/ip.go does it.
pub unmarshal-marshal_back :
    (h c : Handshake) (x : HandshakeExtension)
    → Plain c
    → c.srt_hs ≡ some x
    → HandshakeExtension.RoundTrip.Fits x
    → (bytes : List ℕ) × (marshal c ≡ ok (sent (without_empty_sid c), bytes))
      × (unmarshal h bytes ≡ some (ok (received h (without_empty_sid c) x)))
unfolding marshal
unmarshal-marshal_back h c x p e f =
    let d = without_empty_sid c in
    let q = normal-Plain (length c.stream_id == 0) c p in
    (
      fixed_part (sent d) ++ blocks d x,
      write-Plain d x q (normal_hs (length c.stream_id == 0) c x e),
      unmarshal-blocks h d x q f,
    )

peer-with_stream :
    (h : Handshake) (b : Bool) (name : List ℕ) → (with_stream h b name).peer_ip ≡ h.peer_ip
peer-with_stream h true name = refl
peer-with_stream h false name = refl

if_peer :
    (b : Bool) (c : Handshake) → (if b then record c { has_sid = false } else c).peer_ip ≡ c.peer_ip
if_peer true c = refl
if_peer false c = refl

peer-without_empty_sid : (c : Handshake) → (without_empty_sid c).peer_ip ≡ c.peer_ip
peer-without_empty_sid c = if_peer (length c.stream_id == 0) c

peer-received :
    (h c : Handshake) (x : HandshakeExtension)
    → IsOrdinary c.peer_ip
    → (received h (without_empty_sid c) x).peer_ip ≡ c.peer_ip
peer-received h c x o =
    let d = without_empty_sid c in
    peer-with_stream (record (with_fixed h d) { has_hs = true; srt_hs = some x }) d.has_sid
      d.stream_id
    ∙ (ap read_back (peer-without_empty_sid c) ∙ read_back-IsOrdinary c.peer_ip o)

-- A handshake of version 5 that concludes, with a handshake extension whose fields fit, without key
-- material, for a live stream, with a stream id of at most 512 bytes, and with an IPv4 address of the
-- peer other than 0.0.0.0 or an IPv6 one that does not begin with 12 zeros: it is written, and whatever
-- reads the bytes ends with its fixed fields, its handshake extension and, when it has a stream id that
-- is not empty, with that stream id less the zeros at its end.
pub unmarshal-marshal-Handshake :
    (h c : Handshake) (x : HandshakeExtension)
    → Plain c
    → c.srt_hs ≡ some x
    → HandshakeExtension.RoundTrip.Fits x
    → IsOrdinary c.peer_ip
    → (bytes : List ℕ) × (marshal c ≡ ok (sent (without_empty_sid c), bytes))
      × (unmarshal h bytes
          ≡ some (ok (record (received h (without_empty_sid c) x) { peer_ip = c.peer_ip })))
unmarshal-marshal-Handshake h c x p e f o =
    let (bytes, out, back) = unmarshal-marshal_back h c x p e f in
    (
      bytes,
      out,
      back ∙ (λ i.
          some (
            ok
              (record (received h (without_empty_sid c) x) { peer_ip = peer-received h c x o i }))),
    )

-- ===== src/Connection/Hsv4.antt =====
-- connection.go: the handshake extension messages of HSv4.
use gosrt.Common.{
  ℕ, ◌*◌, Bool, true, false, not, ◌&&◌, ◌||◌, Option, none, some, List, [], ◌∷◌, ltb, max, ◌==◌,
  if◌then◌else◌,
}
use gosrt.Common.Int.{ℤ, quot, to_unsigned}
use gosrt.Packet.Types.{Packet, payload_data}
use gosrt.Packet.Wire.{Result, ok, err, panics}
use gosrt.Packet.HandshakeExtension
use gosrt.Packet.HandshakeExtension.{HandshakeExtensionFlags}
use gosrt.Congestion.Float.{Float64}
use gosrt.Congestion.Send
use gosrt.Crypto.{Primitives}
use gosrt.Connection.State.{Output, stops_hs_requests, threshold_for}
use gosrt.Connection.Pop.{Conn, control_packet, ctrltype_user, pop}
use gosrt.Connection.Close.{close}
use gosrt.Connection.Acks.{count_invalid}

abbrev pub exttype_hsreq : ℕ
exttype_hsreq = 1

abbrev pub exttype_hsrsp : ℕ
exttype_hsrsp = 2

-- `uint16(d.Milliseconds())`
abbrev pub milliseconds : ℤ → ℕ
milliseconds d = to_unsigned 16 (quot d 1_000_000)

abbrev pub supported_version : ℕ → Bool
supported_version v = not (ltb v 0x010200 || not (ltb v 0x010300))

-- The tests of a request, whose sender has a send mode, and of a response, whose sender has a
-- receive mode.
unfoldable pub accepts_request : HandshakeExtension.HandshakeExtension → Bool
accepts_request cif =
    let f = cif.srt_flags in
    supported_version cif.srt_version
    && f.tsbpd_snd
    && f.tlpktdrop
    && f.crypt
    && f.rexmit_flg
    && not f.stream
    && not f.packet_filter

unfoldable pub accepts_response : HandshakeExtension.HandshakeExtension → Bool
accepts_response cif =
    let f = cif.srt_flags in
    supported_version cif.srt_version
    && f.tsbpd_rcv
    && f.tlpktdrop
    && f.crypt
    && f.rexmit_flg
    && not f.stream
    && not f.packet_filter

unfoldable pub answer :
    HandshakeExtension.HandshakeExtension → ℕ → HandshakeExtension.HandshakeExtension
answer cif delay = record cif {
  srt_flags = record (cif.srt_flags) { tsbpd_snd = false; tsbpd_rcv = true; periodic_nak = true };
  recv_tsbpd_delay = 0;
  send_tsbpd_delay = delay;
}

module _ (fl : Float64) (pr : Primitives) where
  -- A request that is not accepted closes the connection.
  unfoldable pub handle_hs_request : Conn fl pr → ℕ → Packet → Option (Conn fl pr × List Output)
  unfolding accepts_request answer
  handle_hs_request c clock p = elim (HandshakeExtension.unmarshal (payload_data p)) [
    | err e ↦ some (count_invalid fl pr c, [])
    | panics ↦ none
    | ok cif ↦
        if not (accepts_request cif)
        then some (close fl pr c clock)
        else (let delay = max cif.send_tsbpd_delay (milliseconds c.config.receiver_latency) in
            pop fl pr (record c { tsbpd_delay = delay * 1000 }) clock
              (record p {
                header = record (p.header) { sub_type = exttype_hsrsp };
                payload = some (HandshakeExtension.marshal (answer cif delay));
              }))
  ]

  -- `stopHSRequests` is nil where no requests were started: then the call panics. The delay of the
  -- response is in milliseconds, and goes into the threshold as it is.
  unfoldable pub finish_response :
      Conn fl pr → HandshakeExtension.HandshakeExtension → Bool → Option (Conn fl pr × List Output)
  finish_response c cif false = none
  finish_response c cif true =
      let delay = max cif.send_tsbpd_delay (milliseconds c.config.peer_latency) in
      let threshold = threshold_for fl pr delay c.config in
      some (
        record c { drop_threshold = threshold; snd = Send.set_drop_threshold fl c.snd threshold },
        stops_hs_requests ∷ [],
      )

  -- What is done with a response that was read.
  unfoldable pub check_response :
      Conn fl pr
      → ℕ
      → Result HandshakeExtension.HandshakeExtension
      → Option (Conn fl pr × List Output)
  check_response c clock (err e) = some (count_invalid fl pr c, [])
  check_response c clock panics = none
  check_response c clock (ok cif) =
      if not (c.version == 4)
      then some (c, [])
      else if not (accepts_response cif)
      then some (close fl pr c clock)
      else finish_response c cif c.stop_hs_requests

  unfoldable pub handle_hs_response : Conn fl pr → ℕ → Packet → Option (Conn fl pr × List Output)
  handle_hs_response c clock p =
      check_response c clock (HandshakeExtension.unmarshal (payload_data p))

  -- `sendHSRequest`
  unfoldable pub send_hs_request : Conn fl pr → ℕ → Option (Conn fl pr × List Output)
  send_hs_request c clock = pop fl pr c clock (
      control_packet clock ctrltype_user exttype_hsreq 0 (
        HandshakeExtension.marshal (record {
          srt_version = 0x010203;
          srt_flags = record {
            tsbpd_snd = true;
            tsbpd_rcv = false;
            crypt = true;
            tlpktdrop = true;
            periodic_nak = false;
            rexmit_flg = true;
            stream = false;
            packet_filter = false;
          };
          recv_tsbpd_delay = 0;
          send_tsbpd_delay = milliseconds c.config.receiver_latency;
        })))

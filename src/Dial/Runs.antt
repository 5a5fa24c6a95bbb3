-- ===== src/Dial/Runs.antt =====
-- A handshake of a concrete dialer and a concrete listener.
use gosrt.Common.{
  ℕ, zero, suc, ◌≤◌, ◌≡◌, ◌%◌, refl, ap, sym, arith, false, Option, none, some, List, [], ◌∷◌, ◌++◌,
  replicate, length, inr,
}
use gosrt.Common.Int.{pos}
use native.Mathlib.Nat.{mod-lt}
use gosrt.Circular
use gosrt.Circular.{Number}
use gosrt.Packet.Types.{Packet}
use gosrt.Packet.Wire.{Result, ok}
use gosrt.Packet.Handshake
use gosrt.Packet.Handshake.{Handshake, hstype_conclusion}
use gosrt.Packet.HandshakeWriter
use gosrt.Congestion.Sample.{numbers}
use gosrt.Crypto.Sample.{sample}
use gosrt.Config.{Config, default_config}
use gosrt.Common.Maps.{lookup, insert, delete, lookup_inserted}
use gosrt.Listen.Registry.{Registry}
use gosrt.Listen.Reachable.{opened, asked, unasked, accepted, Reachable-Registry}
use gosrt.Rand.{uint32}
use gosrt.Net.Ip
use gosrt.Net.Ip.{Addr, ipv4}
use gosrt.Net.Cookie.{calculate, format_int, decimal, verify}
use gosrt.Listen.State.{no_handshake, handshake_packet, Listener, Datagram, ConnRequest}
use gosrt.Listen.Request.{
  conclude, reject_with, respond, generate_socket_id, read_handshake, new_conn_request,
}
use gosrt.Listen.Outcomes.{Outcome}
use gosrt.Listen.Checked.{Shown, new_conn_request-Checked}
use gosrt.Listen.Stateless.{new_conn_request_stateless}
use gosrt.Listen.Lifecycle.{Lives, accept-Lives}
use gosrt.Dial.State.{control, Dialer, dialer_of}
use gosrt.Dial.Induction.{Caller, HashesToBytes}
use gosrt.Dial.Conclusion.{Ready}
use gosrt.Dial.Blocked.{Stray, reported, reader_waits}
use gosrt.Dial.Client.{reader}
use gosrt.Dial.Meeting.{Meeting, handshake-Meeting}

-- A hash of one byte.
abbrev sum : List ℕ → List ℕ
sum s = (length s % 256) ∷ []

sum-IsByte : HashesToBytes sum
sum-IsByte s zero = mod-lt (length s) (omega arith)
sum-IsByte s (suc i) = omega arith

abbrev caller_addr : Addr
caller_addr = record { text = 49 ∷ 58 ∷ 50 ∷ []; ip = some (ipv4 10 0 0 1) }

abbrev listener_addr : Addr
listener_addr = record { text = 50 ∷ 58 ∷ 51 ∷ []; ip = some (ipv4 10 0 0 2) }

abbrev caller_config : Config
unfolding default_config
caller_config = record default_config { stream_id = 108 ∷ 105 ∷ 118 ∷ 101 ∷ 49 ∷ [] }

abbrev caller : Dialer numbers sample
caller = dialer_of numbers sample caller_config caller_addr 77 1000 3

abbrev ready_listener : Listener numbers sample
ready_listener = record {
  addr = listener_addr;
  config = default_config;
  backlog = [];
  conns = [];
  conns_by_peer = [];
  syncookie = record { secret1 = 97 ∷ []; secret2 = 98 ∷ []; daddr = listener_addr.text };
  shutdown = false;
  done_err = none;
  random = 7;
}

caller-Caller : Caller numbers sample caller
unfolding caller_config default_config Circular.new
caller-Caller = record {
  fresh = refl;
  no_crypto = refl;
  no_passphrase = refl;
  mss_low = omega arith;
  mss_high = omega arith;
  flow_fits = omega arith;
  version_fits = omega arith;
  stream_fits = omega arith;
  socket_fits = omega arith;
  sequence = record { max_31 = refl; half = refl; in_range = omega arith };
}

listener-Ready : Ready numbers sample sum ready_listener caller 0x07070707 8
unfolding default_config lookup generate_socket_id uint32
listener-Ready = record {
  version_fits = omega arith;
  unknown = refl;
  drawn = refl;
  id_fits = omega arith;
}

abbrev clocks : ℕ → ℕ
clocks n = n

handshake-Meeting_example :
    Meeting numbers sample sum caller ready_listener caller_addr (pos 5) (pos 6) clocks 0 25
handshake-Meeting_example =
    handshake-Meeting numbers sample sum caller ready_listener caller_addr (pos 5) (pos 6) clocks 0
      25 0x07070707 8 sum-IsByte caller-Caller listener-Ready (inr refl)

-- The same handshake, for the properties of its steps.
abbrev meeting :
    Meeting numbers sample sum caller ready_listener caller_addr (pos 5) (pos 6) clocks 0 25
meeting =
    handshake-Meeting numbers sample sum caller ready_listener caller_addr (pos 5) (pos 6) clocks 0
      25 0x07070707 8 sum-IsByte caller-Caller listener-Ready (inr refl)

abbrev conclusion_datagram : Datagram
conclusion_datagram = record { packet = meeting.third; addr = caller_addr }

new_conn_request-Checked_example :
    Shown numbers sample sum ready_listener
      (pos 6)
      conclusion_datagram
      meeting.reserved
      meeting.asking
new_conn_request-Checked_example =
    new_conn_request-Checked numbers sample sum ready_listener meeting.reserved 3 (pos 6)
      conclusion_datagram [] meeting.asking meeting.requests

accept-Lives_example :
    Lives numbers sample sum
      (λ ns. ns)
      meeting.reserved
      meeting.asking
      meeting.final
      meeting.listener_conn
accept-Lives_example =
    accept-Lives numbers sample sum (λ ns. ns) meeting.reserved meeting.final 4 meeting.asking 0 25
      (record { packet = meeting.fourth; addr = caller_addr } ∷ []) meeting.listener_conn
      meeting.accepts

-- The registry after the handshake.
Reachable-Registry_example :
    Registry numbers sample meeting.final (
      delete meeting.asking.peer_socket_id (insert meeting.asking.peer_socket_id meeting.asking []))
Reachable-Registry_example =
    Reachable-Registry numbers sample (λ ns. ns) sum meeting.final
      (delete meeting.asking.peer_socket_id
        (insert meeting.asking.peer_socket_id meeting.asking []))
      (accepted
        (asked
          (unasked (opened ready_listener refl refl) 1 (pos 5)
            (record { packet = meeting.first; addr = caller_addr })
            (record { packet = meeting.second; addr = caller_addr } ∷ []) meeting.answers)
          3 (pos 6) conclusion_datagram [] meeting.asking meeting.requests)
        4 meeting.asking meeting.asking 0 25
        (record { packet = meeting.fourth; addr = caller_addr } ∷ []) (some meeting.listener_conn)
        (lookup_inserted meeting.asking.peer_socket_id meeting.asking []) refl meeting.accepts)

-- A conclusion of version 5 with the cookie 0x01020304.
abbrev guess : Datagram
guess = record {
  packet = handshake_packet control 0 0 (
      (0 ∷ 0 ∷ 0 ∷ 5 ∷ [])
      ++ (replicate 4 0 ++ (0 ∷ 0 ∷ 0 ∷ 9 ∷ 0 ∷ 0 ∷ 5 ∷ 0xdc ∷ []))
      ++ (replicate 4 0 ++ (replicate 4 255 ++ (0 ∷ 0 ∷ 0 ∷ 77 ∷ 1 ∷ 2 ∷ 3 ∷ 4 ∷ [])))
      ++ (1 ∷ 0 ∷ 0 ∷ 10 ∷ replicate 12 0));
  addr = caller_addr;
}

abbrev no_request : Option ConnRequest
no_request = none

abbrev sent_back : Outcome numbers sample sum → List Datagram
sent_back none = []
sent_back (some (ln, ds, req)) = ds

abbrev cookie_in : Option (Result Handshake) → ℕ
cookie_in (some (ok c)) = c.syn_cookie
cookie_in o = 0

guess-cookie :
    (c : Handshake)
    → read_handshake guess.packet ≡ some (ok c)
    → c.handshake_type ≡ hstype_conclusion
    → verify sum ready_listener.syncookie (pos 6) c.syn_cookie caller_addr.text ≡ false
unfolding read_handshake Handshake.unmarshal Handshake.read_fixed verify calculate format_int
    decimal Circular.new Ip.unmarshal
guess-cookie c e t = rw (sym (ap cookie_in e)) refl

new_conn_request_stateless_example :
    (ready_listener ≡ ready_listener)
    × (no_request ≡ none)
    × (length (sent_back (new_conn_request numbers sample sum ready_listener 3 (pos 6) guess)) ≤ 1)
unfolding new_conn_request conclude reject_with respond read_handshake Handshake.unmarshal
    Handshake.read_fixed verify calculate format_int decimal HandshakeWriter.marshal
    HandshakeWriter.write HandshakeWriter.with_fields HandshakeWriter.extension_blocks
    HandshakeWriter.hs_block HandshakeWriter.km_block
new_conn_request_stateless_example =
    new_conn_request_stateless numbers sample sum ready_listener ready_listener 3 (pos 6) guess
      (sent_back (new_conn_request numbers sample sum ready_listener 3 (pos 6) guess)) no_request
      guess-cookie refl

-- A rejection that comes late.
abbrev rejection_bytes : List ℕ
rejection_bytes =
    (0 ∷ 0 ∷ 0 ∷ 5 ∷ [])
    ++ (replicate 4 0 ++ (0 ∷ 0 ∷ 0 ∷ 9 ∷ 0 ∷ 0 ∷ 5 ∷ 0xdc ∷ []))
    ++ (replicate 4 0 ++ (0 ∷ 0 ∷ 3 ∷ 0xec ∷ 0 ∷ 0 ∷ 0 ∷ 77 ∷ 0 ∷ 0 ∷ 0 ∷ 0 ∷ []))
    ++ (1 ∷ 0 ∷ 0 ∷ 10 ∷ replicate 12 0)

abbrev rejection : Packet
rejection = handshake_packet control 0 0 rejection_bytes

rejection-Stray : Stray rejection
unfolding read_handshake Handshake.unmarshal Handshake.read_fixed
rejection-Stray = record {
  content = Handshake.fixed_fields no_handshake rejection_bytes;
  reads = refl;
  handshake = refl;
  addressed = refl;
  no_induction = refl;
  no_conclusion = refl;
}

abbrev connected_caller : Dialer numbers sample
connected_caller = record caller { conn = some meeting.caller_conn }

reader_waits_example :
    (let once = reported numbers sample (λ ns. ns) connected_caller rejection-Stray.content in
      let twice = reported numbers sample (λ ns. ns) once rejection-Stray.content in
      (reader numbers sample (λ ns. ns) connected_caller 10 rejection 0 25 ≡ some (once, []))
      × (reader numbers sample (λ ns. ns) once 11 rejection 0 25 ≡ some (twice, []))
      × (reader numbers sample (λ ns. ns) twice 12 rejection 0 25 ≡ some (twice, [])))
reader_waits_example =
    reader_waits numbers sample (λ ns. ns) connected_caller 10 11 rejection rejection
      rejection-Stray rejection-Stray 12 rejection 0 25 refl refl

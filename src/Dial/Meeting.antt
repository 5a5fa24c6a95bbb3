-- ===== src/Dial/Meeting.antt =====
-- The whole handshake of a dialer and a listener, packet by packet.
use gosrt.Common.{
  ℕ, ◌≡◌, ◌⊎◌, refl, ap, ◌∙◌, arith, none, some, List, [], ◌∷◌, length, ◌==◌, if◌then◌else◌,
}
use gosrt.Common.Int.{ℤ}
use gosrt.Common.Maps.{lookup, lookup_inserted}
use gosrt.Net.Ip.{Addr}
use gosrt.Packet.Types.{Packet, new_packet}
use gosrt.Packet.Wire.{ok}
use gosrt.Packet.Handshake.{trim_right}
use gosrt.Packet.HandshakeWriter.{without_empty_sid}
use gosrt.Packet.HandshakeWriter.Blocks.{received}
use gosrt.Packet.HandshakeWriter.RoundTrip.{unmarshal-marshal_back}
use gosrt.Congestion.Float.{Float64}
use gosrt.Crypto.{Primitives}
use gosrt.Connection.State.{new_srt_conn}
use gosrt.Connection.Pop.{Conn}
use gosrt.Net.Cookie.{before}
use gosrt.Listen.State.{
  Listener, Datagram, ConnRequest, no_handshake, handshake_packet, microseconds_since,
}
use gosrt.Listen.Request.{new_conn_request}
use gosrt.Listen.Accept.{answer_extension, accepted_handshake, accepted_conn, accept, reply_packet}
use gosrt.Dial.State.{Dialer, control, connected, answer, send_induction, induction}
use gosrt.Dial.Handshake.{conclusion, with_extension, handle_handshake}
use gosrt.Dial.Induction.{
  Caller, HashesToBytes, answered, opening, reply, read-handshake_packet, send_induction-opening,
  read-opening, new_conn_request-induction, read-reply,
}
use gosrt.Dial.Conclusion.{
  concluding, own_extension, own_extension-Fits, concluding-Plain, received-if, Ready, request,
  reserving, handle_handshake-induction, new_conn_request-conclusion,
}
use gosrt.Dial.Accepted.{
  recv_delay, send_delay, accepted, listening, accepted-Plain, answer-Fits, established,
  accept-request,
}
use gosrt.Dial.Agreement.{
  Settled-version_5, handle_handshake-Settled, received-Settled, Agrees, conns-Agree,
}

module _ (fl : Float64) (pr : Primitives) (md5 : List ℕ → List ℕ) where
  -- The handshake of `dl` with `ln` at the address `a`, packet by packet, and the two connections.
  pub record Meeting (dl : Dialer fl pr) (ln : Listener fl pr) (a : Addr) (issued now : ℤ)
      (clocks : ℕ → ℕ) (ibw obw : fl.F) : Type 0 where
    pub first : Packet
    pub second : Packet
    pub third : Packet
    pub fourth : Packet
    pub asking : ConnRequest
    pub reserved : Listener fl pr
    pub final : Listener fl pr
    pub caller_conn : Conn fl pr
    pub listener_conn : Conn fl pr
    pub opens : send_induction fl pr dl (clocks 0) ≡ some first
    pub answers :
        new_conn_request fl pr md5 ln (clocks 1) issued (record { packet = first; addr = a })
        ≡ some (ln, record { packet = second; addr = a } ∷ [], none)
    pub concludes :
        handle_handshake fl pr dl (clocks 2) second ibw obw
        ≡ some (record dl { version = 5 }, third ∷ [])
    pub requests :
        new_conn_request fl pr md5 ln (clocks 3) now (record { packet = third; addr = a })
        ≡ some (reserved, [], some asking)
    pub accepts :
        accept fl pr md5 reserved (clocks 4) asking ibw obw
        ≡ some (final, record { packet = fourth; addr = a } ∷ [], some listener_conn)
    pub connects :
        handle_handshake fl pr (record dl { version = 5 }) (clocks 5) fourth ibw obw
        ≡ some (answer fl pr (record dl { version = 5 }) (connected caller_conn), [])
    pub registered :
        lookup listener_conn.socket_id final.conns
        ≡ some (some (record { conn = listener_conn; start = clocks 3; remote = a.text }))
    pub agree : Agrees fl pr md5 caller_conn listener_conn
    pub stream : listener_conn.config.stream_id ≡ trim_right dl.config.stream_id

  stream-read : (s : List ℕ) → (if length s == 0 then [] else trim_right s) ≡ trim_right s
  unfolding trim_right
  stream-read [] = refl
  stream-read (x ∷ xs) = ground arith

  Caller-version_5 :
      (dl : Dialer fl pr) → Caller fl pr dl → Caller fl pr (record dl { version = 5 })
  Caller-version_5 dl c = record {
    fresh = c.fresh;
    no_crypto = c.no_crypto;
    no_passphrase = c.no_passphrase;
    mss_low = c.mss_low;
    mss_high = c.mss_high;
    flow_fits = c.flow_fits;
    version_fits = c.version_fits;
    stream_fits = c.stream_fits;
    socket_fits = c.socket_fits;
    sequence = c.sequence;
  }

  -- A fresh dialer without a passphrase, whose numbers fit their words, and a listener that does not know
  -- its socket id and draws one of its own, both with a minimum version up to the program's, over a hash
  -- made of bytes: where the conclusion comes in the period of the cookie or in the next one, whatever the
  -- clocks, each of the four packets of the handshake is written and leads to the next, the listener
  -- returns a request whose acceptance returns a connection, which is registered, the dialer gets a
  -- connection, and the two agree on their socket ids, the version, the first sequence number and the
  -- delays of both directions; the listener's has the stream id of the dialer less the zeros at its end.
  pub handshake-Meeting :
      (dl : Dialer fl pr) (ln : Listener fl pr) (a : Addr) (issued now : ℤ) (clocks : ℕ → ℕ)
      (ibw obw : fl.F) (id : ℕ) (r : pr.Random)
      → HashesToBytes md5
      → Caller fl pr dl
      → Ready fl pr md5 ln dl id r
      → (now ≡ issued) ⊎ (before now ≡ issued)
      → Meeting dl ln a issued now clocks ibw obw
  unfolding with_extension accepted_handshake accepted_conn new_srt_conn new_packet conclusion
      induction
  handshake-Meeting dl ln a issued now clocks ibw obw id r b caller ready period =
      let empty = length dl.config.stream_id == 0 in
      let five : Dialer fl pr = record dl { version = 5 } in
      let p1 = opening fl pr md5 dl (clocks 0) in
      let p2 = reply fl pr md5 ln (clocks 1) issued a dl p1 in
      let c3 = concluding fl pr md5 dl (answered fl pr md5 ln issued a dl) in
      let x3 = own_extension dl.config in
      let (bytes3, m3, u3) =
        unmarshal-marshal_back no_handshake c3 x3
          (concluding-Plain fl pr md5 b ln issued a dl caller) refl
          (own_extension-Fits fl pr md5 dl.config) in
      let p3 = handshake_packet p2 (microseconds_since 0 (clocks 2)) 0 bytes3 in
      let d3 : Datagram = record { packet = p3; addr = a } in
      let asking =
        request fl pr md5 empty ln (clocks 3) d3 dl (answered fl pr md5 ln issued a dl) id in
      let c4 = accepted fl pr md5 empty ln (clocks 3) issued d3 dl id in
      let x4 = answer_extension (recv_delay fl pr md5 ln dl) (send_delay fl pr md5 ln dl) in
      let (bytes4, m4, u4) =
        unmarshal-marshal_back no_handshake c4 x4
          (accepted-Plain fl pr md5 empty ln (clocks 3) issued d3 dl id caller ready.id_fits) refl
          (answer-Fits fl pr md5 ln dl) in
      let settled =
        received-Settled fl pr md5 empty (length c4.stream_id == 0) ln (clocks 3) issued d3 dl id
          x4 in
      let c5 = received no_handshake (without_empty_sid c4) x4 in
      let conn = listening fl pr md5 empty ln (clocks 3) issued d3 dl id r ibw obw in
      let reserved = reserving fl pr md5 ln dl id r in
      record {
        first = p1;
        second = p2;
        third = p3;
        fourth = (reply_packet asking (microseconds_since (clocks 3) (clocks 4)) bytes4).packet;
        asking = asking;
        reserved = reserved;
        final = established fl pr md5 reserved asking conn;
        caller_conn = _;
        listener_conn = conn;
        opens = send_induction-opening fl pr md5 dl (clocks 0);
        answers =
            new_conn_request-induction fl pr md5 ln (clocks 1) issued
              (record { packet = p1; addr = a }) dl (read-opening fl pr md5 dl (clocks 0) caller);
        concludes =
            handle_handshake-induction fl pr md5 ln issued a dl (clocks 2) p2 _ bytes3 ibw obw
              caller (read-reply fl pr md5 b ln (clocks 1) issued a dl p1 caller refl) m3;
        requests =
            new_conn_request-conclusion fl pr md5 empty ln (clocks 3) issued now d3 dl id r caller
              ready period
              (read-handshake_packet p2 (microseconds_since 0 (clocks 2)) 0 bytes3 _ refl u3
                ∙ ap (λ c. some (ok c)) (received-if fl pr md5 empty ln issued a dl));
        accepts =
            accept-request fl pr md5 empty ln (clocks 3) (clocks 4) issued d3 dl id r ibw obw _
              bytes4 m4;
        connects =
            handle_handshake-Settled fl pr md5 five (clocks 5) _ c5 id (recv_delay fl pr md5 ln dl)
              (send_delay fl pr md5 ln dl) ibw obw (Caller-version_5 dl caller)
              (Settled-version_5 fl pr md5 dl id x4 c5 settled)
              (read-handshake_packet control (microseconds_since (clocks 3) (clocks 4)) dl.socket_id
                bytes4 c5 refl u4);
        registered = lookup_inserted id _ reserved.conns;
        agree =
            conns-Agree fl pr md5 empty ln (clocks 3) (clocks 5) issued d3 dl id r ibw obw c5 x4
              settled;
        stream = stream-read dl.config.stream_id;
      }

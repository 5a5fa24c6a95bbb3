-- ===== src/Dial/Accepted.antt =====
-- The listener accepts the request that the handshake led to, and what it answers.
use gosrt.Common.{
  ℕ, suc, ◌≤◌, ◌≡◌, refl, ap, arith, Bool, true, false, none, some, List, [], ◌∷◌, length, IsU32,
  IsU16, ◌==◌, if◌then◌else◌, ltb, Bool-cases, inl, inr,
}
use gosrt.Common.Int.{ℤ}
use gosrt.Common.Maps.{insert, lookup_inserted}
use gosrt.Packet.Wire.{ok}
use gosrt.Packet.HandshakeExtension.RoundTrip.{Fits}
use gosrt.Packet.Handshake.{Handshake, trim_right}
use gosrt.Packet.HandshakeWriter.{marshal}
use gosrt.Packet.HandshakeWriter.Blocks.{Plain}
use gosrt.Congestion.Float.{Float64}
use gosrt.Crypto.{Primitives}
use gosrt.Connection.Pop.{Conn}
use gosrt.Connection.Hsv4.{milliseconds}
use gosrt.Listen.State.{Listener, Datagram, ConnRequest, microseconds_since}
use gosrt.Listen.Request.{adjust_mss}
use gosrt.Listen.Accept.{
  agreed_delay, answer_extension, delays, accepted_handshake, is_reserved, waits, accepted_conn,
  establish, accept, reply_packet,
}
use gosrt.Dial.State.{Dialer, induction}
use gosrt.Dial.Handshake.{conclusion}
use gosrt.Dial.Induction.{Caller, answered}
use gosrt.Dial.Conclusion.{milliseconds-IsU16, request, reserving}

module _ (fl : Float64) (pr : Primitives) (md5 : List ℕ → List ℕ) where
  -- The two delays that the listener settles on, in milliseconds.
  abbrev pub recv_delay : Listener fl pr → Dialer fl pr → ℕ
  recv_delay ln dl =
      agreed_delay (milliseconds ln.config.receiver_latency) (milliseconds dl.config.peer_latency)

  abbrev pub send_delay : Listener fl pr → Dialer fl pr → ℕ
  send_delay ln dl =
      agreed_delay (milliseconds ln.config.peer_latency) (milliseconds dl.config.receiver_latency)

  delays-request :
      (empty : Bool) (ln : Listener fl pr) (clock : ℕ) (issued : ℤ) (d : Datagram)
      (dl : Dialer fl pr) (id : ℕ)
      → delays (request fl pr md5 empty ln clock d dl (answered fl pr md5 ln issued d.addr dl) id)
        ≡ some (recv_delay ln dl, send_delay ln dl)
  unfolding delays conclusion induction adjust_mss answer_extension
  delays-request empty ln clock issued d dl id =
      elim (Bool-cases (ltb dl.config.mss ln.config.mss)) [
        | inl e ↦ rw (adjust_mss, e) refl
        | inr e ↦ rw (adjust_mss, e) refl
      ]

  waits-reserving :
      (empty : Bool) (ln : Listener fl pr) (clock : ℕ) (issued : ℤ) (d : Datagram)
      (dl : Dialer fl pr) (id : ℕ) (r : pr.Random)
      → waits fl pr md5
          (reserving fl pr md5 ln dl id r)
          (request fl pr md5 empty ln clock d dl (answered fl pr md5 ln issued d.addr dl) id)
        ≡ true
  unfolding waits conclusion
  waits-reserving empty ln clock issued d dl id r =
      ap (is_reserved fl pr md5) (lookup_inserted dl.socket_id none ln.conns_by_peer)

  -- The listener's answer, which goes out with the two delays.
  abbrev pub accepted : Bool → Listener fl pr → ℕ → ℤ → Datagram → Dialer fl pr → ℕ → Handshake
  accepted empty ln clock issued d dl id =
      accepted_handshake
        (request fl pr md5 empty ln clock d dl (answered fl pr md5 ln issued d.addr dl) id)
        (recv_delay ln dl) (send_delay ln dl)

  -- The listener's connection.
  abbrev pub listening :
      Bool
      → Listener fl pr
      → ℕ
      → ℤ
      → Datagram
      → Dialer fl pr
      → ℕ
      → pr.Random
      → fl.F
      → fl.F
      → Conn fl pr
  listening empty ln clock issued d dl id r ibw obw =
      accepted_conn fl pr md5 (reserving fl pr md5 ln dl id r)
        (request fl pr md5 empty ln clock d dl (answered fl pr md5 ln issued d.addr dl) id)
        (recv_delay ln dl) (send_delay ln dl) ibw obw

  trim_right-length : (s : List ℕ) → length (trim_right s) ≤ length s
  unfolding trim_right
  trim_right-length [] = omega arith
  trim_right-length (b ∷ bs) =
      elim (trim_right bs)
          as (λ t.
            (length t ≤ length bs)
            → length (elim t [ [] ↦ if b == 0 then [] else (b ∷ []) | c ∷ cs ↦ b ∷ c ∷ cs ])
              ≤ suc (length bs)) [ [] ↦ λ h. ground arith | c ∷ cs ↦ λ h. omega arith ]
        (trim_right-length bs)

  agreed_delay-IsU16 : (a b : ℕ) → IsU16 a → IsU16 b → IsU16 (agreed_delay a b)
  agreed_delay-IsU16 a b h k = ground arith

  read_stream-fits :
      (empty : Bool) (dl : Dialer fl pr)
      → Caller fl pr dl
      → length (if empty then [] else trim_right dl.config.stream_id) ≤ 512
  read_stream-fits true dl c = omega arith
  read_stream-fits false dl c = omega (arith, trim_right-length dl.config.stream_id, c.stream_fits)

  pub accepted-Plain :
      (empty : Bool) (ln : Listener fl pr) (clock : ℕ) (issued : ℤ) (d : Datagram)
      (dl : Dialer fl pr) (id : ℕ)
      → Caller fl pr dl
      → IsU32 id
      → Plain (accepted empty ln clock issued d dl id)
  unfolding accepted_handshake conclusion induction
  accepted-Plain empty ln clock issued d dl id c i = record {
    version = refl;
    conclusion = refl;
    extended = refl;
    no_key = refl;
    live = refl;
    cipher = refl;
    sequence = c.sequence;
    mtu_fits = omega (arith, c.mss_high);
    flow_fits = c.flow_fits;
    socket_fits = i;
    cookie_fits = omega arith;
    stream_fits = read_stream-fits empty dl c;
  }

  pub answer-Fits :
      (ln : Listener fl pr) (dl : Dialer fl pr)
      → Fits (answer_extension (recv_delay ln dl) (send_delay ln dl))
  unfolding answer_extension
  answer-Fits ln dl = record {
    version_fits = omega arith;
    recv_fits =
        agreed_delay-IsU16 (milliseconds ln.config.receiver_latency)
          (milliseconds dl.config.peer_latency) (milliseconds-IsU16 ln.config.receiver_latency)
          (milliseconds-IsU16 dl.config.peer_latency);
    send_fits =
        agreed_delay-IsU16 (milliseconds ln.config.peer_latency)
          (milliseconds dl.config.receiver_latency) (milliseconds-IsU16 ln.config.peer_latency)
          (milliseconds-IsU16 dl.config.receiver_latency);
  }

  -- The listener with the connection in place.
  abbrev pub established : Listener fl pr → ConnRequest → Conn fl pr → Listener fl pr
  established ln req c = record ln {
    conns =
        insert req.socket_id (some (record { conn = c; start = req.start; remote = req.addr.text }))
          ln.conns;
    conns_by_peer = insert req.peer_socket_id (some req.socket_id) ln.conns_by_peer;
  }

  pub accept-request :
      (empty : Bool) (ln : Listener fl pr) (clock later : ℕ) (issued : ℤ) (d : Datagram)
      (dl : Dialer fl pr) (id : ℕ) (r : pr.Random) (ibw obw : fl.F) (c : Handshake) (bytes : List ℕ)
      → marshal (accepted empty ln clock issued d dl id) ≡ ok (c, bytes)
      → (let req =
            request fl pr md5 empty ln clock d dl (answered fl pr md5 ln issued d.addr dl) id in
          let ln' = reserving fl pr md5 ln dl id r in
          let conn = listening empty ln clock issued d dl id r ibw obw in
          accept fl pr md5 ln' later req ibw obw
          ≡ some (
            established ln' req conn,
            reply_packet req (microseconds_since clock later) bytes ∷ [],
            some conn,
          ))
  unfolding accept establish
  accept-request empty ln clock later issued d dl id r ibw obw c bytes m =
      rw
        (
          waits-reserving empty ln clock issued d dl id r,
          delays-request empty ln clock issued d dl id,
          m,
        )
        refl

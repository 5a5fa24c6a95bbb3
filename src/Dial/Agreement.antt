-- ===== src/Dial/Agreement.antt =====
-- The handshake of a dialer and a listener ends, and the two ends agree.
use gosrt.Common.{
  ℕ, ◌*◌, ◌≤◌, ◌≡◌, refl, ap, ◌∙◌, arith, Bool, true, false, none, some, List, [], ◌==◌,
  if◌then◌else◌, ltb, le→ltb_false,
}
use gosrt.Common.Int.{ℤ}
use gosrt.Packet.Types.{Packet}
use gosrt.Packet.Wire.{ok}
use gosrt.Packet.HandshakeExtension.{HandshakeExtension}
use gosrt.Packet.Handshake.{Handshake, hstype_conclusion}
use gosrt.Packet.HandshakeWriter.Blocks.{received}
use gosrt.Congestion.Float.{Float64}
use gosrt.Crypto.{Primitives}
use gosrt.Config.{Config, srt_version}
use gosrt.Connection.State.{new_srt_conn}
use gosrt.Connection.Pop.{Conn}
use gosrt.Connection.Hsv4.{milliseconds}
use gosrt.Listen.State.{Listener, Datagram, no_handshake}
use gosrt.Listen.Request.{read_handshake, adjust_mss, too_small, has_flags}
use gosrt.Listen.Accept.{agreed_delay, answer_extension, accepted_handshake, accepted_conn}
use gosrt.Dial.State.{Dialer, connected, answer, induction}
use gosrt.Dial.Handshake.{
  conclusion, refuse, dialed_conn, connect, handle_conclusion, handle_handshake, judged,
  with_answer,
}
use gosrt.Dial.Induction.{Caller}
use gosrt.Dial.Accepted.{recv_delay, send_delay, accepted, listening}

module _ (fl : Float64) (pr : Primitives) (md5 : List ℕ → List ℕ) where
  -- A conclusion with which the dialer connects.
  pub record Settled (dl : Dialer fl pr) (id : ℕ) (x : HandshakeExtension) (c : Handshake)
      : Type 0 where
    pub type : c.handshake_type ≡ hstype_conclusion
    pub version : c.version ≡ 5
    pub extension : c.srt_hs ≡ some x
    pub mtu : c.max_transmission_unit_size ≡ dl.config.mss
    pub socket : c.srt_socket_id ≡ id
    pub sequence : c.initial_packet_sequence_number ≡ dl.initial_packet_sequence_number

  pub Settled-version_5 :
      (dl : Dialer fl pr) (id : ℕ) (x : HandshakeExtension) (c : Handshake)
      → Settled dl id x c
      → Settled (record dl { version = 5 }) id x c
  Settled-version_5 dl id x c s = record {
    type = s.type;
    version = s.version;
    extension = s.extension;
    mtu = s.mtu;
    socket = s.socket;
    sequence = s.sequence;
  }

  connect-same :
      (dl : Dialer fl pr) (clock : ℕ) (c : Handshake) (recv send : ℕ) (ibw obw : fl.F)
      → c.max_transmission_unit_size ≡ dl.config.mss
      → connect fl pr dl clock c recv send ibw obw
        ≡ some (answer fl pr dl (connected (dialed_conn fl pr dl clock c recv send ibw obw)), [])
  unfolding connect adjust_mss too_small
  connect-same dl clock c recv send ibw obw e =
      let t : (ltb c.max_transmission_unit_size dl.config.mss ≡ false) = ground arith in
      rw (connect, adjust_mss, too_small, t) refl

  refuse-answer :
      (config : Config) (recv send : ℕ)
      → config.min_version ≤ srt_version
      → refuse fl pr config (answer_extension recv send) ≡ none
  unfolding refuse has_flags answer_extension
  refuse-answer config recv send h = rw (le→ltb_false srt_version config.min_version h) refl

  pub handle_handshake-Settled :
      (dl : Dialer fl pr) (clock : ℕ) (p : Packet) (c : Handshake) (id recv send : ℕ)
      (ibw obw : fl.F)
      → Caller fl pr dl
      → Settled dl id (answer_extension recv send) c
      → read_handshake p ≡ some (ok c)
      → handle_handshake fl pr dl clock p ibw obw
        ≡ some (
          answer fl pr dl (
              connected (
                dialed_conn fl pr dl clock c
                  (agreed_delay (milliseconds dl.config.receiver_latency) send)
                  (agreed_delay (milliseconds dl.config.peer_latency) recv)
                  ibw
                  obw)),
          [],
        )
  unfolding handle_handshake handle_conclusion answer_extension
  handle_handshake-Settled dl clock p c id recv send ibw obw d s e =
      let x = answer_extension recv send in
      let induced : ((c.handshake_type == 1) ≡ false) = ground (arith, s.type) in
      let concludes : ((c.handshake_type == hstype_conclusion) ≡ true) = ground (arith, s.type) in
      let four : ((c.version == 4) ≡ false) = ground (arith, s.version) in
      let five : ((c.version == 5) ≡ true) = ground (arith, s.version) in
      rw (handle_handshake, e)
        (rw (induced, concludes, handle_conclusion, four, five)
          (ap (with_answer fl pr dl clock c ibw obw) s.extension
            ∙ (ap (judged fl pr dl clock c x ibw obw)
                  (refuse-answer dl.config recv send d.version_fits)
                ∙ connect-same dl clock c
                    (agreed_delay (milliseconds dl.config.receiver_latency) send)
                    (agreed_delay (milliseconds dl.config.peer_latency) recv) ibw obw s.mtu)))

  pub received-Settled :
      (empty none_left : Bool) (ln : Listener fl pr) (clock : ℕ) (issued : ℤ) (d : Datagram)
      (dl : Dialer fl pr) (id : ℕ) (x : HandshakeExtension)
      → (let c = accepted fl pr md5 empty ln clock issued d dl id in
          Settled dl id x
            (received no_handshake (if none_left then record c { has_sid = false } else c) x))
  unfolding accepted_handshake conclusion induction
  received-Settled empty true ln clock issued d dl id x = record {
    type = refl;
    version = refl;
    extension = refl;
    mtu = refl;
    socket = refl;
    sequence = refl;
  }
  received-Settled true false ln clock issued d dl id x = record {
    type = refl;
    version = refl;
    extension = refl;
    mtu = refl;
    socket = refl;
    sequence = refl;
  }
  received-Settled false false ln clock issued d dl id x = record {
    type = refl;
    version = refl;
    extension = refl;
    mtu = refl;
    socket = refl;
    sequence = refl;
  }

  -- The two ends of a connection: each has the other's socket id, the version and the first sequence
  -- number are the same, and the delay that one receives with is the one that the other sends with.
  pub record Agrees (c d : Conn fl pr) : Type 0 where
    pub sockets : c.socket_id ≡ d.peer_socket_id
    pub peers : c.peer_socket_id ≡ d.socket_id
    pub versions : c.version ≡ d.version
    pub sequences : c.initial_packet_sequence_number ≡ d.initial_packet_sequence_number
    pub receives : c.tsbpd_delay ≡ d.peer_tsbpd_delay
    pub sends : c.peer_tsbpd_delay ≡ d.tsbpd_delay

  delays-agree : (a b : ℕ) → agreed_delay a (agreed_delay b a) ≡ agreed_delay b a
  delays-agree a b = ground arith

  pub conns-Agree :
      (empty : Bool) (ln : Listener fl pr) (clock later : ℕ) (issued : ℤ) (d : Datagram)
      (dl : Dialer fl pr) (id : ℕ) (r : pr.Random) (ibw obw : fl.F) (c : Handshake)
      (x : HandshakeExtension)
      → Settled dl id x c
      → Agrees
          (dialed_conn fl pr
            (record dl { version = 5 })
            later
            c
            (agreed_delay (milliseconds dl.config.receiver_latency) (send_delay fl pr md5 ln dl))
            (agreed_delay (milliseconds dl.config.peer_latency) (recv_delay fl pr md5 ln dl))
            ibw
            obw)
          (listening fl pr md5 empty ln clock issued d dl id r ibw obw)
  unfolding dialed_conn accepted_conn new_srt_conn conclusion induction
  conns-Agree empty ln clock later issued d dl id r ibw obw c x s = record {
    sockets = refl;
    peers = s.socket;
    versions = s.version;
    sequences = s.sequence;
    receives =
        ap (λ (t : ℕ). t * 1000)
          (delays-agree (milliseconds dl.config.receiver_latency)
            (milliseconds ln.config.peer_latency));
    sends =
        ap (λ (t : ℕ). t * 1000)
          (delays-agree (milliseconds dl.config.peer_latency)
            (milliseconds ln.config.receiver_latency));
  }

-- ===== src/Dial/Conclusion.antt =====
-- The second half of the handshake begins: the dialer's conclusion, and the request that the listener
-- makes of it.
use gosrt.Common.{
  ℕ, ◌≤◌, ◌≡◌, ◌⊎◌, refl, ap, ◌∙◌, arith, Bool, true, false, not, none, some, List, [], ◌∷◌, length,
  IsU32, IsU16, ◌==◌, if◌then◌else◌, ltb, Bool-cases, inl, inr, le→ltb_false,
}
use gosrt.Common.Int.{ℤ, pos, negsuc, to_unsigned, quot}
use gosrt.Common.Maps.{lookup, insert}
use gosrt.Packet.Types.{Packet}
use gosrt.Packet.Wire.{ok}
use gosrt.Packet.HandshakeExtension.{HandshakeExtension}
use gosrt.Packet.HandshakeExtension.RoundTrip.{Fits}
use gosrt.Packet.Handshake.{Handshake, trim_right}
use gosrt.Packet.HandshakeWriter.{extension_bits, marshal}
use gosrt.Packet.HandshakeWriter.Blocks.{Plain, received}
use gosrt.Congestion.Float.{Float64}
use gosrt.Crypto.{Primitives}
use gosrt.Config.{Config, srt_version, max_mss_size, min_mss_size}
use gosrt.Connection.Hsv4.{milliseconds}
use gosrt.Net.Ip.{read_back, Addr}
use gosrt.Net.Cookie.{before}
use gosrt.Net.Cookie.Verified.{verify-get}
use gosrt.Listen.State.{
  Listener, Datagram, ConnRequest, no_handshake, handshake_packet, microseconds_since,
}
use gosrt.Listen.Request.{
  read_handshake, adjust_mss, too_small, has_flags, refuse_extension, refuse, generate_socket_id,
  reserve, reserved, unless_known, decided, make_keys, request_of, with_crypto, check_conclusion,
  conclude, new_conn_request,
}
use gosrt.Listen.Accept.{answer_extension}
use gosrt.Dial.State.{Dialer, induction}
use gosrt.Dial.Handshake.{
  conclusion, set_up_crypto, with_extension, send_handshake, conclude_5, add_km, handle_induction,
  handle_handshake,
}
use gosrt.Dial.Induction.{Caller, HashesToBytes, answered, heard, wire_ip, cookie-IsU32}

-- The extension for the latencies of a configuration.
abbrev pub own_extension : Config → HandshakeExtension
own_extension c = answer_extension (milliseconds c.receiver_latency) (milliseconds c.peer_latency)

to_unsigned-IsU16 : (z : ℤ) → IsU16 (to_unsigned 16 z)
to_unsigned-IsU16 (pos n) = omega arith
to_unsigned-IsU16 (negsuc n) = omega arith

pub milliseconds-IsU16 : (d : ℤ) → IsU16 (milliseconds d)
milliseconds-IsU16 d = to_unsigned-IsU16 (quot d 1_000_000)

module _ (fl : Float64) (pr : Primitives) (md5 : List ℕ → List ℕ) where
  -- What the dialer answers to the induction response `c`.
  abbrev pub concluding : Dialer fl pr → Handshake → Handshake
  concluding dl c = with_extension fl pr dl (conclusion fl pr dl c)

  -- What the listener reads of it: `empty` is whether there is no stream id.
  abbrev pub concluded : Bool → Dialer fl pr → Handshake → Handshake
  concluded empty dl c = record (conclusion fl pr dl c) {
    peer_ip = read_back (wire_ip dl.local_addr);
    is_request = false;
    extension_field = if empty then 1 else 5;
    has_hs = true;
    srt_hs = some (own_extension dl.config);
    has_sid = not empty;
    stream_id = if empty then [] else trim_right dl.config.stream_id;
  }

  pub concluding-Plain :
      HashesToBytes md5
      → (ln : Listener fl pr) (counter : ℤ) (a : Addr) (dl : Dialer fl pr) → Caller fl pr dl
      → Plain (concluding dl (answered fl pr md5 ln counter a dl))
  unfolding with_extension conclusion induction
  concluding-Plain b ln counter a dl d = record {
    version = refl;
    conclusion = refl;
    extended = refl;
    no_key = refl;
    live = refl;
    cipher = refl;
    sequence = d.sequence;
    mtu_fits = omega (arith, d.mss_high);
    flow_fits = d.flow_fits;
    socket_fits = d.socket_fits;
    cookie_fits = cookie-IsU32 fl pr md5 b ln counter a.text;
    stream_fits = d.stream_fits;
  }

  pub own_extension-Fits : (c : Config) → Fits (own_extension c)
  unfolding answer_extension
  own_extension-Fits c = record {
    version_fits = omega arith;
    recv_fits = milliseconds-IsU16 c.receiver_latency;
    send_fits = milliseconds-IsU16 c.peer_latency;
  }

  -- The two cases of the stream id.
  pub received-if :
      (empty : Bool) (ln : Listener fl pr) (counter : ℤ) (a : Addr) (dl : Dialer fl pr)
      → (let c = concluding dl (answered fl pr md5 ln counter a dl) in
          received no_handshake
            (if empty then record c { has_sid = false } else c)
            (own_extension dl.config)
          ≡ concluded empty dl (answered fl pr md5 ln counter a dl))
  unfolding extension_bits conclusion with_extension induction
  received-if true ln counter a dl = refl
  received-if false ln counter a dl = refl

  set_up_crypto-none :
      (dl : Dialer fl pr) (field : ℕ) → Caller fl pr dl → set_up_crypto fl pr dl field ≡ dl
  unfolding set_up_crypto
  set_up_crypto-none dl field d =
      let e : ((length dl.config.passphrase == 0) ≡ true) =
        ap (λ p. length p == 0) d.no_passphrase in
      rw (set_up_crypto, e) refl

  -- The dialer's conclusion, with the bytes that `marshal` makes of it.
  pub handle_handshake-induction :
      (ln : Listener fl pr) (counter : ℤ) (a : Addr) (dl : Dialer fl pr) (clock : ℕ) (p : Packet)
      (c : Handshake) (bytes : List ℕ) (ibw obw : fl.F)
      → Caller fl pr dl
      → read_handshake p ≡ some (ok (heard fl pr md5 ln counter a dl))
      → marshal (concluding dl (answered fl pr md5 ln counter a dl)) ≡ ok (c, bytes)
      → handle_handshake fl pr dl clock p ibw obw
        ≡ some (
          record dl { version = 5 },
          handshake_packet p (microseconds_since 0 clock) 0 bytes ∷ [],
        )
  unfolding handle_handshake handle_induction conclude_5 send_handshake induction conclusion
      with_extension
  handle_handshake-induction ln counter a dl clock p c bytes ibw obw d e m =
      let ans = answered fl pr md5 ln counter a dl in
      let five : Dialer fl pr = record dl { version = 5 } in
      rw (handle_handshake, e)
        (ap
            (λ (x : Dialer fl pr).
              add_km fl pr (record x { version = 5 }) clock p (concluding x ans) x.crypto)
            (set_up_crypto-none dl 0 d)
          ∙ (ap (add_km fl pr five clock p (concluding dl ans)) d.no_crypto ∙ rw m refl))

  -- A listener that does not know the caller, and draws `id` as its socket id.
  pub record Ready (ln : Listener fl pr) (dl : Dialer fl pr) (id : ℕ) (r : pr.Random) : Type 0 where
    pub version_fits : ln.config.min_version ≤ srt_version
    pub unknown : lookup dl.socket_id ln.conns_by_peer ≡ none
    pub drawn : generate_socket_id fl pr md5 10 ln.conns ln.random ≡ (some id, r)
    pub id_fits : IsU32 id

  -- The handshake in the request.
  abbrev pub requested : Bool → Listener fl pr → Dialer fl pr → Handshake → Handshake
  requested empty ln dl c = record (concluded empty dl c) { peer_ip = wire_ip ln.addr }

  abbrev pub request :
      Bool → Listener fl pr → ℕ → Datagram → Dialer fl pr → Handshake → ℕ → ConnRequest
  request empty ln clock d dl c id =
      record (request_of fl pr md5 clock d (adjust_mss ln.config dl.config.mss)
        (requested empty ln dl c) none) { socket_id = id }

  -- The listener with the socket id and the peer taken.
  abbrev pub reserving : Listener fl pr → Dialer fl pr → ℕ → pr.Random → Listener fl pr
  reserving ln dl id r = record ln {
    conns_by_peer = insert dl.socket_id none ln.conns_by_peer;
    conns = insert id none ln.conns;
    random = r;
  }

  too_small-false :
      (c : Config) (mtu : ℕ) → min_mss_size ≤ mtu → mtu ≤ max_mss_size → too_small c mtu ≡ false
  unfolding too_small adjust_mss
  too_small-false c mtu low high = elim (Bool-cases (ltb mtu c.mss)) [
    | inl e ↦ rw (too_small, adjust_mss, e) (ground arith)
    | inr e ↦ rw (too_small, adjust_mss, e) refl
  ]

  refuse-requested :
      (config : Config) (empty : Bool) (ln : Listener fl pr) (counter : ℤ) (a : Addr)
      (dl : Dialer fl pr)
      → config.min_version ≤ srt_version
      → refuse config (requested empty ln dl (answered fl pr md5 ln counter a dl)) ≡ none
  unfolding refuse refuse_extension has_flags conclusion induction answer_extension
  refuse-requested config empty ln counter a dl h =
      rw (le→ltb_false srt_version config.min_version h) refl

  min_version-adjust_mss : (c : Config) (mtu : ℕ) → (adjust_mss c mtu).min_version ≡ c.min_version
  unfolding adjust_mss
  min_version-adjust_mss c mtu = elim (Bool-cases (ltb mtu c.mss)) [
    | inl e ↦ rw (adjust_mss, e) refl
    | inr e ↦ rw (adjust_mss, e) refl
  ]

  check_conclusion-passes :
      (ln : Listener fl pr) (clock : ℕ) (d : Datagram) (config : Config) (c : Handshake)
      → refuse config c ≡ none
      → c.srt_km ≡ none
      → check_conclusion fl pr md5 ln clock d config c
        ≡ some (reserve fl pr md5 ln (request_of fl pr md5 clock d config c none))
  unfolding check_conclusion with_crypto
  check_conclusion-passes ln clock d config c f e =
      ap (decided fl pr md5 ln clock d config c) f ∙ ap (make_keys fl pr md5 ln clock d config c) e

  reserve-Ready :
      (ln : Listener fl pr) (req : ConnRequest) (id : ℕ) (r : pr.Random)
      → lookup req.peer_socket_id ln.conns_by_peer ≡ none
      → generate_socket_id fl pr md5 10 ln.conns ln.random ≡ (some id, r)
      → reserve fl pr md5 ln req ≡ reserved fl pr md5 ln req (some id, r)
  unfolding reserve
  reserve-Ready ln req id r u e =
      ap (unless_known fl pr md5 ln req) u ∙ ap (reserved fl pr md5 ln req) e

  pub new_conn_request-conclusion :
      (empty : Bool) (ln : Listener fl pr) (clock : ℕ) (issued now : ℤ) (d : Datagram)
      (dl : Dialer fl pr) (id : ℕ) (r : pr.Random)
      → Caller fl pr dl
      → Ready ln dl id r
      → (now ≡ issued) ⊎ (before now ≡ issued)
      → (let c = answered fl pr md5 ln issued d.addr dl in
          read_handshake d.packet ≡ some (ok (concluded empty dl c))
          → new_conn_request fl pr md5 ln clock now d
            ≡ some (reserving ln dl id r, [], some (request empty ln clock d dl c id)))
  unfolding new_conn_request conclude conclusion induction
  new_conn_request-conclusion empty ln clock issued now d dl id r caller ready period e =
      let config = adjust_mss ln.config dl.config.mss in
      let v = verify-get md5 ln.syncookie issued now d.addr.text period in
      let m = le→ltb_false max_mss_size dl.config.mss caller.mss_high in
      let t = too_small-false ln.config dl.config.mss caller.mss_low caller.mss_high in
      let low : (config.min_version ≤ srt_version) =
        omega (arith, ready.version_fits, min_version-adjust_mss ln.config dl.config.mss) in
      let c = requested empty ln dl (answered fl pr md5 ln issued d.addr dl) in
      let f = refuse-requested config empty ln issued d.addr dl low in
      rw (new_conn_request, e)
        (rw (v, m, t)
          (check_conclusion-passes ln clock d config c f refl
            ∙ ap some (
                reserve-Ready ln (request_of fl pr md5 clock d config c none) id r ready.unknown
                  ready.drawn)))

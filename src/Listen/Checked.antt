-- ===== src/Listen/Checked.antt =====
-- What a connection request went through before the application sees it.
use gosrt.Common.{
  ℕ, ◌≤◌, ◌≡◌, refl, subst, arith, true, Option, none, some, List, ltb, ◌==◌, Bool-cases, inl, inr,
}
use gosrt.Common.Int.{ℤ}
use gosrt.Packet.Wire.{Result, ok, err, panics}
use gosrt.Packet.Handshake.{Handshake, hstype_conclusion}
use gosrt.Congestion.Float.{Float64}
use gosrt.Crypto.{Primitives}
use gosrt.Config.{max_mss_size}
use gosrt.Net.Ip.{from_net_addr}
use gosrt.Net.Cookie.{verify}
use gosrt.Listen.State.{Listener, Datagram, ConnRequest, hstype_induction, rej_rogue}
use gosrt.Listen.Request.{
  read_handshake, adjust_mss, too_small, respond, check_conclusion, conclude, induce, answer,
  answer_read, new_conn_request,
}
use gosrt.Listen.Acceptable.{Acceptable}
use gosrt.Listen.Outcomes.{
  Gives, Quiet, Registered, Passed, Gives-replied, Gives-reject_with, Gives-implies,
  Gives-check_conclusion, Gives-answered,
}

module _ (fl : Float64) (pr : Primitives) (md5 : List ℕ → List ℕ) where
  -- What a request shows about the conclusion `c` that led to it.
  pub record Checked (ln : Listener fl pr) (counter : ℤ) (d : Datagram) (c : Handshake)
      (ln' : Listener fl pr) (req : ConnRequest) : Type 0 where
    pub concludes : c.handshake_type ≡ hstype_conclusion
    pub cookie : verify md5 ln.syncookie counter c.syn_cookie d.addr.text ≡ true
    pub mtu_fits : c.max_transmission_unit_size ≤ max_mss_size
    pub acceptable : Acceptable req.config req.handshake
    pub registered : Registered fl pr md5 ln ln' req
    pub config : req.config ≡ adjust_mss ln.config c.max_transmission_unit_size
    pub addr : req.addr ≡ d.addr

  Gives-conclude :
      (ln : Listener fl pr) (clock : ℕ) (counter : ℤ) (d : Datagram) (c : Handshake)
      → c.handshake_type ≡ hstype_conclusion
      → Gives fl pr md5 ln (Checked ln counter d c) (conclude fl pr md5 ln clock counter d c)
  unfolding conclude
  Gives-conclude ln clock counter d c t =
      let config = adjust_mss ln.config c.max_transmission_unit_size in
      let P = Checked ln counter d c in
      elim (Bool-cases (verify md5 ln.syncookie counter c.syn_cookie d.addr.text)) [
        | inr v ↦
            rw (conclude, v)
              (Gives-reject_with fl pr md5 P ln ln clock d c rej_rogue (refl, inl refl))
        | inl v ↦ elim (Bool-cases (ltb max_mss_size c.max_transmission_unit_size)) [
          | inl m ↦
              rw (conclude, v, m)
                (Gives-reject_with fl pr md5 P ln ln clock d c rej_rogue (refl, inl refl))
          | inr m ↦
              let fits : (c.max_transmission_unit_size ≤ max_mss_size) = ground (arith, m) in
              let checked : ((ln' : Listener fl pr) (req : ConnRequest)
                  → Passed fl pr md5 ln d config ln' req
                  → P ln' req) =
                λ ln' req p. record {
                  concludes = t;
                  cookie = v;
                  mtu_fits = fits;
                  acceptable = p.1;
                  registered = p.0;
                  config = p.2;
                  addr = p.3;
                } in
              elim (Bool-cases (too_small ln.config c.max_transmission_unit_size)) [
                | inl s ↦
                    rw (conclude, v, m, s)
                      (Gives-implies fl pr md5 ln ln (Passed fl pr md5 ln d config) P _ (λ ln' q. q)
                        checked
                        (Gives-answered fl pr md5 ln clock d config (
                          respond fl pr md5 ln clock d c.srt_socket_id
                            (record c { handshake_type = rej_rogue }))))
                | inr s ↦
                    rw (conclude, v, m, s)
                      (Gives-implies fl pr md5 ln ln (Passed fl pr md5 ln d config) P
                        (check_conclusion fl pr md5 ln clock d config c) (λ ln' q. q) checked
                        (Gives-check_conclusion fl pr md5 ln clock d config c))
              ]
        ]
      ]

  Gives-answer :
      (ln : Listener fl pr) (clock : ℕ) (counter : ℤ) (d : Datagram) (c : Handshake)
      → Gives fl pr md5 ln (Checked ln counter d c) (answer fl pr md5 ln clock counter d c)
  unfolding induce
  Gives-answer ln clock counter d c =
      let wire : Handshake = record c { peer_ip = from_net_addr (some ln.addr) } in
      elim (Bool-cases (c.handshake_type == hstype_induction)) [
        | inl t ↦ rw t (Gives-replied fl pr md5 (Checked ln counter d c) ln ln _ (refl, inl refl))
        | inr t ↦ elim (Bool-cases (c.handshake_type == hstype_conclusion)) [
          | inr u ↦ rw (t, u) (refl, inl refl)
          | inl u ↦
              rw (t, u)
                (Gives-implies fl pr md5 ln ln (Checked ln counter d wire) (Checked ln counter d c)
                  _ (λ ln' q. q)
                  (λ ln' req k. record {
                    concludes = k.concludes;
                    cookie = k.cookie;
                    mtu_fits = k.mtu_fits;
                    acceptable = k.acceptable;
                    registered = k.registered;
                    config = k.config;
                    addr = k.addr;
                  })
                  (Gives-conclude ln clock counter d wire (ground (arith, u))))
        ]
      ]

  abbrev pub Shown : Listener fl pr → ℤ → Datagram → Listener fl pr → ConnRequest → Type 0
  Shown ln counter d ln' req =
      (c : Handshake) × (read_handshake d.packet ≡ some (ok c)) × Checked ln counter d c ln' req

  Gives-answer_read :
      (ln : Listener fl pr) (clock : ℕ) (counter : ℤ) (d : Datagram) (o : Option (Result Handshake))
      → read_handshake d.packet ≡ o
      → Gives fl pr md5 ln (Shown ln counter d) (answer_read fl pr md5 ln clock counter d o)
  Gives-answer_read ln clock counter d none e = tt
  Gives-answer_read ln clock counter d (some panics) e = tt
  Gives-answer_read ln clock counter d (some (err x)) e = (refl, inl refl)
  Gives-answer_read ln clock counter d (some (ok c)) e =
      Gives-implies fl pr md5 ln ln (Checked ln counter d c) (Shown ln counter d)
        (answer fl pr md5 ln clock counter d c) (λ ln' q. q) (λ ln' req k. (c, e, k))
        (Gives-answer ln clock counter d c)

  -- Where a connection request comes out, the packet was read as a conclusion with a cookie that is valid
  -- for the sender's address now and an MTU of at most 1500; the extension and the version were
  -- acceptable, the configuration is the listener's adjusted to the MTU; the peer was unknown and the
  -- socket id unused, and now both are reserved, and every other key is as before.
  pub new_conn_request-Checked :
      (ln ln' : Listener fl pr) (clock : ℕ) (counter : ℤ) (d : Datagram) (ds : List Datagram)
      (req : ConnRequest)
      → new_conn_request fl pr md5 ln clock counter d ≡ some (ln', ds, some req)
      → Shown ln counter d ln' req
  unfolding new_conn_request
  new_conn_request-Checked ln ln' clock counter d ds req e =
      subst (Gives fl pr md5 ln (Shown ln counter d)) e
        (Gives-answer_read ln clock counter d (read_handshake d.packet) refl)

  -- Where no request comes out, the registry is as before, but for a peer that was unknown and is reserved.
  pub new_conn_request-Quiet :
      (ln ln' : Listener fl pr) (clock : ℕ) (counter : ℤ) (d : Datagram) (ds : List Datagram)
      → new_conn_request fl pr md5 ln clock counter d ≡ some (ln', ds, none)
      → Quiet fl pr md5 ln ln'
  unfolding new_conn_request
  new_conn_request-Quiet ln ln' clock counter d ds e =
      subst (Gives fl pr md5 ln (Shown ln counter d)) e
        (Gives-answer_read ln clock counter d (read_handshake d.packet) refl)

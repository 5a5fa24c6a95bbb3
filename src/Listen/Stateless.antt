-- ===== src/Listen/Stateless.antt =====
-- Without a valid cookie the listener keeps nothing.
use gosrt.Common.{
  ℕ, ◌≤◌, ◌≡◌, refl, subst, arith, false, Option, none, some, List, [], ◌∷◌, length, ◌==◌,
  Bool-cases, inl, inr,
}
use gosrt.Common.Int.{ℤ}
use gosrt.Packet.Wire.{Result, ok, err, panics}
use gosrt.Packet.Handshake.{Handshake, hstype_conclusion}
use gosrt.Congestion.Float.{Float64}
use gosrt.Crypto.{Primitives}
use gosrt.Connection.Pop.{◌>>=◌}
use gosrt.Net.Ip.{from_net_addr}
use gosrt.Net.Cookie.{verify}
use gosrt.Listen.State.{Listener, Datagram, ConnRequest, hstype_induction}
use gosrt.Listen.Request.{
  read_handshake, reject_with, conclude, induce, answer, answer_read, new_conn_request,
}
use gosrt.Listen.Outcomes.{Outcome}

module _ (fl : Float64) (pr : Primitives) (md5 : List ℕ → List ℕ) where
  -- The listener is as before, there is no request, and at most one packet goes out.
  abbrev Keeps : Listener fl pr → Outcome fl pr md5 → Type 0
  Keeps ln none = Unit
  Keeps ln (some (ln', ds, req)) = (ln' ≡ ln) × (req ≡ none) × (length ds ≤ 1)

  Keeps-replied :
      (ln : Listener fl pr) (o : Option (Handshake × Datagram))
      → Keeps ln (o >>= (λ p. some (ln, p.1 ∷ [], none)))
  Keeps-replied ln none = tt
  Keeps-replied ln (some p) = (refl, refl, omega arith)

  Keeps-conclude :
      (ln : Listener fl pr) (clock : ℕ) (counter : ℤ) (d : Datagram) (c : Handshake)
      → verify md5 ln.syncookie counter c.syn_cookie d.addr.text ≡ false
      → Keeps ln (conclude fl pr md5 ln clock counter d c)
  unfolding conclude reject_with
  Keeps-conclude ln clock counter d c v = rw (conclude, v) (Keeps-replied ln _)

  Keeps-answer :
      (ln : Listener fl pr) (clock : ℕ) (counter : ℤ) (d : Datagram) (c : Handshake)
      → (c.handshake_type ≡ hstype_conclusion
          → verify md5 ln.syncookie counter c.syn_cookie d.addr.text ≡ false)
      → Keeps ln (answer fl pr md5 ln clock counter d c)
  unfolding induce
  Keeps-answer ln clock counter d c v = elim (Bool-cases (c.handshake_type == hstype_induction)) [
    | inl t ↦ rw t (Keeps-replied ln _)
    | inr t ↦ elim (Bool-cases (c.handshake_type == hstype_conclusion)) [
      | inr u ↦ rw (t, u) (refl, refl, omega arith)
      | inl u ↦
          rw (t, u)
            (Keeps-conclude ln clock counter d (record c { peer_ip = from_net_addr (some ln.addr) })
              (v (ground (arith, u))))
    ]
  ]

  Keeps-answer_read :
      (ln : Listener fl pr) (clock : ℕ) (counter : ℤ) (d : Datagram) (o : Option (Result Handshake))
      → read_handshake d.packet ≡ o
      → ((c : Handshake)
          → read_handshake d.packet ≡ some (ok c)
          → c.handshake_type ≡ hstype_conclusion
          → verify md5 ln.syncookie counter c.syn_cookie d.addr.text ≡ false)
      → Keeps ln (answer_read fl pr md5 ln clock counter d o)
  Keeps-answer_read ln clock counter d none e v = tt
  Keeps-answer_read ln clock counter d (some panics) e v = tt
  Keeps-answer_read ln clock counter d (some (err x)) e v = (refl, refl, omega arith)
  Keeps-answer_read ln clock counter d (some (ok c)) e v = Keeps-answer ln clock counter d c (v c e)

  -- A packet that is no conclusion with a valid cookie of its sender's address leaves the listener as it
  -- was, leads to no request, and is answered with one packet at most.
  pub new_conn_request_stateless :
      (ln ln' : Listener fl pr) (clock : ℕ) (counter : ℤ) (d : Datagram) (ds : List Datagram)
      (req : Option ConnRequest)
      → ((c : Handshake)
          → read_handshake d.packet ≡ some (ok c)
          → c.handshake_type ≡ hstype_conclusion
          → verify md5 ln.syncookie counter c.syn_cookie d.addr.text ≡ false)
      → new_conn_request fl pr md5 ln clock counter d ≡ some (ln', ds, req)
      → (ln' ≡ ln) × (req ≡ none) × (length ds ≤ 1)
  unfolding new_conn_request
  new_conn_request_stateless ln ln' clock counter d ds req v e =
      subst (Keeps ln) e (Keeps-answer_read ln clock counter d (read_handshake d.packet) refl v)

-- ===== src/Listen/Settled.antt =====
-- A request that is refused frees what it took.
use gosrt.Common.{
  ℕ, ◌≡◌, subst, true, ◌&&◌, Option, none, some, List, [], ◌∷◌, length, ◌==◌, if◌then◌else◌,
  Bool-cases, inl, inr,
}
use gosrt.Common.Maps.{lookup, delete, lookup-delete}
use gosrt.Connection.Pop.{Conn, ◌>>=◌}
use gosrt.Packet.Handshake.{Handshake}
use gosrt.Packet.HandshakeWriter.{marshal}
use gosrt.Congestion.Float.{Float64}
use gosrt.Crypto.{Primitives}
use gosrt.Listen.State.{Listener, Datagram, ConnRequest, written, microseconds_since, rej_badsecret}
use gosrt.Listen.Lifecycle.{placed}
use gosrt.Listen.Accept.{
  waits, reject, accept, establish, has_crypto, delays, accepted_handshake, reply_packet,
}

module _ (fl : Float64) (pr : Primitives) (md5 : List ℕ → List ℕ) where
  -- Both places are free, and every other key is as before.
  pub record Frees (ln : Listener fl pr) (req : ConnRequest) (ln' : Listener fl pr) : Type 0 where
    pub sockets :
        (k : ℕ) → lookup k ln'.conns ≡ (if req.socket_id == k then none else lookup k ln.conns)
    pub peers :
        (k : ℕ)
        → lookup k ln'.conns_by_peer
          ≡ (if req.peer_socket_id == k then none else lookup k ln.conns_by_peer)

  abbrev Rejected : Listener fl pr → ConnRequest → Option (Listener fl pr × List Datagram) → Type 0
  Rejected ln req none = Unit
  Rejected ln req (some (ln', ds)) = Frees ln req ln'

  Rejected-written :
      (ln : Listener fl pr) (clock : ℕ) (req : ConnRequest) (o : Option (Handshake × List ℕ))
      → Rejected ln req (
          o >>= (λ p. some (
            record ln {
              conns = delete req.socket_id ln.conns;
              conns_by_peer = delete req.peer_socket_id ln.conns_by_peer;
            },
            reply_packet req (microseconds_since 0 clock) p.1 ∷ [],
          )))
  Rejected-written ln clock req none = tt
  Rejected-written ln clock req (some p) = record {
    sockets = λ k. lookup-delete req.socket_id k ln.conns;
    peers = λ k. lookup-delete req.peer_socket_id k ln.conns_by_peer;
  }

  Rejected-reject :
      (ln : Listener fl pr) (clock : ℕ) (req : ConnRequest) (reason : ℕ)
      → waits fl pr md5 ln req ≡ true
      → Rejected ln req (reject fl pr md5 ln clock req reason)
  unfolding reject
  Rejected-reject ln clock req reason w = rw (reject, w) (Rejected-written ln clock req _)

  pub reject-Frees :
      (ln ln' : Listener fl pr) (clock : ℕ) (req : ConnRequest) (reason : ℕ) (ds : List Datagram)
      → waits fl pr md5 ln req ≡ true
      → reject fl pr md5 ln clock req reason ≡ some (ln', ds)
      → Frees ln req ln'
  reject-Frees ln ln' clock req reason ds w e =
      subst (Rejected ln req) e (Rejected-reject ln clock req reason w)

  abbrev Refused :
      Listener fl pr
      → ConnRequest
      → Option (Listener fl pr × List Datagram × Option (Conn fl pr))
      → Type 0
  Refused ln req none = Unit
  Refused ln req (some (ln', ds, some c)) = Unit
  Refused ln req (some (ln', ds, none)) = Frees ln req ln'

  Refused-Rejected :
      (ln : Listener fl pr) (req : ConnRequest) (o : Option (Listener fl pr × List Datagram))
      → Rejected ln req o
      → Refused ln req (o >>= (λ p. some (p.0, p.1, none)))
  Refused-Rejected ln req none h = tt
  Refused-Rejected ln req (some p) h = h

  Refused-written :
      (ln : Listener fl pr) (clock : ℕ) (req : ConnRequest) (ibw obw : fl.F) (p : ℕ × ℕ)
      (o : Option (Handshake × List ℕ))
      → Refused ln req (o >>= placed fl pr md5 ln clock req ibw obw p)
  Refused-written ln clock req ibw obw p none = tt
  Refused-written ln clock req ibw obw p (some q) = tt

  Refused-delays :
      (ln : Listener fl pr) (clock : ℕ) (req : ConnRequest) (ibw obw : fl.F) (o : Option (ℕ × ℕ))
      → Refused ln req (
          o >>= (λ p.
            written (accepted_handshake req p.0 p.1) (marshal (accepted_handshake req p.0 p.1))
            >>= placed fl pr md5 ln clock req ibw obw p))
  Refused-delays ln clock req ibw obw none = tt
  Refused-delays ln clock req ibw obw (some p) = Refused-written ln clock req ibw obw p _

  Refused-accept :
      (ln : Listener fl pr) (clock : ℕ) (req : ConnRequest) (ibw obw : fl.F)
      → waits fl pr md5 ln req ≡ true
      → Refused ln req (accept fl pr md5 ln clock req ibw obw)
  unfolding accept establish
  Refused-accept ln clock req ibw obw w =
      elim (Bool-cases (has_crypto fl pr md5 req && (length req.passphrase == 0))) [
        | inl e ↦
            rw (accept, e)
              (Refused-Rejected ln req (reject fl pr md5 ln clock req rej_badsecret)
                (Rejected-reject ln clock req rej_badsecret w))
        | inr e ↦ rw (accept, e, w) (Refused-delays ln clock req ibw obw (delays req))
      ]

  pub accept-Frees :
      (ln ln' : Listener fl pr) (clock : ℕ) (req : ConnRequest) (ibw obw : fl.F)
      (ds : List Datagram)
      → waits fl pr md5 ln req ≡ true
      → accept fl pr md5 ln clock req ibw obw ≡ some (ln', ds, none)
      → Frees ln req ln'
  accept-Frees ln ln' clock req ibw obw ds w e =
      subst (Refused ln req) e (Refused-accept ln clock req ibw obw w)

-- ===== src/Listen/Lifecycle.antt =====
-- A request is settled once, and its connection frees what it took.
use gosrt.Common.{
  ℕ, ◌≡◌, refl, ap, subst, false, ◌&&◌, Option, none, some, List, [], ◌∷◌, length, ◌==◌,
  if◌then◌else◌, Bool-cases, inl, inr,
}
use gosrt.Circular.{Number}
use gosrt.Connection.State.{new_srt_conn}
use gosrt.Listen.Reader.{handle_shutdown}
use gosrt.Common.Maps.{lookup, insert, lookup_inserted, lookup-insert, lookup-delete_inserted}
use gosrt.Congestion.Float.{Float64}
use gosrt.Crypto.{Primitives}
use gosrt.Connection.Pop.{Conn, ◌>>=◌}
use gosrt.Packet.Handshake.{Handshake}
use gosrt.Packet.HandshakeWriter.{marshal}
use gosrt.Listen.State.{written, microseconds_since, Listener, Datagram, ConnRequest}
use gosrt.Listen.Accept.{
  is_reserved, waits, reject, reply_packet, accepted_handshake, delays, accepted_conn, establish,
  accept, has_crypto,
}

module _ (fl : Float64) (pr : Primitives) (md5 : List ℕ → List ℕ) where
  open fl use {F}

  -- Rejecting or accepting a request that does not wait any more changes nothing, sends nothing and gives
  -- no connection.
  settled_once :
      (ln : Listener fl pr) (clock : ℕ) (req : ConnRequest) (reason : ℕ) (ibw obw : F)
      → waits fl pr md5 ln req ≡ false
      → (reject fl pr md5 ln clock req reason ≡ some (ln, []))
        × (accept fl pr md5 ln clock req ibw obw ≡ some (ln, [], none))
  unfolding reject accept
  settled_once ln clock req reason ibw obw w =
      elim (Bool-cases (has_crypto fl pr md5 req && (length req.passphrase == 0))) [
        | inl e ↦ (rw (reject, w) refl, rw (accept, reject, e, w) refl)
        | inr e ↦ (rw (reject, w) refl, rw (accept, e, w) refl)
      ]

  -- The connection of a request has its ids, is registered under both, and when it ends frees exactly
  -- what the request took.
  pub record Lives (sort : List Number → List Number) (ln : Listener fl pr) (req : ConnRequest)
      (ln' : Listener fl pr) (c : Conn fl pr) : Type 0 where
    pub socket : c.socket_id ≡ req.socket_id
    pub peer : c.peer_socket_id ≡ req.peer_socket_id
    pub by_socket :
        lookup req.socket_id ln'.conns
        ≡ some (some (record { conn = c; start = req.start; remote = req.addr.text }))
    pub by_peer : lookup req.peer_socket_id ln'.conns_by_peer ≡ some (some req.socket_id)
    pub sockets :
        (k : ℕ)
        → lookup k ln'.conns ≡ (
            if req.socket_id == k
            then some (some (record { conn = c; start = req.start; remote = req.addr.text }))
            else lookup k ln.conns)
    pub peers :
        (k : ℕ)
        → lookup k ln'.conns_by_peer ≡ (
            if req.peer_socket_id == k
            then some (some req.socket_id)
            else lookup k ln.conns_by_peer)
    pub settled : waits fl pr md5 ln' req ≡ false
    pub frees_socket :
        (k : ℕ)
        → lookup k (handle_shutdown fl pr sort md5 ln' c).conns
          ≡ (if req.socket_id == k then none else lookup k ln.conns)
    pub frees_peer :
        (k : ℕ)
        → lookup k (handle_shutdown fl pr sort md5 ln' c).conns_by_peer
          ≡ (if req.peer_socket_id == k then none else lookup k ln.conns_by_peer)

  abbrev Ends :
      (sort : List Number → List Number) (ln : Listener fl pr) (req : ConnRequest)
      → Option (Listener fl pr × List Datagram × Option (Conn fl pr))
      → Type 0
  Ends sort ln req none = Unit
  Ends sort ln req (some (ln', ds, none)) = Unit
  Ends sort ln req (some (ln', ds, some c)) = Lives sort ln req ln' c

  Lives-established :
      (sort : List Number → List Number) (ln : Listener fl pr) (req : ConnRequest) (recv send : ℕ)
      (ibw obw : F)
      → (let c = accepted_conn fl pr md5 ln req recv send ibw obw in
          Lives sort ln req
            (record ln {
              conns =
                  insert req.socket_id
                    (some (record { conn = c; start = req.start; remote = req.addr.text }))
                    ln.conns;
              conns_by_peer = insert req.peer_socket_id (some req.socket_id) ln.conns_by_peer;
            })
            c)
  unfolding accepted_conn new_srt_conn handle_shutdown waits
  Lives-established sort ln req recv send ibw obw = record {
    socket = refl;
    peer = refl;
    by_socket = lookup_inserted req.socket_id _ ln.conns;
    by_peer = lookup_inserted req.peer_socket_id (some req.socket_id) ln.conns_by_peer;
    sockets = λ k. lookup-insert req.socket_id k _ ln.conns;
    peers = λ k. lookup-insert req.peer_socket_id k (some req.socket_id) ln.conns_by_peer;
    settled =
        ap (is_reserved fl pr md5)
          (lookup_inserted req.peer_socket_id (some req.socket_id) ln.conns_by_peer);
    frees_socket = λ k. lookup-delete_inserted req.socket_id k _ ln.conns;
    frees_peer =
        λ k. lookup-delete_inserted req.peer_socket_id k (some req.socket_id) ln.conns_by_peer;
  }

  -- What `establish` leaves, once the delays are known, and the bytes.
  abbrev pub placed :
      Listener fl pr
      → ℕ
      → ConnRequest
      → F
      → F
      → ℕ × ℕ
      → Handshake × List ℕ
      → Option (Listener fl pr × List Datagram × Option (Conn fl pr))
  placed ln clock req ibw obw p q =
      let conn = accepted_conn fl pr md5 ln req p.0 p.1 ibw obw in
      some (
        record ln {
          conns =
              insert req.socket_id
                (some (record { conn = conn; start = req.start; remote = req.addr.text })) ln.conns;
          conns_by_peer = insert req.peer_socket_id (some req.socket_id) ln.conns_by_peer;
        },
        reply_packet req (microseconds_since req.start clock) q.1 ∷ [],
        some conn,
      )

  Ends-written :
      (sort : List Number → List Number) (ln : Listener fl pr) (clock : ℕ) (req : ConnRequest)
      (ibw obw : F) (p : ℕ × ℕ) (o : Option (Handshake × List ℕ))
      → Ends sort ln req (o >>= placed ln clock req ibw obw p)
  Ends-written sort ln clock req ibw obw p none = tt
  Ends-written sort ln clock req ibw obw p (some q) = Lives-established sort ln req p.0 p.1 ibw obw

  Ends-delays :
      (sort : List Number → List Number) (ln : Listener fl pr) (clock : ℕ) (req : ConnRequest)
      (ibw obw : F) (o : Option (ℕ × ℕ))
      → Ends sort ln req (
          o >>= (λ p.
            written (accepted_handshake req p.0 p.1) (marshal (accepted_handshake req p.0 p.1))
            >>= placed ln clock req ibw obw p))
  Ends-delays sort ln clock req ibw obw none = tt
  Ends-delays sort ln clock req ibw obw (some p) = Ends-written sort ln clock req ibw obw p _

  Ends-rejected :
      (sort : List Number → List Number) (ln : Listener fl pr) (req : ConnRequest)
      (o : Option (Listener fl pr × List Datagram))
      → Ends sort ln req (o >>= (λ p. some (p.0, p.1, none)))
  Ends-rejected sort ln req none = tt
  Ends-rejected sort ln req (some p) = tt

  Ends-accept :
      (sort : List Number → List Number) (ln : Listener fl pr) (clock : ℕ) (req : ConnRequest)
      (ibw obw : F)
      → Ends sort ln req (accept fl pr md5 ln clock req ibw obw)
  unfolding accept establish
  Ends-accept sort ln clock req ibw obw =
      elim (Bool-cases (has_crypto fl pr md5 req && (length req.passphrase == 0))) [
        | inl e ↦ rw (accept, e) (Ends-rejected sort ln req _)
        | inr e ↦ elim (Bool-cases (waits fl pr md5 ln req)) [
          | inr w ↦ rw (accept, e, w) tt
          | inl w ↦ rw (accept, e, w) (Ends-delays sort ln clock req ibw obw (delays req))
        ]
      ]

  -- Where a request is accepted, the connection has its two socket ids and is registered under both, the
  -- request waits no longer, every other key is as before, and when the connection ends, the two ids are
  -- free again.
  pub accept-Lives :
      (sort : List Number → List Number) (ln ln' : Listener fl pr) (clock : ℕ) (req : ConnRequest)
      (ibw obw : F) (ds : List Datagram) (c : Conn fl pr)
      → accept fl pr md5 ln clock req ibw obw ≡ some (ln', ds, some c)
      → Lives sort ln req ln' c
  accept-Lives sort ln ln' clock req ibw obw ds c e =
      subst (Ends sort ln req) e (Ends-accept sort ln clock req ibw obw)

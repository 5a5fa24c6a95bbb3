-- ===== src/Listen/Outcomes.antt =====
-- The outcomes of the steps that make a connection request.
use gosrt.Common.{
  ℕ, zero, suc, ◌≡◌, refl, ap, sym, subst, Option, none, some, List, [], ◌∷◌, ◌==◌, if◌then◌else◌,
  inl, inr, ◌⊎◌,
}
use gosrt.Common.Maps.{Map, lookup, insert, lookup-insert}
use gosrt.Connection.Pop.{◌>>=◌}
use gosrt.Packet.KeyMaterial.{KeyMaterial}
use gosrt.Packet.Handshake.{Handshake}
use gosrt.Congestion.Float.{Float64}
use gosrt.Crypto.{Primitives, Crypto, new}
use gosrt.Config.{Config}
use gosrt.Rand.{uint32}
use gosrt.Listen.State.{Listener, Entry, Datagram, ConnRequest, rej_rogue}
use gosrt.Listen.Request.{
  refuse, respond, reject_with, unless_used, try_id, generate_socket_id, reserved, unless_known,
  reserve, request_of, with_keys, make_keys, with_crypto, after, decided, check_conclusion,
}
use gosrt.Listen.Acceptable.{Acceptable, refuse-Acceptable}

module _ (fl : Float64) (pr : Primitives) (md5 : List ℕ → List ℕ) where
  abbrev pub Outcome : Type 0
  Outcome = Option (Listener fl pr × List Datagram × Option ConnRequest)

  -- The connections are the same, and so are the peers, but for one at most that was unknown and is now
  -- reserved.
  abbrev pub Quiet : Listener fl pr → Listener fl pr → Type 0
  Quiet ln ln' =
      (ln'.conns ≡ ln.conns)
      × ((ln'.conns_by_peer ≡ ln.conns_by_peer)
          ⊎ ((k : ℕ) × (lookup k ln.conns_by_peer ≡ none)
              × (ln'.conns_by_peer ≡ insert k none ln.conns_by_peer)))

  -- `P` holds of whatever request comes out, with the listener that it leaves; without a request the
  -- listener is quiet since `ln`.
  abbrev pub Gives : Listener fl pr → (Listener fl pr → ConnRequest → Type 0) → Outcome → Type 0
  Gives ln P none = Unit
  Gives ln P (some (ln', ds, none)) = Quiet ln ln'
  Gives ln P (some (ln', ds, some req)) = P ln' req

  -- The request is registered, and nothing else: its peer was unknown and its socket id unused.
  pub record Registered (ln ln' : Listener fl pr) (req : ConnRequest) : Type 0 where
    pub unknown : lookup req.peer_socket_id ln.conns_by_peer ≡ none
    pub unused : lookup req.socket_id ln.conns ≡ none
    pub peers :
        (k : ℕ)
        → lookup k ln'.conns_by_peer
          ≡ (if req.peer_socket_id == k then some none else lookup k ln.conns_by_peer)
    pub sockets :
        (k : ℕ) → lookup k ln'.conns ≡ (if req.socket_id == k then some none else lookup k ln.conns)

  -- A socket id that is drawn is in nobody's use.
  abbrev Unused : Map (Option (Entry fl pr)) → Option ℕ × pr.Random → Type 0
  Unused conns (none, r) = Unit
  Unused conns (some id, r) = lookup id conns ≡ none

  unless_used-Unused :
      (conns : Map (Option (Entry fl pr))) (rest : Option ℕ × pr.Random) (id : ℕ) (r : pr.Random)
      (o : Option (Option (Entry fl pr)))
      → lookup id conns ≡ o
      → Unused conns rest
      → Unused conns (unless_used fl pr md5 rest id r o)
  unless_used-Unused conns rest id r none e h = e
  unless_used-Unused conns rest id r (some x) e h = h

  try_id-Unused :
      (conns : Map (Option (Entry fl pr))) (rest drawn : Option ℕ × pr.Random)
      → Unused conns rest
      → Unused conns (try_id fl pr md5 conns rest drawn)
  try_id-Unused conns rest (none, r) h = tt
  try_id-Unused conns rest (some id, r) h =
      unless_used-Unused conns rest id r (lookup id conns) refl h

  generate_socket_id-Unused :
      (tries : ℕ) (conns : Map (Option (Entry fl pr))) (r : pr.Random)
      → Unused conns (generate_socket_id fl pr md5 tries conns r)
  unfolding generate_socket_id
  generate_socket_id-Unused zero conns r = tt
  generate_socket_id-Unused (suc tries) conns r =
      try_id-Unused conns (generate_socket_id fl pr md5 tries conns (uint32 pr r).1) (uint32 pr r)
        (generate_socket_id-Unused tries conns (uint32 pr r).1)

  pub Gives-replied :
      (P : Listener fl pr → ConnRequest → Type 0) (b ln : Listener fl pr)
      (o : Option (Handshake × Datagram))
      → Quiet b ln
      → Gives b P (o >>= (λ p. some (ln, p.1 ∷ [], none)))
  Gives-replied P b ln none q = tt
  Gives-replied P b ln (some p) q = q

  pub Gives-reject_with :
      (P : Listener fl pr → ConnRequest → Type 0) (b ln : Listener fl pr) (clock : ℕ) (d : Datagram)
      (c : Handshake) (reason : ℕ)
      → Quiet b ln
      → Gives b P (reject_with fl pr md5 ln clock d c reason)
  unfolding reject_with
  Gives-reject_with P b ln clock d c reason q =
      Gives-replied P b ln
        (respond fl pr md5 ln clock d c.srt_socket_id (record c { handshake_type = reason })) q

  Gives-reserved :
      (ln : Listener fl pr) (req : ConnRequest) (drawn : Option ℕ × pr.Random)
      → lookup req.peer_socket_id ln.conns_by_peer ≡ none
      → Unused ln.conns drawn
      → Gives ln
          (λ ln' req'. Registered ln ln' req' × (record req { socket_id = req'.socket_id } ≡ req'))
          (some (reserved fl pr md5 ln req drawn))
  Gives-reserved ln req (none, r) u v = (refl, inr (req.peer_socket_id, u, refl))
  Gives-reserved ln req (some id, r) u v = (
    record {
      unknown = u;
      unused = v;
      peers = λ k. lookup-insert req.peer_socket_id k none ln.conns_by_peer;
      sockets = λ k. lookup-insert id k none ln.conns;
    },
    refl,
  )

  -- The request is registered with the rest of it as it was.
  abbrev Takes : Listener fl pr → ConnRequest → Listener fl pr → ConnRequest → Type 0
  Takes ln req ln' req' =
      Registered ln ln' req' × (record req { socket_id = req'.socket_id } ≡ req')

  Gives-unless_known :
      (ln : Listener fl pr) (req : ConnRequest) (known : Option (Option ℕ))
      → lookup req.peer_socket_id ln.conns_by_peer ≡ known
      → Gives ln (Takes ln req) (some (unless_known fl pr md5 ln req known))
  Gives-unless_known ln req (some e) u = (refl, inl refl)
  Gives-unless_known ln req none u =
      Gives-reserved ln req (generate_socket_id fl pr md5 10 ln.conns ln.random) u
        (generate_socket_id-Unused 10 ln.conns ln.random)

  Gives-reserve :
      (ln : Listener fl pr) (req : ConnRequest)
      → Gives ln (Takes ln req) (some (reserve fl pr md5 ln req))
  unfolding reserve
  Gives-reserve ln req = Gives-unless_known ln req (lookup req.peer_socket_id ln.conns_by_peer) refl

  -- The request that a handshake leads to.
  abbrev Made :
      Listener fl pr → ℕ → Datagram → Config → Handshake → Listener fl pr → ConnRequest → Type 0
  Made ln clock d config c ln' req =
      Registered ln ln' req × (req.handshake ≡ c) × (req.config ≡ config) × (req.addr ≡ d.addr)

  pub Gives-implies :
      (b ln : Listener fl pr) (P Q : Listener fl pr → ConnRequest → Type 0) (o : Outcome)
      → ((ln' : Listener fl pr) → Quiet b ln' → Quiet ln ln')
      → ((ln' : Listener fl pr) (req : ConnRequest) → P ln' req → Q ln' req)
      → Gives b P o
      → Gives ln Q o
  Gives-implies b ln P Q none q f g = tt
  Gives-implies b ln P Q (some (ln', ds, none)) q f g = q ln' g
  Gives-implies b ln P Q (some (ln', ds, some req)) q f g = f ln' req g

  Gives-Made :
      (ln : Listener fl pr) (clock : ℕ) (d : Datagram) (config : Config) (c : Handshake)
      (cr : Option Crypto) (r : pr.Random)
      → Gives ln (Made ln clock d config c) (
          some (
            reserve fl pr md5
              (record ln { random = r })
              (request_of fl pr md5 clock d config c cr)))
  Gives-Made ln clock d config c cr r =
      let drawn : Listener fl pr = record ln { random = r } in
      let req = request_of fl pr md5 clock d config c cr in
      Gives-implies drawn ln (Takes drawn req) (Made ln clock d config c)
        (some (reserve fl pr md5 drawn req)) (λ ln' q. q)
        (λ ln' req' t. (
          record {
            unknown = t.0.unknown;
            unused = t.0.unused;
            peers = t.0.peers;
            sockets = t.0.sockets;
          },
          ap (λ (q : ConnRequest). q.handshake) (sym t.1),
          ap (λ (q : ConnRequest). q.config) (sym t.1),
          ap (λ (q : ConnRequest). q.addr) (sym t.1),
        ))
        (Gives-reserve drawn req)

  Gives-with_keys :
      (ln : Listener fl pr) (clock : ℕ) (d : Datagram) (config : Config) (c : Handshake)
      (keys : Option Crypto × pr.Random)
      → Gives ln (Made ln clock d config c) (with_keys fl pr md5 ln clock d config c keys)
  Gives-with_keys ln clock d config c (none, r) =
      Gives-reject_with (Made ln clock d config c) ln (record ln { random = r }) clock d c rej_rogue
        (refl, inl refl)
  Gives-with_keys ln clock d config c (some cr, r) = Gives-Made ln clock d config c (some cr) r

  Gives-make_keys :
      (ln : Listener fl pr) (clock : ℕ) (d : Datagram) (config : Config) (c : Handshake)
      (km : Option KeyMaterial)
      → Gives ln (Made ln clock d config c) (make_keys fl pr md5 ln clock d config c km)
  Gives-make_keys ln clock d config c none = Gives-Made ln clock d config c none ln.random
  Gives-make_keys ln clock d config c (some km) =
      Gives-with_keys ln clock d config c (new pr km.klen ln.random)

  -- A request that was let through: registered, with an acceptable handshake, for the peer's address.
  abbrev pub Passed : Listener fl pr → Datagram → Config → Listener fl pr → ConnRequest → Type 0
  Passed ln d config ln' req =
      Registered ln ln' req
      × Acceptable req.config req.handshake
      × (req.config ≡ config)
      × (req.addr ≡ d.addr)

  Gives-decided :
      (ln : Listener fl pr) (clock : ℕ) (d : Datagram) (config : Config) (c : Handshake)
      (reason : Option ℕ)
      → refuse config c ≡ reason
      → Gives ln (Passed ln d config) (decided fl pr md5 ln clock d config c reason)
  unfolding with_crypto
  Gives-decided ln clock d config c (some reason) e =
      Gives-reject_with (Passed ln d config) ln ln clock d c reason (refl, inl refl)
  Gives-decided ln clock d config c none e =
      Gives-implies ln ln (Made ln clock d config c) (Passed ln d config)
        (with_crypto fl pr md5 ln clock d config c) (λ ln' q. q)
        (λ ln' req m. (
          m.0,
          subst (λ (x : Config). Acceptable x req.handshake) (sym m.2)
              (subst (Acceptable config) (sym m.1) (refuse-Acceptable config c e)),
          m.2,
          m.3,
        ))
        (Gives-make_keys ln clock d config c c.srt_km)

  pub Gives-check_conclusion :
      (ln : Listener fl pr) (clock : ℕ) (d : Datagram) (config : Config) (c : Handshake)
      → Gives ln (Passed ln d config) (check_conclusion fl pr md5 ln clock d config c)
  unfolding check_conclusion
  Gives-check_conclusion ln clock d config c =
      Gives-decided ln clock d config c (refuse config c) refl

  Gives-after :
      (ln : Listener fl pr) (P : Listener fl pr → ConnRequest → Type 0) (ds : List Datagram)
      (o : Outcome)
      → Gives ln P o
      → Gives ln P (after fl pr md5 ds o)
  Gives-after ln P ds none g = tt
  Gives-after ln P ds (some (ln', es, none)) g = g
  Gives-after ln P ds (some (ln', es, some req)) g = g

  pub Gives-answered :
      (ln : Listener fl pr) (clock : ℕ) (d : Datagram) (config : Config)
      (o : Option (Handshake × Datagram))
      → Gives ln (Passed ln d config) (
          o
          >>= (λ p. after fl pr md5 (p.1 ∷ []) (check_conclusion fl pr md5 ln clock d config p.0)))
  Gives-answered ln clock d config none = tt
  Gives-answered ln clock d config (some p) =
      Gives-after ln (Passed ln d config) (p.1 ∷ [])
        (check_conclusion fl pr md5 ln clock d config p.0)
        (Gives-check_conclusion ln clock d config p.0)

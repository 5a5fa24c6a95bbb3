-- ===== src/Listen/Reachable.antt =====
-- The registry of a listener, whatever happens to the listener before it is closed.
use gosrt.Common.{ℕ, ◌≡◌, ap, Option, none, some, List, []}
use gosrt.Common.Int.{ℤ}
use gosrt.Common.Maps.{Map, lookup, insert, delete}
use gosrt.Circular.{Number}
use gosrt.Congestion.Float.{Float64}
use gosrt.Crypto.{Primitives}
use gosrt.Connection.Pop.{Conn}
use gosrt.Listen.State.{Listener, Entry, Datagram, ConnRequest}
use gosrt.Listen.Request.{new_conn_request}
use gosrt.Listen.Accept.{reject, accept}
use gosrt.Listen.Reader.{reader, handle_shutdown}
use gosrt.Listen.Checked.{new_conn_request-Checked, new_conn_request-Quiet}
use gosrt.Listen.Settled.{reject-Frees}
use gosrt.Listen.Registry.{Registry, Touches-Registry}
use gosrt.Listen.Preserved.{asked-Touches, waiting-waits, freed-Registry, accepted-Registry}
use gosrt.Listen.Moved.{moved-Registry, ended-Registry, Quiet-Registry, reader-Registry}

module _ (fl : Float64) (pr : Primitives) (sort : List Number → List Number)
    (md5 : List ℕ → List ℕ) where
  -- The listener as the steps leave it, and the requests that wait, each under its peer. The application
  -- settles a request once; before that it may change anything in it but the two socket ids.
  pub data Reachable : Listener fl pr → Map ConnRequest → Type 0 where
    opened : (ln : Listener fl pr) → ln.conns ≡ [] → ln.conns_by_peer ≡ [] → Reachable ln []
    asked :
        {ln ln' : Listener fl pr} {reqs : Map ConnRequest}
        → Reachable ln reqs
        → (clock : ℕ) (counter : ℤ) (d : Datagram) (ds : List Datagram) (req : ConnRequest)
        → new_conn_request fl pr md5 ln clock counter d ≡ some (ln', ds, some req)
        → Reachable ln' (insert req.peer_socket_id req reqs)
    unasked :
        {ln ln' : Listener fl pr} {reqs : Map ConnRequest}
        → Reachable ln reqs
        → (clock : ℕ) (counter : ℤ) (d : Datagram) (ds : List Datagram)
        → new_conn_request fl pr md5 ln clock counter d ≡ some (ln', ds, none)
        → Reachable ln' reqs
    accepted :
        {ln ln' : Listener fl pr} {reqs : Map ConnRequest}
        → Reachable ln reqs
        → (clock : ℕ) (q req : ConnRequest) (ibw obw : fl.F) (ds : List Datagram)
          (c : Option (Conn fl pr))
        → lookup req.peer_socket_id reqs ≡ some q
        → req.socket_id ≡ q.socket_id
        → accept fl pr md5 ln clock req ibw obw ≡ some (ln', ds, c)
        → Reachable ln' (delete req.peer_socket_id reqs)
    rejected :
        {ln ln' : Listener fl pr} {reqs : Map ConnRequest}
        → Reachable ln reqs
        → (clock : ℕ) (q req : ConnRequest) (reason : ℕ) (ds : List Datagram)
        → lookup req.peer_socket_id reqs ≡ some q
        → req.socket_id ≡ q.socket_id
        → reject fl pr md5 ln clock req reason ≡ some (ln', ds)
        → Reachable ln' (delete req.peer_socket_id reqs)
    received :
        {ln : Listener fl pr} {reqs : Map ConnRequest}
        → Reachable ln reqs
        → (d : Datagram) → Reachable (reader fl pr sort md5 ln d) reqs
    -- The connection at `id` goes on by itself, as `c`.
    moved :
        {ln : Listener fl pr} {reqs : Map ConnRequest}
        → Reachable ln reqs
        → (id : ℕ) (e : Entry fl pr) (c : Conn fl pr) → lookup id ln.conns ≡ some (some e)
        → c.socket_id ≡ e.conn.socket_id
        → c.peer_socket_id ≡ e.conn.peer_socket_id
        → Reachable (record ln { conns = insert id (some (record e { conn = c })) ln.conns }) reqs
    ended :
        {ln : Listener fl pr} {reqs : Map ConnRequest}
        → Reachable ln reqs
        → (id : ℕ) (e : Entry fl pr) → lookup id ln.conns ≡ some (some e)
        → Reachable (handle_shutdown fl pr sort md5 ln e.conn) reqs

  -- Whatever happened to a listener since it was opened with no connections (handshakes read, requests
  -- accepted or rejected once each with their socket ids, packets received, connections that go on or
  -- end): a peer with a connection leads to a connection with this peer, a connection is kept under its own
  -- socket id and its peer leads to it, and each request that waits has both places reserved, no two with
  -- the same socket id.
  pub Reachable-Registry :
      (ln : Listener fl pr) (reqs : Map ConnRequest) → Reachable ln reqs → Registry fl pr ln reqs
  unfolding lookup
  Reachable-Registry ln reqs (opened l s p) = record {
    by_peer = λ k id h. let w = ap (λ m. lookup k m) p in cc;
    by_socket = λ id e h. let w = ap (λ m. lookup id m) s in cc;
    waiting = λ k q h. cc;
    apart = λ j k q q' h h' e. cc;
  }
  Reachable-Registry ln' reqs (asked {ln = ln} h clock counter d ds req e) =
      let (c, f, k) = new_conn_request-Checked fl pr md5 ln ln' clock counter d ds req e in
      let r = Reachable-Registry ln _ h in
      Touches-Registry fl pr (asked-Touches fl pr sort md5 req r k.registered) r
  Reachable-Registry ln' reqs (unasked {ln = ln} h clock counter d ds e) =
      Quiet-Registry fl pr sort md5 (new_conn_request-Quiet fl pr md5 ln ln' clock counter d ds e)
        (Reachable-Registry ln reqs h)
  Reachable-Registry ln' reqs (accepted {ln = ln} h clock q req ibw obw ds c f i e) =
      accepted-Registry fl pr sort md5 clock q req ibw obw ds c (Reachable-Registry ln _ h) f i e
  Reachable-Registry ln' reqs (rejected {ln = ln} h clock q req reason ds f i e) =
      let r = Reachable-Registry ln _ h in
      freed-Registry fl pr sort md5 q req r f i (
        reject-Frees fl pr md5 ln ln' clock req reason ds (waiting-waits fl pr sort md5 q req r f)
          e)
  Reachable-Registry ln' reqs (received {ln = ln} h d) =
      reader-Registry fl pr sort md5 d (Reachable-Registry ln reqs h)
  Reachable-Registry ln' reqs (moved {ln = ln} h id e c f i p) =
      moved-Registry fl pr sort md5 id e c (Reachable-Registry ln reqs h) f i p
  Reachable-Registry ln' reqs (ended {ln = ln} h id e f) =
      ended-Registry fl pr sort md5 id e (Reachable-Registry ln reqs h) f

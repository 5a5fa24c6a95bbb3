-- ===== src/Listen/Preserved.antt =====
-- What each step of a listener does to its registry.
use gosrt.Common.{
  ℕ, ◌≡◌, ◌≢◌, refl, ap, sym, ◌∙◌, arith, true, Option, none, some, List, ◌==◌, if◌then◌else◌,
  Bool-cases, inl, inr,
}
use gosrt.Common.Maps.{Map, lookup, insert, delete, lookup-insert, lookup-delete}
use gosrt.Circular.{Number}
use gosrt.Congestion.Float.{Float64}
use gosrt.Crypto.{Primitives}
use gosrt.Connection.Pop.{Conn}
use gosrt.Listen.State.{Listener, Entry, Datagram, ConnRequest}
use gosrt.Listen.Accept.{waits, is_reserved, accept}
use gosrt.Listen.Outcomes.{Registered}
use gosrt.Listen.Lifecycle.{accept-Lives}
use gosrt.Listen.Settled.{Frees, accept-Frees}
use gosrt.Listen.Registry.{Registry, Touches, Touches-Registry}

module _ (fl : Float64) (pr : Primitives) (sort : List Number → List Number)
    (md5 : List ℕ → List ℕ) where
  pub asked-Touches :
      {ln ln' : Listener fl pr} {reqs : Map ConnRequest} (req : ConnRequest)
      → Registry fl pr ln reqs
      → Registered fl pr md5 ln ln' req
      → Touches fl pr ln ln' reqs
          (insert req.peer_socket_id req reqs)
          req.socket_id
          req.peer_socket_id
          (some none)
          (some none)
  asked-Touches {reqs = reqs} req r h = record {
    sockets = h.sockets;
    peers = h.peers;
    old_socket = λ e k. let u = h.unused in cc;
    old_peer = λ id k. let u = h.unknown in cc;
    new_peer = λ id k. cc;
    new_socket = λ e k. cc;
    requests = λ k q f. elim (Bool-cases (req.peer_socket_id == k)) [
      | inl b ↦
          let w : (k ≡ req.peer_socket_id) = ground (arith, b) in
          let same : (some req ≡ some q) =
            sym (rw (lookup-insert req.peer_socket_id k req reqs, b) refl) ∙ f in
          inl (w, cc, cc, refl, refl)
      | inr b ↦
          let f0 : (lookup k reqs ≡ some q) =
            sym (rw (lookup-insert req.peer_socket_id k req reqs, b) refl) ∙ f in
          let (a, c, d) = r.waiting k q f0 in
          let u = h.unused in
          let n : (q.socket_id ≢ req.socket_id) = λ i. cc in inr (f0, n, ground (arith, b))
    ];
  }

  settled-Touches :
      {ln ln' : Listener fl pr} {reqs : Map ConnRequest} (q req : ConnRequest)
      {x : Option (Option (Entry fl pr))} {y : Option (Option ℕ)}
      → Registry fl pr ln reqs
      → lookup req.peer_socket_id reqs ≡ some q
      → req.socket_id ≡ q.socket_id
      → ((k : ℕ) → lookup k ln'.conns ≡ (if req.socket_id == k then x else lookup k ln.conns))
      → ((k : ℕ)
          → lookup k ln'.conns_by_peer
            ≡ (if req.peer_socket_id == k then y else lookup k ln.conns_by_peer))
      → ((id : ℕ)
          → y ≡ some (some id)
          → (e : Entry fl pr) × (x ≡ some (some e))
            × (e.conn.peer_socket_id ≡ req.peer_socket_id)
            × (id ≡ req.socket_id))
      → ((e : Entry fl pr)
          → x ≡ some (some e)
          → (e.conn.socket_id ≡ req.socket_id)
            × (e.conn.peer_socket_id ≡ req.peer_socket_id)
            × (y ≡ some (some req.socket_id)))
      → Touches fl pr ln ln' reqs
          (delete req.peer_socket_id reqs)
          req.socket_id
          req.peer_socket_id
          x
          y
  settled-Touches {reqs = reqs} q req r hq hs sockets peers new_peer new_socket =
      let (a, b, c) = r.waiting req.peer_socket_id q hq in
      record {
        sockets = sockets;
        peers = peers;
        old_socket = λ e k. cc;
        old_peer = λ id k. cc;
        new_peer = new_peer;
        new_socket = new_socket;
        requests = λ k q' f. elim (Bool-cases (req.peer_socket_id == k)) [
          | inl t ↦
              let gone : (none ≡ some q') =
                sym (rw (lookup-delete req.peer_socket_id k reqs, t) refl) ∙ f in
              cc
          | inr t ↦
              let f0 : (lookup k reqs ≡ some q') =
                sym (rw (lookup-delete req.peer_socket_id k reqs, t) refl) ∙ f in
              let n : (k ≢ req.peer_socket_id) = ground (arith, t) in
              inr (f0, (λ i. n (r.apart k req.peer_socket_id q' q f0 hq (i ∙ hs))), n)
        ];
      }

  pub waiting-waits :
      {ln : Listener fl pr} {reqs : Map ConnRequest} (q req : ConnRequest)
      → Registry fl pr ln reqs
      → lookup req.peer_socket_id reqs ≡ some q
      → waits fl pr md5 ln req ≡ true
  unfolding waits
  waiting-waits q req r f =
      let (a, b, c) = r.waiting req.peer_socket_id q f in ap (is_reserved fl pr md5) c

  pub freed-Registry :
      {ln ln' : Listener fl pr} {reqs : Map ConnRequest} (q req : ConnRequest)
      → Registry fl pr ln reqs
      → lookup req.peer_socket_id reqs ≡ some q
      → req.socket_id ≡ q.socket_id
      → Frees fl pr md5 ln req ln'
      → Registry fl pr ln' (delete req.peer_socket_id reqs)
  freed-Registry q req r f i t =
      Touches-Registry fl pr
        (settled-Touches q req {x = none} {y = none} r f i t.sockets t.peers (λ id k. cc)
          (λ e k. cc))
        r

  pub accepted-Registry :
      {ln ln' : Listener fl pr} {reqs : Map ConnRequest} (clock : ℕ) (q req : ConnRequest)
      (ibw obw : fl.F) (ds : List Datagram) (c : Option (Conn fl pr))
      → Registry fl pr ln reqs
      → lookup req.peer_socket_id reqs ≡ some q
      → req.socket_id ≡ q.socket_id
      → accept fl pr md5 ln clock req ibw obw ≡ some (ln', ds, c)
      → Registry fl pr ln' (delete req.peer_socket_id reqs)
  accepted-Registry {ln = ln} {ln' = ln'} clock q req ibw obw ds none r f i e =
      freed-Registry q req r f i
        (accept-Frees fl pr md5 ln ln' clock req ibw obw ds (waiting-waits q req r f) e)
  accepted-Registry {ln = ln} {ln' = ln'} clock q req ibw obw ds (some c) r f i e =
      let l = accept-Lives fl pr md5 sort ln ln' clock req ibw obw ds c e in
      let entry : Entry fl pr = record { conn = c; start = req.start; remote = req.addr.text } in
      Touches-Registry fl pr
        (settled-Touches q req {x = some (some entry)} {y = some (some req.socket_id)} r f i
          l.sockets l.peers (λ id k. (entry, refl, l.peer, cc))
          (λ e' k.
            let w : (e' ≡ entry) = cc in
            (
              ap (λ (z : Entry fl pr). z.conn.socket_id) w ∙ l.socket,
              ap (λ (z : Entry fl pr). z.conn.peer_socket_id) w ∙ l.peer,
              refl,
            )))
        r

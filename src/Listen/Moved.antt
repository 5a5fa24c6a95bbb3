-- ===== src/Listen/Moved.antt =====
-- What packets, connections and refused handshakes do to the registry of a listener.
use gosrt.Common.{
  ℕ, ◌≡◌, ◌≢◌, refl, ap, sym, ◌∙◌, arith, Bool, true, false, Option, none, some, List, not, ◌&&◌,
  ltb, length, ◌==◌, if◌then◌else◌, Bool-cases, inl, inr,
}
use gosrt.Common.Maps.{Map, lookup, insert, lookup-insert, lookup-delete}
use gosrt.Circular.{Number}
use gosrt.Congestion.Float.{Float64}
use gosrt.Crypto.{Primitives}
use gosrt.Connection.Pop.{Conn}
use gosrt.Connection.Dispatch.{push}
use gosrt.Connection.Data.{queue_size}
use gosrt.Listen.State.{ctrltype_handshake, Listener, Entry, Datagram, ConnRequest}
use gosrt.Listen.Reader.{
  backlog_size, to_backlog, from_peer, to_connection, reader, handle_shutdown,
}
use gosrt.Listen.Outcomes.{Quiet}
use gosrt.Listen.Registry.{Registry, Touches-Registry}

module _ (fl : Float64) (pr : Primitives) (sort : List Number → List Number)
    (md5 : List ℕ → List ℕ) where
  -- A request that waits is none of those with a connection.
  elsewhere :
      {ln : Listener fl pr} {reqs : Map ConnRequest} (id : ℕ) (e : Entry fl pr)
      → Registry fl pr ln reqs
      → lookup id ln.conns ≡ some (some e)
      → (k : ℕ) (q : ConnRequest) → lookup k reqs ≡ some q
      → (q.socket_id ≢ id) × (k ≢ e.conn.peer_socket_id)
  elsewhere id e r h k q f =
      let (a, b, c) = r.waiting k q f in let (s, p) = r.by_socket id e h in (λ i. cc, λ i. cc)

  pub moved-Registry :
      {ln : Listener fl pr} {reqs : Map ConnRequest} (id : ℕ) (e : Entry fl pr) (c : Conn fl pr)
      → Registry fl pr ln reqs
      → lookup id ln.conns ≡ some (some e)
      → c.socket_id ≡ e.conn.socket_id
      → c.peer_socket_id ≡ e.conn.peer_socket_id
      → Registry fl pr
          (record ln { conns = insert id (some (record e { conn = c })) ln.conns })
          reqs
  moved-Registry {ln = ln} id e c r h cs cp =
      let (s, p) = r.by_socket id e h in
      Touches-Registry fl pr {s = id} {p = e.conn.peer_socket_id}
        {x = some (some (record e { conn = c }))} {y = some (some id)}
        (record {
          sockets = λ k. lookup-insert id k (some (record e { conn = c })) ln.conns;
          peers = λ k. elim (Bool-cases (e.conn.peer_socket_id == k)) [
            | inl b ↦
                let w : (e.conn.peer_socket_id ≡ k) = ground (arith, b) in
                rw b (ap (λ (j : ℕ). lookup j ln.conns_by_peer) (sym w) ∙ p)
            | inr b ↦ rw b refl
          ];
          old_socket =
              λ e' k. let w : (e' ≡ e) = cc in ap (λ (z : Entry fl pr). z.conn.peer_socket_id) w;
          old_peer = λ i k. cc;
          new_peer = λ i k. (record e { conn = c }, refl, cp, cc);
          new_socket = λ e' k.
              let w : (e' ≡ record e { conn = c }) = cc in
              (
                ap (λ (z : Entry fl pr). z.conn.socket_id) w ∙ (cs ∙ s),
                ap (λ (z : Entry fl pr). z.conn.peer_socket_id) w ∙ cp,
                refl,
              );
          requests = λ k q f. let (m, n) = elsewhere id e r h k q f in inr (f, m, n);
        })
        r

  pub ended-Registry :
      {ln : Listener fl pr} {reqs : Map ConnRequest} (id : ℕ) (e : Entry fl pr)
      → Registry fl pr ln reqs
      → lookup id ln.conns ≡ some (some e)
      → Registry fl pr (handle_shutdown fl pr sort md5 ln e.conn) reqs
  unfolding handle_shutdown
  ended-Registry {ln = ln} id e r h =
      let (s, p) = r.by_socket id e h in
      Touches-Registry fl pr {s = e.conn.socket_id} {p = e.conn.peer_socket_id} {x = none}
        {y = none}
        (record {
          sockets = λ k. lookup-delete e.conn.socket_id k ln.conns;
          peers = λ k. lookup-delete e.conn.peer_socket_id k ln.conns_by_peer;
          old_socket =
              λ e' k. let w : (e' ≡ e) = cc in ap (λ (z : Entry fl pr). z.conn.peer_socket_id) w;
          old_peer = λ i k. cc;
          new_peer = λ i k. cc;
          new_socket = λ e' k. cc;
          requests = λ k q f. let (m, n) = elsewhere id e r h k q f in inr (f, (λ i. m (i ∙ s)), n);
        })
        r

  -- A connection that takes a packet keeps its ids.
  push-ids :
      (c : Conn fl pr) (d : Datagram)
      → ((push fl pr sort c d.packet).socket_id ≡ c.socket_id)
        × ((push fl pr sort c d.packet).peer_socket_id ≡ c.peer_socket_id)
  unfolding push
  push-ids c d = elim (Bool-cases (not c.closed && ltb (length c.network_queue) queue_size)) [
    | inl e ↦ rw (push, e) (refl, refl)
    | inr e ↦ rw (push, e) (refl, refl)
  ]

  to_connection-Registry :
      {ln : Listener fl pr} {reqs : Map ConnRequest} (d : Datagram)
      (o : Option (Option (Entry fl pr)))
      → lookup d.packet.header.destination_socket_id ln.conns ≡ o
      → Registry fl pr ln reqs
      → Registry fl pr (to_connection fl pr sort md5 ln d) reqs
  unfolding to_connection
  to_connection-Registry d none h r = rw (to_connection, h) r
  to_connection-Registry d (some none) h r = rw (to_connection, h) r
  to_connection-Registry {ln = ln} d (some (some e)) h r =
      elim (Bool-cases (from_peer fl pr sort md5 ln e d)) [
        | inl b ↦
            let (s, p) = push-ids e.conn d in
            rw (to_connection, h, b)
              (moved-Registry d.packet.header.destination_socket_id e
                (push fl pr sort e.conn d.packet) r h s p)
        | inr b ↦ rw (to_connection, h, b) r
      ]

  same-Registry :
      {ln ln' : Listener fl pr} {reqs : Map ConnRequest}
      → ln'.conns ≡ ln.conns
      → ln'.conns_by_peer ≡ ln.conns_by_peer
      → Registry fl pr ln reqs
      → Registry fl pr ln' reqs
  same-Registry {ln = ln} {ln' = ln'} s p r =
      let at : ((k : ℕ) → lookup k ln'.conns ≡ lookup k ln.conns) = λ k. ap (λ m. lookup k m) s in
      let at_peer : ((k : ℕ) → lookup k ln'.conns_by_peer ≡ lookup k ln.conns_by_peer) =
        λ k. ap (λ m. lookup k m) p in
      record {
        by_peer =
            λ k id h. let (e, a, b) = r.by_peer k id (sym (at_peer k) ∙ h) in (e, at id ∙ a, b);
        by_socket = λ id e h.
            let (a, b) = r.by_socket id e (sym (at id) ∙ h) in
            (a, at_peer e.conn.peer_socket_id ∙ b);
        waiting =
            λ k q h. let (a, b, c) = r.waiting k q h in (a, at q.socket_id ∙ b, at_peer k ∙ c);
        apart = r.apart;
      }

  backlog-Registry :
      {ln : Listener fl pr} {reqs : Map ConnRequest} (d : Datagram)
      → Registry fl pr ln reqs
      → Registry fl pr (to_backlog fl pr sort md5 ln d) reqs
  unfolding to_backlog
  backlog-Registry {ln = ln} d r =
      elim (Bool-cases (
        d.packet.header.is_control_packet
        && (d.packet.header.control_type == ctrltype_handshake)
        && ltb (length ln.backlog) backlog_size)) [
          | inl b ↦ rw (to_backlog, b) (same-Registry refl refl r)
          | inr b ↦ rw (to_backlog, b) r
        ]

  -- A peer that was unknown is reserved, and nothing else.
  reserved-Registry :
      {ln ln' : Listener fl pr} {reqs : Map ConnRequest} (p : ℕ)
      → ln'.conns ≡ ln.conns
      → lookup p ln.conns_by_peer ≡ none
      → ln'.conns_by_peer ≡ insert p none ln.conns_by_peer
      → Registry fl pr ln reqs
      → Registry fl pr ln' reqs
  reserved-Registry {ln = ln} {ln' = ln'} p s u t r =
      let at : ((k : ℕ) → lookup k ln'.conns ≡ lookup k ln.conns) = λ k. ap (λ m. lookup k m) s in
      let at_peer : ((k : ℕ)
          → lookup k ln'.conns_by_peer
            ≡ (if p == k then some none else lookup k ln.conns_by_peer)) =
        λ k. ap (λ m. lookup k m) t ∙ lookup-insert p k none ln.conns_by_peer in
      let known : ((k : ℕ) (x : Option ℕ) → lookup k ln.conns_by_peer ≡ some x → k ≢ p) =
        λ k x h i. cc in
      let kept : ((k : ℕ) → k ≢ p → lookup k ln'.conns_by_peer ≡ lookup k ln.conns_by_peer) =
        λ k n. ground (arith, at_peer k) in
      record {
        by_peer = λ k id h. elim (Bool-cases (p == k)) [
          | inl b ↦
              let hidden : (lookup k ln'.conns_by_peer ≡ some none) = rw (at_peer k, b) refl in cc
          | inr b ↦
              let (e, a, c) = r.by_peer k id (sym (kept k (ground (arith, b))) ∙ h) in
              (e, at id ∙ a, c)
        ];
        by_socket = λ id e h.
            let (a, b) = r.by_socket id e (sym (at id) ∙ h) in
            (a, kept e.conn.peer_socket_id (known e.conn.peer_socket_id (some id) b) ∙ b);
        waiting = λ k q h.
            let (a, b, c) = r.waiting k q h in (a, at q.socket_id ∙ b, kept k (known k none c) ∙ c);
        apart = r.apart;
      }

  pub Quiet-Registry :
      {ln ln' : Listener fl pr} {reqs : Map ConnRequest}
      → Quiet fl pr md5 ln ln'
      → Registry fl pr ln reqs
      → Registry fl pr ln' reqs
  Quiet-Registry (s, inl p) r = same-Registry s p r
  Quiet-Registry (s, inr (p, u, t)) r = reserved-Registry p s u t r

  if-Registry :
      (b : Bool) {ln ln' : Listener fl pr} {reqs : Map ConnRequest}
      → Registry fl pr ln reqs
      → Registry fl pr ln' reqs
      → Registry fl pr (if b then ln else ln') reqs
  if-Registry true r r' = r
  if-Registry false r r' = r'

  pub reader-Registry :
      {ln : Listener fl pr} {reqs : Map ConnRequest} (d : Datagram)
      → Registry fl pr ln reqs
      → Registry fl pr (reader fl pr sort md5 ln d) reqs
  unfolding reader
  reader-Registry {ln = ln} d r = if-Registry ln.shutdown r (
      if-Registry (d.packet.header.destination_socket_id == 0) (backlog-Registry d r)
        (to_connection-Registry d (lookup d.packet.header.destination_socket_id ln.conns) refl r))

-- ===== src/Listen/Registry.antt =====
-- The two maps of a listener, and the requests that the application has not settled yet.
use gosrt.Common.{
  ℕ, ◌≡◌, ◌≢◌, ap, sym, ◌∙◌, arith, Option, none, some, ◌==◌, if◌then◌else◌, Bool-cases, inl, inr,
  ◌⊎◌,
}
use gosrt.Common.Maps.{Map, lookup}
use gosrt.Congestion.Float.{Float64}
use gosrt.Crypto.{Primitives}
use gosrt.Listen.State.{Listener, Entry, ConnRequest}

module _ (fl : Float64) (pr : Primitives) where
  -- The maps agree: a peer with a connection leads to a connection with this peer, and a connection is
  -- kept under its own socket id, and its peer leads to it. A request that waits, kept here under its
  -- peer, has both places reserved, and no two of them have the same socket id.
  pub record Registry (ln : Listener fl pr) (reqs : Map ConnRequest) : Type 0 where
    pub by_peer :
        (k id : ℕ)
        → lookup k ln.conns_by_peer ≡ some (some id)
        → (e : Entry fl pr) × (lookup id ln.conns ≡ some (some e)) × (e.conn.peer_socket_id ≡ k)
    pub by_socket :
        (id : ℕ) (e : Entry fl pr)
        → lookup id ln.conns ≡ some (some e)
        → (e.conn.socket_id ≡ id) × (lookup e.conn.peer_socket_id ln.conns_by_peer ≡ some (some id))
    pub waiting :
        (k : ℕ) (q : ConnRequest)
        → lookup k reqs ≡ some q
        → (q.peer_socket_id ≡ k)
          × (lookup q.socket_id ln.conns ≡ some none)
          × (lookup k ln.conns_by_peer ≡ some none)
    pub apart :
        (j k : ℕ) (q q' : ConnRequest)
        → lookup j reqs ≡ some q
        → lookup k reqs ≡ some q'
        → q.socket_id ≡ q'.socket_id
        → j ≡ k

  -- A step that touches one socket id and one peer, and at most one request.
  pub record Touches (ln ln' : Listener fl pr) (reqs reqs' : Map ConnRequest) (s p : ℕ)
      (x : Option (Option (Entry fl pr))) (y : Option (Option ℕ)) : Type 0 where
    pub sockets : (k : ℕ) → lookup k ln'.conns ≡ (if s == k then x else lookup k ln.conns)
    pub peers :
        (k : ℕ) → lookup k ln'.conns_by_peer ≡ (if p == k then y else lookup k ln.conns_by_peer)
    -- What was there before belongs together.
    pub old_socket :
        (e : Entry fl pr) → lookup s ln.conns ≡ some (some e) → e.conn.peer_socket_id ≡ p
    pub old_peer : (id : ℕ) → lookup p ln.conns_by_peer ≡ some (some id) → id ≡ s
    -- And so does what is there afterwards.
    pub new_peer :
        (id : ℕ)
        → y ≡ some (some id)
        → (e : Entry fl pr) × (x ≡ some (some e)) × (e.conn.peer_socket_id ≡ p) × (id ≡ s)
    pub new_socket :
        (e : Entry fl pr)
        → x ≡ some (some e)
        → (e.conn.socket_id ≡ s) × (e.conn.peer_socket_id ≡ p) × (y ≡ some (some s))
    pub requests :
        (k : ℕ) (q : ConnRequest)
        → lookup k reqs' ≡ some q
        → ((k ≡ p) × (q.socket_id ≡ s) × (q.peer_socket_id ≡ p) × (x ≡ some none) × (y ≡ some none))
          ⊎ ((lookup k reqs ≡ some q) × (q.socket_id ≢ s) × (k ≢ p))

  module _ {ln ln' : Listener fl pr} {reqs reqs' : Map ConnRequest} {s p : ℕ}
      {x : Option (Option (Entry fl pr))} {y : Option (Option ℕ)}
      (t : Touches ln ln' reqs reqs' s p x y) where
    at_socket : lookup s ln'.conns ≡ x
    at_socket = ground (arith, t.sockets s)

    at_peer : lookup p ln'.conns_by_peer ≡ y
    at_peer = ground (arith, t.peers p)

    elsewhere : (k : ℕ) → k ≢ s → lookup k ln'.conns ≡ lookup k ln.conns
    elsewhere k n = ground (arith, t.sockets k)

    elsewhere_peer : (k : ℕ) → k ≢ p → lookup k ln'.conns_by_peer ≡ lookup k ln.conns_by_peer
    elsewhere_peer k n = ground (arith, t.peers k)

    Touches-by_peer :
        Registry ln reqs
        → (k id : ℕ) → lookup k ln'.conns_by_peer ≡ some (some id)
        → (e : Entry fl pr) × (lookup id ln'.conns ≡ some (some e)) × (e.conn.peer_socket_id ≡ k)
    Touches-by_peer r k id h = elim (Bool-cases (p == k)) [
      | inl b ↦
          let w : (p ≡ k) = ground (arith, b) in
          let (e, hx, hp, i) =
            t.new_peer id (sym at_peer ∙ (ap (λ (j : ℕ). lookup j ln'.conns_by_peer) w ∙ h)) in
          (e, ap (λ (j : ℕ). lookup j ln'.conns) i ∙ (at_socket ∙ hx), hp ∙ w)
      | inr b ↦
          let n : (k ≢ p) = ground (arith, b) in
          let (e, hs, hp) = r.by_peer k id (sym (elsewhere_peer k n) ∙ h) in
          let m : (id ≢ s) =
            λ i. n (sym hp ∙ t.old_socket e (ap (λ (j : ℕ). lookup j ln.conns) (sym i) ∙ hs)) in
          (e, elsewhere id m ∙ hs, hp)
    ]

    Touches-by_socket :
        Registry ln reqs
        → (id : ℕ) (e : Entry fl pr) → lookup id ln'.conns ≡ some (some e)
        → (e.conn.socket_id ≡ id)
          × (lookup e.conn.peer_socket_id ln'.conns_by_peer ≡ some (some id))
    Touches-by_socket r id e h = elim (Bool-cases (s == id)) [
      | inl b ↦
          let w : (s ≡ id) = ground (arith, b) in
          let (a, hp, c) =
            t.new_socket e (sym at_socket ∙ (ap (λ (j : ℕ). lookup j ln'.conns) w ∙ h)) in
          (
            a ∙ w,
            ap (λ (j : ℕ). lookup j ln'.conns_by_peer) hp
                ∙ (at_peer ∙ (c ∙ ap (λ (j : ℕ). some (some j)) w)),
          )
      | inr b ↦
          let n : (id ≢ s) = ground (arith, b) in
          let (a, c) = r.by_socket id e (sym (elsewhere id n) ∙ h) in
          let m : (e.conn.peer_socket_id ≢ p) =
            λ i. n (t.old_peer id (ap (λ (j : ℕ). lookup j ln.conns_by_peer) (sym i) ∙ c)) in
          (a, elsewhere_peer e.conn.peer_socket_id m ∙ c)
    ]

    Touches-waiting :
        Registry ln reqs
        → (k : ℕ) (q : ConnRequest) → lookup k reqs' ≡ some q
        → (q.peer_socket_id ≡ k)
          × (lookup q.socket_id ln'.conns ≡ some none)
          × (lookup k ln'.conns_by_peer ≡ some none)
    Touches-waiting r k q h = elim (t.requests k q h) [
      | inl (kp, qs, qp, hx, hy) ↦ (
        qp ∙ sym kp,
        ap (λ (j : ℕ). lookup j ln'.conns) qs ∙ (at_socket ∙ hx),
        ap (λ (j : ℕ). lookup j ln'.conns_by_peer) kp ∙ (at_peer ∙ hy),
      )
      | inr (h0, ns, np) ↦
          let (a, b, c) = r.waiting k q h0 in
          (a, elsewhere q.socket_id ns ∙ b, elsewhere_peer k np ∙ c)
    ]

    Touches-apart :
        Registry ln reqs
        → (j k : ℕ) (q q' : ConnRequest) → lookup j reqs' ≡ some q
        → lookup k reqs' ≡ some q'
        → q.socket_id ≡ q'.socket_id
        → j ≡ k
    Touches-apart r j k q q' hj hk e = elim (t.requests j q hj) [
      | inl (jp, qs, a, b, c) ↦ elim (t.requests k q' hk) [
        | inl (kp, qs', a', b', c') ↦ jp ∙ sym kp
        | inr (h', ns, np) ↦ absurd (ns (sym e ∙ qs))
      ]
      | inr (h, ms, mp) ↦ elim (t.requests k q' hk) [
        | inl (kp, qs', a', b', c') ↦ absurd (ms (e ∙ qs'))
        | inr (h', ns, np) ↦ r.apart j k q q' h h' e
      ]
    ]

    pub Touches-Registry : Registry ln reqs → Registry ln' reqs'
    Touches-Registry r = record {
      by_peer = Touches-by_peer r;
      by_socket = Touches-by_socket r;
      waiting = Touches-waiting r;
      apart = Touches-apart r;
    }

-- ===== src/Listen/Reader.antt =====
-- listen.go: the reader, `Accept2` and `Accept`, `handleShutdown`, `markDone` and `Close`.
use gosrt.Common.{
  ℕ, ◌-◌, Bool, true, false, not, ◌&&◌, ◌||◌, Option, none, some, List, [], ◌∷◌, ◌++◌, length, ltb,
  ◌==◌, if◌then◌else◌,
}
use gosrt.Common.Int.{ℤ}
use gosrt.Common.Maps.{Map, lookup, insert, delete}
use gosrt.Circular.{Number}
use gosrt.Packet.Wire.{ok, err, panics}
use gosrt.Packet.Header.{new_packet_from_data}
use gosrt.Congestion.Float.{Float64}
use gosrt.Crypto.{Primitives}
use gosrt.Config.{same_bytes}
use gosrt.Connection.State.{Output}
use gosrt.Connection.Pop.{Conn, ◌>>=◌}
use gosrt.Connection.Close.{close}
use gosrt.Connection.Dispatch.{push}
use gosrt.Net.Ip.{Addr}
use gosrt.Listen.State.{
  Listener, Datagram, Entry, ConnRequest, ListenError, listener_closed, ctrltype_handshake,
  rej_peer,
}
use gosrt.Listen.Request.{new_conn_request}
use gosrt.Listen.Accept.{reject, accept}

abbrev pub backlog_size : ℕ
backlog_size = 128

-- ConnType
abbrev pub publish : ℕ
publish = 2

abbrev pub subscribe : ℕ
subscribe = 4

-- How a round of `Accept` or `Accept2` ends: with nothing yet, with a request or a connection, or with
-- an error.
pub data Turn {ℓ} (A : Type ℓ) : Type ℓ where
  again : Turn A
  returns : A → Turn A
  fails : Option ListenError → Turn A

module _ (fl : Float64) (pr : Primitives) (sort : List Number → List Number)
    (md5 : List ℕ → List ℕ) where
  open fl use {F}

  -- A handshake waits in the backlog, which drops what it has no room for.
  unfoldable pub to_backlog : Listener fl pr → Datagram → Listener fl pr
  to_backlog ln d =
      if d.packet.header.is_control_packet
        && (d.packet.header.control_type == ctrltype_handshake)
        && ltb (length ln.backlog) backlog_size
      then record ln { backlog = ln.backlog ++ (d ∷ []) }
      else ln

  abbrev pub from_peer : Listener fl pr → Entry fl pr → Datagram → Bool
  from_peer ln e d = ln.config.allow_peer_ip_change || same_bytes d.addr.text e.remote

  unfoldable pub to_connection : Listener fl pr → Datagram → Listener fl pr
  to_connection ln d =
      let id = d.packet.header.destination_socket_id in
      elim (lookup id ln.conns) [
        | none ↦ ln
        | some none ↦ ln
        | some (some e) ↦
            if from_peer ln e d
            then record ln {
              conns =
                  insert id (some (record e { conn = push fl pr sort e.conn d.packet })) ln.conns;
            }
            else ln
      ]

  -- One round of the reader.
  unfoldable pub reader : Listener fl pr → Datagram → Listener fl pr
  reader ln d =
      if ln.shutdown
      then ln
      else if d.packet.header.destination_socket_id == 0
      then to_backlog ln d
      else to_connection ln d

  -- The bytes of a datagram, on their way to the reader.
  unfoldable pub receive : Listener fl pr → Addr → List ℕ → Listener fl pr
  receive ln addr bytes = elim (new_packet_from_data bytes) [
    | ok p ↦ reader ln (record { packet = p; addr = addr })
    | err e ↦ ln
    | panics ↦ ln
  ]

  -- `handleShutdown` of a connection.
  unfoldable pub handle_shutdown : Listener fl pr → Conn fl pr → Listener fl pr
  handle_shutdown ln c = record ln {
    conns = delete c.socket_id ln.conns;
    conns_by_peer = delete c.peer_socket_id ln.conns_by_peer;
  }

  unfoldable pub mark_done : Listener fl pr → ListenError → Listener fl pr
  mark_done ln e = elim ln.done_err [ none ↦ record ln { done_err = some e } | some e' ↦ ln ]

  -- Every connection is closed, with the outputs under its socket id.
  unfoldable pub close_all :
      ℕ → Map (Option (Entry fl pr)) → Map (Option (Entry fl pr)) × List (ℕ × List Output)
  close_all clock [] = ([], [])
  close_all clock ((id, none) ∷ m) = let (m, os) = close_all clock m in ((id, none) ∷ m, os)
  close_all clock ((id, some e) ∷ m) =
      let (c, o) = close fl pr e.conn (clock - e.start) in
      let (m, os) = close_all clock m in ((id, some (record e { conn = c })) ∷ m, (id, o) ∷ os)

  -- `Close`, whose body runs at most once.
  unfoldable pub close_listener : Listener fl pr → ℕ → Listener fl pr × List (ℕ × List Output)
  close_listener ln clock = elim ln.shutdown [
    | true ↦ (ln, [])
    | false ↦
        let (m, os) = close_all clock ln.conns in (record ln { shutdown = true; conns = m }, os)
  ]

  abbrev turn_of : Option ConnRequest → Turn ConnRequest
  turn_of none = again
  turn_of (some req) = returns req

  -- A round of `Accept2` that takes a handshake from the backlog, or finds it empty.
  unfoldable pub accept2 :
      Listener fl pr → ℕ → ℤ → Option (Listener fl pr × List Datagram × Turn ConnRequest)
  accept2 ln clock counter = elim ln.backlog [
    | [] ↦ some (ln, [], again)
    | d ∷ ds ↦ do
      (ln, es, req) ← new_conn_request fl pr md5 (record ln { backlog = ds }) clock counter d
      some (ln, es, turn_of req)
  ]

  -- A round of `Accept2` for a listener that is done or was shut down.
  unfoldable pub accept2_done : Listener fl pr → Turn ConnRequest
  accept2_done ln =
      if ln.shutdown
      then fails (some listener_closed)
      else elim ln.done_err [ none ↦ again | some e ↦ fails (some e) ]

  abbrev reason_of : ConnRequest → ℕ
  reason_of req = if req.rejection_reason == 0 then rej_peer else req.rejection_reason

  abbrev conn_turn : ℕ → Option (Conn fl pr) → Turn (Conn fl pr × ℕ)
  conn_turn mode none = again
  conn_turn mode (some c) = returns (c, mode)

  -- What `Accept` does with a request: `accept_fn` may change it, and chooses the mode.
  unfoldable pub accept_with :
      Option (ConnRequest → ConnRequest × ℕ)
      → Listener fl pr
      → ℕ
      → ConnRequest
      → F
      → F
      → Option (Listener fl pr × List Datagram × Turn (Conn fl pr × ℕ))
  accept_with none ln clock req input_bw overhead_bw = do
    (ln, ds) ← reject fl pr md5 ln clock req rej_peer
    some (ln, ds, again)
  accept_with (some accept_fn) ln clock req input_bw overhead_bw =
      let (req, mode) = accept_fn req in
      if not (mode == publish) && not (mode == subscribe)
      then (do (ln, ds) ← reject fl pr md5 ln clock req (reason_of req); some (ln, ds, again))
      else (do
        (ln, ds, conn) ← accept fl pr md5 ln clock req input_bw overhead_bw
        some (ln, ds, conn_turn mode conn))

-- ===== src/Connection/Close.antt =====
-- connection.go: `close`, `sendShutdown`, and the keepalive.
use gosrt.Common.{ℕ, ◌+◌, true, false, Option, some, List, [], ◌∷◌, ◌++◌, u64}
use gosrt.Packet.Types.{Packet}
use gosrt.Packet.Handshake.{marshal_shutdown}
use gosrt.Congestion.Float.{Float64}
use gosrt.Congestion.Receive
use gosrt.Congestion.Send
use gosrt.Crypto.{Primitives}
use gosrt.Connection.State.{
  Output, on_send, resets_idle_timeout, stops_idle_timeout, closes_later, on_shutdown,
}
use gosrt.Connection.Pop.{Conn, address, control_packet, pop, ◌>>=◌}

abbrev pub ctrltype_shutdown : ℕ
ctrltype_shutdown = 5

module _ (fl : Float64) (pr : Primitives) where
  -- `sendShutdown`
  unfoldable pub send_shutdown : Conn fl pr → ℕ → Conn fl pr × List Output
  unfolding address
  send_shutdown c clock =
      let q = c.statistics in
      (
        record c { statistics = record q { pkt_sent_shutdown = u64 (q.pkt_sent_shutdown + 1) } },
        on_send (address fl pr c (control_packet clock ctrltype_shutdown 0 0 marshal_shutdown))
            ∷ [],
      )

  -- The body of `shutdownOnce` runs at most once.
  unfoldable pub close : Conn fl pr → ℕ → Conn fl pr × List Output
  unfolding send_shutdown
  close c clock = elim c.closed [
    | true ↦ (c, [])
    | false ↦
        let (c₁, os) = send_shutdown c clock in
        (
          record c₁ { closed = true; snd = Send.flush fl c₁.snd; recv = Receive.flush fl c₁.recv },
          stops_idle_timeout ∷ (os ++ (on_shutdown ∷ [])),
        )
  ]

  unfoldable pub handle_keep_alive : Conn fl pr → ℕ → Packet → Option (Conn fl pr × List Output)
  handle_keep_alive c clock p = do
    let q = c.statistics
    (c₁, os) ←
        pop fl pr
          (record c {
            statistics = record q {
              pkt_recv_keepalive = u64 (q.pkt_recv_keepalive + 1);
              pkt_sent_keepalive = u64 (q.pkt_sent_keepalive + 1);
            };
          })
          clock p
    some (c₁, resets_idle_timeout ∷ os)

  unfoldable pub handle_shutdown : Conn fl pr → Conn fl pr × List Output
  handle_shutdown c =
      let q = c.statistics in
      (
        record c { statistics = record q { pkt_recv_shutdown = u64 (q.pkt_recv_shutdown + 1) } },
        closes_later ∷ [],
      )

-- ===== src/Dial/Client.antt =====
-- dial.go: the reader, and the methods that pass on to the connection. The getters of a connection, and
-- the deadlines, which do nothing, are left out.
use gosrt.Common.{ℕ, Bool, not, ◌&&◌, ◌||◌, Option, none, some, List, [], ◌==◌, if◌then◌else◌}
use gosrt.Circular.{Number}
use gosrt.Packet.Types.{Packet}
use gosrt.Congestion.Float.{Float64}
use gosrt.Crypto.{Primitives}
use gosrt.Connection.State.{Output}
use gosrt.Connection.Pop.{Conn, ◌>>=◌}
use gosrt.Connection.Dispatch.{push}
use gosrt.Connection.Stream
use gosrt.Connection.Stream.{ReadResult}
use gosrt.Listen.State.{ctrltype_handshake}
use gosrt.Dial.State.{Dialer, DialError, no_connection, is_blocked, close_dialer}
use gosrt.Dial.Handshake.{handle_handshake}

abbrev pub is_handshake_packet : Packet → Bool
is_handshake_packet p = p.header.is_control_packet && (p.header.control_type == ctrltype_handshake)

-- Old peers send the conclusion to the socket id 0.
abbrev pub is_for : ℕ → Packet → Bool
is_for id p =
    (p.header.destination_socket_id == id)
    || (is_handshake_packet p && (p.header.destination_socket_id == 0))

-- How a method that passes on to the connection ends.
pub data Passed {ℓ} (A : Type ℓ) : Type ℓ where
  gives : A → Passed A
  errs : DialError → Passed A

module _ (fl : Float64) (pr : Primitives) (sort : List Number → List Number) where
  open fl use {F}

  unfoldable pub push_to_conn : Dialer fl pr → Packet → Dialer fl pr
  push_to_conn dl p = elim dl.conn [
    | none ↦ dl
    | some c ↦ record dl { conn = some (push fl pr sort c p) }
  ]

  -- One round of the reader, which does nothing more while it waits with a response. `none` is a panic.
  unfoldable pub reader : Dialer fl pr → ℕ → Packet → F → F → Option (Dialer fl pr × List Packet)
  reader dl clock p input_bw overhead_bw =
      if is_blocked fl pr dl || dl.shutdown || not (is_for dl.socket_id p)
      then some (dl, [])
      else if is_handshake_packet p
      then handle_handshake fl pr dl clock p input_bw overhead_bw
      else some (push_to_conn dl p, [])

  -- `checkConnection`: the error of the socket is handed over once, and closes the dialer.
  unfoldable pub check_connection : Dialer fl pr → ℕ → Dialer fl pr × List Output × Option DialError
  check_connection dl clock = elim dl.done [
    | none ↦ (dl, [], none)
    | some e ↦
        let (dl, os) = close_dialer fl pr (record dl { done = none }) clock in (dl, os, some e)
  ]

  -- A method of the connection, after `checkConnection`.
  unfoldable pub pass_on {ℓ} :
      {A : Type ℓ}
      → (Conn fl pr → Option (A × Conn fl pr))
      → Dialer fl pr
      → ℕ
      → Option (Dialer fl pr × List Output × Passed A)
  pass_on f dl clock =
      let (dl, os, e) = check_connection dl clock in
      elim e [
        | some e ↦ some (dl, os, errs e)
        | none ↦ elim dl.conn [
          | none ↦ some (dl, os, errs no_connection)
          | some c ↦ do (a, c) ← f c; some (record dl { conn = some c }, os, gives a)
        ]
      ]

  unfoldable pub read :
      Dialer fl pr
      → ℕ
      → Bool
      → ℕ
      → Option (Dialer fl pr × List Output × Passed (ReadResult (List ℕ)))
  read dl clock picks_done n = pass_on (λ c. some (Stream.read fl pr c picks_done n)) dl clock

  unfoldable pub read_packet :
      Dialer fl pr → ℕ → Bool → Option (Dialer fl pr × List Output × Passed (ReadResult Packet))
  read_packet dl clock picks_done =
      pass_on (λ c. some (Stream.read_packet fl pr c picks_done)) dl clock

  unfoldable pub write :
      Dialer fl pr → ℕ → List ℕ → Option (Dialer fl pr × List Output × Passed (Option ℕ))
  write dl clock b = pass_on (λ c. Stream.write fl pr c clock b) dl clock

  unfoldable pub write_packet :
      Dialer fl pr → ℕ → Packet → Option (Dialer fl pr × List Output × Passed Bool)
  write_packet dl clock p = pass_on (λ c. Stream.write_packet fl pr c clock p) dl clock

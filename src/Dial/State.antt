-- ===== src/Dial/State.antt =====
-- dial.go: the state of the dialer, how `DialWithContext` starts and ends, and what it sends of itself.
-- The socket, the resolving of the address and the context's own errors are left out. `clock` is the time
-- since `start`, in nanoseconds.
use gosrt.Common.{
  ℕ, Bool, true, false, Option, none, some, List, [], ◌∷◌, ◌++◌, length, ltb, if◌then◌else◌,
  bit_and,
}
use gosrt.Circular.{Number, new}
use gosrt.Packet.Types.{Packet, new_packet, max_sequence_number}
use gosrt.Packet.Handshake.{Handshake, marshal_shutdown}
use gosrt.Packet.HandshakeWriter.{marshal}
use gosrt.Congestion.Float.{Float64}
use gosrt.Crypto.{Primitives, Crypto, CryptoError}
use gosrt.Config.{Config, ConfigError, validate}
use gosrt.Connection.State.{Output}
use gosrt.Connection.Pop.{Conn, ◌>>=◌}
use gosrt.Connection.Close.{close, ctrltype_shutdown}
use gosrt.Net.Ip.{Addr, from_net_addr}
use gosrt.Rand.{uint32}
use gosrt.Listen.State.{
  no_handshake, handshake_packet, hstype_induction, microseconds_since, written,
}

pub data DialError : Type 0 where
  bad_config : ConfigError → DialError
  no_random unsupported_version no_crypto wrong_magic no_extension old_peer no_flags no_live_stream
        small_mss rejected unsupported_handshake timed_out cancelled client_closed no_connection :
      DialError
  crypto_error : CryptoError → DialError

-- A control packet of the dialer.
abbrev pub control : Packet
control = record new_packet { header = record (new_packet.header) { is_control_packet = true } }

module _ (fl : Float64) (pr : Primitives) where
  pub data ConnResponse : Type 0 where
    connected : Conn fl pr → ConnResponse
    failed : DialError → ConnResponse

  -- `conn_chan` holds the responses that nobody took yet: the channel has room for one, and the reader
  -- waits with the second. `done` is the error that the goroutine of the socket has to hand over.
  pub record Dialer : Type 0 where
    pub version : ℕ
    pub local_addr : Addr
    pub config : Config
    pub socket_id : ℕ
    pub initial_packet_sequence_number : Number
    pub crypto : Option Crypto
    pub conn : Option (Conn fl pr)
    pub conn_chan : List ConnResponse
    pub shutdown : Bool
    pub done : Option DialError
    pub random : pr.Random

  -- `dl.connChan <- response`
  unfoldable pub answer : Dialer → ConnResponse → Dialer
  answer dl r = record dl { conn_chan = dl.conn_chan ++ (r ∷ []) }

  unfoldable pub is_blocked : Dialer → Bool
  is_blocked dl = ltb 1 (length dl.conn_chan)

  -- The request that opens the handshake.
  unfoldable pub induction : Dialer → Handshake
  induction dl = record no_handshake {
    is_request = true;
    version = 4;
    extension_field = 2;
    initial_packet_sequence_number = new 0 max_sequence_number;
    max_transmission_unit_size = dl.config.mss;
    max_flow_window_size = dl.config.fc;
    handshake_type = hstype_induction;
    srt_socket_id = dl.socket_id;
    peer_ip = from_net_addr (some dl.local_addr);
  }

  unfoldable pub send_induction : Dialer → ℕ → Option Packet
  send_induction dl clock = do
    (c, bytes) ← written (induction dl) (marshal (induction dl))
    some (handshake_packet control (microseconds_since 0 clock) 0 bytes)

  unfoldable pub send_shutdown : Dialer → ℕ → ℕ → Packet
  send_shutdown dl clock peer = record {
    header = record (control.header) {
      control_type = ctrltype_shutdown;
      type_specific = 0;
      timestamp = microseconds_since 0 clock;
      destination_socket_id = peer;
    };
    payload = some marshal_shutdown;
  }

  -- The first part of `DialWithContext`: the dialer before the handshake.
  abbrev pub dialer_of : Config → Addr → ℕ → ℕ → pr.Random → Dialer
  dialer_of config local_addr id seq r = record {
    version = 0;
    local_addr = local_addr;
    config = config;
    socket_id = id;
    initial_packet_sequence_number = new (bit_and seq max_sequence_number) max_sequence_number;
    crypto = none;
    conn = none;
    conn_chan = [];
    shutdown = false;
    done = none;
    random = r;
  }

  unfoldable pub draw_ids : Config → Addr → pr.Random → Option Dialer
  draw_ids config local_addr r =
      let (id, r) = uint32 pr r in
      let (seq, r') = uint32 pr r in
      elim id [
        | none ↦ none
        | some id ↦ elim seq [
          | none ↦ none
          | some seq ↦ some (dialer_of config local_addr id seq r')
        ]
      ]

  pub data Dialed : Type 0 where
    dials : Dialer → Option Packet → Dialed
    refuses : DialError → Dialed

  unfoldable pub dial : Config → Addr → pr.Random → ℕ → Dialed
  dial config local_addr r clock = elim (validate config).1 [
    | some e ↦ refuses (bad_config e)
    | none ↦ elim (draw_ids (validate config).0 local_addr r) [
      | none ↦ refuses no_random
      | some dl ↦ dials dl (send_induction dl clock)
    ]
  ]

  -- `Close`, whose body runs at most once. The connection's clock is that of the dialer.
  unfoldable pub close_dialer : Dialer → ℕ → Dialer × List Output
  close_dialer dl clock = elim dl.shutdown [
    | true ↦ (dl, [])
    | false ↦ elim dl.conn [
      | none ↦ (record dl { shutdown = true; done = none }, [])
      | some c ↦
          let (c, os) = close fl pr c clock in
          (record dl { shutdown = true; conn = some c; done = none }, os)
    ]
  ]

  -- What `DialWithContext` waits for.
  pub data Event : Type 0 where
    response : Event
    context_done : Event
    timeout : Event

  -- The last part of `DialWithContext`; `cancels` is whether the context is done by then. `none` is a wait
  -- that goes on, or a dialer that was closed with its error.
  unfoldable pub finish : Dialer → ℕ → Event → Bool → Dialer × List Output × Option DialError
  finish dl clock context_done cancels =
      let (dl, os) = close_dialer dl clock in (dl, os, some cancelled)
  finish dl clock timeout cancels =
      let (dl, os) = close_dialer dl clock in
      (dl, os, some (if cancels then cancelled else timed_out))
  finish dl clock response cancels = elim dl.conn_chan [
    | [] ↦ (dl, [], none)
    | r ∷ rs ↦
        let dl : Dialer = record dl { conn_chan = rs } in
        if cancels
        then (let (dl, os) = close_dialer dl clock in (dl, os, some cancelled))
        else elim r [
          | failed e ↦ let (dl, os) = close_dialer dl clock in (dl, os, some e)
          | connected c ↦ (record dl { conn = some c }, [], none)
        ]
  ]

-- ===== src/Listen/State.antt =====
-- listen.go and conn_request.go: the state of the listener, and a connection request. `clock` is the time
-- since the start of the listener, in nanoseconds; `LocalAddr` of a packet is left out.
use gosrt.Common.{ℕ, ◌-◌, ◌/◌, Bool, false, Option, none, some, List, [], u32}
use gosrt.Common.Maps.{Map}
use gosrt.Packet.Types.{Packet}
use gosrt.Packet.Wire.{Result, ok, err, panics}
use gosrt.Packet.Handshake.{Handshake}
use gosrt.Congestion.Float.{Float64}
use gosrt.Crypto.{Primitives, Crypto}
use gosrt.Config.{Config}
use gosrt.Connection.Pop.{Conn}
use gosrt.Net.Ip.{Addr}
use gosrt.Net.Cookie.{SynCookie}

abbrev pub ctrltype_handshake : ℕ
ctrltype_handshake = 0

abbrev pub hstype_induction : ℕ
hstype_induction = 1

abbrev pub magic : ℕ
magic = 0x4a17

-- RejectionReason
abbrev pub rej_peer : ℕ
rej_peer = 1002

abbrev pub rej_rogue : ℕ
rej_rogue = 1004

abbrev pub rej_version : ℕ
rej_version = 1008

abbrev pub rej_badsecret : ℕ
rej_badsecret = 1010

abbrev pub rej_messageapi : ℕ
rej_messageapi = 1012

abbrev pub rej_congestion : ℕ
rej_congestion = 1013

-- A packet, and the address that it comes from or goes to.
pub record Datagram : Type 0 where
  pub packet : Packet
  pub addr : Addr

-- The zero value of a handshake.
abbrev pub no_handshake : Handshake
no_handshake = record {
  is_request = false;
  version = 0;
  encryption_field = 0;
  extension_field = 0;
  initial_packet_sequence_number = record { max = 0; threshold = 0; value = 0 };
  max_transmission_unit_size = 0;
  max_flow_window_size = 0;
  handshake_type = 0;
  srt_socket_id = 0;
  syn_cookie = 0;
  peer_ip = [];
  has_hs = false;
  has_km = false;
  has_sid = false;
  has_congestion_ctl = false;
  srt_hs = none;
  srt_km = none;
  stream_id = [];
  congestion_ctl = [];
}

abbrev pub microseconds_since : ℕ → ℕ → ℕ
microseconds_since start clock = u32 ((clock - start) / 1000)

-- What `MarshalCIF` leaves in a control packet: errors are ignored. `none` is a panic.
abbrev pub written : Handshake → Result (Handshake × List ℕ) → Option (Handshake × List ℕ)
written h (ok p) = some p
written h (err e) = some (h, [])
written h panics = none

-- `p` as a handshake packet with the control information `bytes`.
abbrev pub handshake_packet : Packet → ℕ → ℕ → List ℕ → Packet
handshake_packet p timestamp destination bytes = record p {
  header = record (p.header) {
    control_type = ctrltype_handshake;
    sub_type = 0;
    type_specific = 0;
    timestamp = timestamp;
    destination_socket_id = destination;
  };
  payload = some bytes;
}

pub data ListenError : Type 0 where
  listener_closed no_encryption bad_passphrase passphrase_missing already_accepted : ListenError

module _ (fl : Float64) (pr : Primitives) where
  -- A connection of the listener, its start, and the text of `RemoteAddr`.
  pub record Entry : Type 0 where
    pub conn : Conn fl pr
    pub start : ℕ
    pub remote : List ℕ

  -- `conns` owns the connections; `conns_by_peer` refers to one by its socket id. A key without a
  -- connection is reserved for a request.
  pub record Listener : Type 0 where
    pub addr : Addr
    pub config : Config
    pub backlog : List Datagram
    pub conns : Map (Option Entry)
    pub conns_by_peer : Map (Option ℕ)
    pub syncookie : SynCookie
    pub shutdown : Bool
    pub done_err : Option ListenError
    -- The state of crypto/rand.
    pub random : pr.Random

pub record ConnRequest : Type 0 where
  pub addr : Addr
  pub start : ℕ
  pub socket_id : ℕ
  pub peer_socket_id : ℕ
  pub timestamp : ℕ
  pub config : Config
  pub handshake : Handshake
  pub crypto : Option Crypto
  pub passphrase : List ℕ
  pub rejection_reason : ℕ

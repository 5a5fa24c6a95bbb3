-- ===== src/Listen/Accept.antt =====
-- conn_request.go: `SetPassphrase`, `Accept` and `Reject`; listen.go: `handleShutdown`, `Accept2` and
-- `Accept`.
use gosrt.Common.{
  ℕ, ◌*◌, Bool, true, false, not, ◌&&◌, Option, none, some, List, [], ◌∷◌, length, ltb, ◌==◌,
  if◌then◌else◌,
}
use gosrt.Common.Maps.{lookup, insert, delete}
use gosrt.Packet.Types.{new_packet, even_key_encrypted}
use gosrt.Packet.HandshakeExtension.{HandshakeExtension}
use gosrt.Packet.Handshake.{Handshake}
use gosrt.Packet.HandshakeWriter.{marshal}
use gosrt.Congestion.Float.{Float64}
use gosrt.Crypto.{Primitives, unmarshal_km}
use gosrt.Config.{Config, srt_version}
use gosrt.Connection.State.{new_srt_conn}
use gosrt.Connection.Pop.{Conn, ◌>>=◌}
use gosrt.Connection.Hsv4.{milliseconds}
use gosrt.Net.Ip.{colons}
use gosrt.Listen.State.{
  Listener, Datagram, ConnRequest, ListenError, no_encryption, bad_passphrase, handshake_packet,
  microseconds_since, written, rej_badsecret,
}

-- A new control packet with the handshake, to the peer of the request.
abbrev pub reply_packet : ConnRequest → ℕ → List ℕ → Datagram
reply_packet req timestamp bytes = record {
  packet =
      handshake_packet
        (record new_packet { header = record (new_packet.header) { is_control_packet = true } })
        timestamp req.peer_socket_id bytes;
  addr = req.addr;
}

-- The two delays, in milliseconds: the larger of the own and the peer's, crosswise.
abbrev pub agreed_delay : ℕ → ℕ → ℕ
agreed_delay own peer = if ltb own peer then peer else own

-- The receive and the send delay that `Accept` settles on. `none` is a panic.
unfoldable pub delays : ConnRequest → Option (ℕ × ℕ)
delays req =
    let recv = milliseconds req.config.receiver_latency in
    let send = milliseconds req.config.peer_latency in
    if req.handshake.version == 5
    then elim req.handshake.srt_hs [
      | none ↦ none
      | some x ↦ some (agreed_delay recv x.send_tsbpd_delay, agreed_delay send x.recv_tsbpd_delay)
    ]
    else some (recv, send)

abbrev pub accepted_config : ConnRequest → Config
accepted_config req = record (req.config) {
  stream_id = if req.handshake.version == 5 then req.handshake.stream_id else req.config.stream_id;
  passphrase = req.passphrase;
}

-- The extension of the answer.
unfoldable pub answer_extension : ℕ → ℕ → HandshakeExtension
answer_extension recv send = record {
  srt_version = srt_version;
  srt_flags = record {
    tsbpd_snd = true;
    tsbpd_rcv = true;
    crypt = true;
    tlpktdrop = true;
    periodic_nak = true;
    rexmit_flg = true;
    stream = false;
    packet_filter = false;
  };
  recv_tsbpd_delay = recv;
  send_tsbpd_delay = send;
}

unfoldable pub accepted_handshake : ConnRequest → ℕ → ℕ → Handshake
accepted_handshake req recv send =
    let c : Handshake = record (req.handshake) { srt_socket_id = req.socket_id; syn_cookie = 0 } in
    if req.handshake.version == 5
    then record c { srt_hs = some (answer_extension recv send) }
    else c

module _ (fl : Float64) (pr : Primitives) (md5 : List ℕ → List ℕ) where
  open fl use {F}

  -- `SetPassphrase`. `none` is a panic: key material of nil.
  unfoldable pub set_passphrase : ConnRequest → List ℕ → Option (ConnRequest × Option ListenError)
  set_passphrase req passphrase =
      if req.handshake.version == 5
      then elim req.crypto [
        | none ↦ some (req, some no_encryption)
        | some cr ↦ elim req.handshake.srt_km [
          | none ↦ none
          | some km ↦
              let (cr, e) = unmarshal_km pr cr km passphrase in
              elim e [
                | some e ↦ some (record req { crypto = some cr }, some bad_passphrase)
                | none ↦ some (record req { crypto = some cr; passphrase = passphrase }, none)
              ]
        ]
      ]
      else some (record req { passphrase = passphrase }, none)

  -- Whether the request still waits.
  abbrev pub is_reserved : Option (Option ℕ) → Bool
  is_reserved none = false
  is_reserved (some none) = true
  is_reserved (some (some id)) = false

  unfoldable pub waits : Listener fl pr → ConnRequest → Bool
  waits ln req = is_reserved (lookup req.peer_socket_id ln.conns_by_peer)

  -- `Reject`
  unfoldable pub reject :
      Listener fl pr → ℕ → ConnRequest → ℕ → Option (Listener fl pr × List Datagram)
  reject ln clock req reason = elim (waits ln req) [
    | false ↦ some (ln, [])
    | true ↦ do
      let c = record (req.handshake) { handshake_type = reason }
      (c, bytes) ← written c (marshal c)
      some (
        record ln {
          conns = delete req.socket_id ln.conns;
          conns_by_peer = delete req.peer_socket_id ln.conns_by_peer;
        },
        reply_packet req (microseconds_since 0 clock) bytes ∷ [],
      )
  ]

  -- The connection of a request, for the two delays. `localAddr` is that of the listener.
  unfoldable pub accepted_conn : Listener fl pr → ConnRequest → ℕ → ℕ → F → F → Conn fl pr
  accepted_conn ln req recv send input_bw overhead_bw =
      new_srt_conn fl pr
        (record {
          version = req.handshake.version;
          is_caller = false;
          config = accepted_config req;
          socket_id = req.socket_id;
          peer_socket_id = req.peer_socket_id;
          tsbpd_time_base = req.timestamp;
          tsbpd_delay = recv * 1000;
          peer_tsbpd_delay = send * 1000;
          initial_packet_sequence_number = req.handshake.initial_packet_sequence_number;
          crypto = req.crypto;
          key_base_encryption = even_key_encrypted;
          local_ipv6 = not (ltb (colons ln.addr.text) 2);
        })
        input_bw overhead_bw ln.random

  -- The second half of `Accept`: the connection takes the place that was reserved for it.
  unfoldable pub establish :
      Listener fl pr
      → ℕ
      → ConnRequest
      → F
      → F
      → Option (Listener fl pr × List Datagram × Option (Conn fl pr))
  establish ln clock req input_bw overhead_bw = do
    (recv, send) ← delays req
    let conn = accepted_conn ln req recv send input_bw overhead_bw
    (c, bytes) ←
        written (accepted_handshake req recv send) (marshal (accepted_handshake req recv send))
    some (
      record ln {
        conns =
            insert req.socket_id
              (some (record { conn = conn; start = req.start; remote = req.addr.text })) ln.conns;
        conns_by_peer = insert req.peer_socket_id (some req.socket_id) ln.conns_by_peer;
      },
      reply_packet req (microseconds_since req.start clock) bytes ∷ [],
      some conn,
    )

  abbrev pub has_crypto : ConnRequest → Bool
  has_crypto req = elim req.crypto [ none ↦ false | some cr ↦ true ]

  -- `Accept`. Without a connection it returned an error.
  unfoldable pub accept :
      Listener fl pr
      → ℕ
      → ConnRequest
      → F
      → F
      → Option (Listener fl pr × List Datagram × Option (Conn fl pr))
  accept ln clock req input_bw overhead_bw =
      if has_crypto req && (length req.passphrase == 0)
      then (do (ln, ds) ← reject ln clock req rej_badsecret; some (ln, ds, none))
      else if not (waits ln req)
      then some (ln, [], none)
      else establish ln clock req input_bw overhead_bw

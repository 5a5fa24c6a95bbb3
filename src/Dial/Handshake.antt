-- ===== src/Dial/Handshake.antt =====
-- dial.go: `handleHandshake`.
use gosrt.Common.{
  ℕ, ◌*◌, Bool, true, false, not, ◌||◌, Option, none, some, List, [], ◌∷◌, length, ltb, ◌==◌,
  if◌then◌else◌,
}
use gosrt.Common.Int.{pos, negsuc}
use gosrt.Packet.Types.{Packet, even_key_encrypted}
use gosrt.Packet.Wire.{Result, ok, err, panics}
use gosrt.Packet.HandshakeExtension.{HandshakeExtension}
use gosrt.Packet.Handshake.{Handshake, hstype_conclusion, empty_key_material}
use gosrt.Packet.HandshakeWriter.{marshal}
use gosrt.Congestion.Float.{Float64}
use gosrt.Crypto.{Primitives, Crypto, CryptoError, new, marshal_km}
use gosrt.Packet.KeyMaterial.{KeyMaterial}
use gosrt.Config.{Config}
use gosrt.Connection.State.{new_srt_conn}
use gosrt.Connection.Pop.{Conn, get_timestamp, ◌>>=◌}
use gosrt.Connection.Hsv4.{milliseconds}
use gosrt.Net.Ip.{from_net_addr, colons}
use gosrt.Listen.State.{handshake_packet, hstype_induction, magic, microseconds_since, written}
use gosrt.Listen.Request.{read_handshake, adjust_mss, too_small, has_flags}
use gosrt.Listen.Accept.{agreed_delay, answer_extension}
use gosrt.Dial.State.{
  Dialer, connected, failed, DialError, unsupported_version, no_crypto, wrong_magic, no_extension,
  old_peer, no_flags, no_live_stream, small_mss, rejected, unsupported_handshake, crypto_error,
  answer, send_shutdown,
}

-- HSTYPE_DONE, HSTYPE_AGREEMENT, HSTYPE_WAVEHAND
abbrev is_handshake : ℕ → Bool
is_handshake t =
    (t == 0xffff_fffd)
    || (t == 0xffff_fffe)
    || (t == hstype_conclusion)
    || (t == 0)
    || (t == hstype_induction)

-- `IsRejection`
abbrev pub is_rejection : ℕ → Bool
is_rejection t = not (is_handshake t)

-- The key length that the listener advertises, or the configured one. `crypto.New` refuses 0 and a
-- negative length alike.
abbrev pub key_length : Config → ℕ → ℕ
key_length config field =
    if field == 2
    then 16
    else if field == 3
    then 24
    else if field == 4
    then 32
    else elim config.pb_keylen [ pos n ↦ n | negsuc n ↦ 0 ]

abbrev pub known_version : ℕ → Bool
known_version v = (v == 4) || (v == 5)

module _ (fl : Float64) (pr : Primitives) where
  open fl use {F}

  -- The answer to the induction, without its extensions.
  unfoldable pub conclusion : Dialer fl pr → Handshake → Handshake
  conclusion dl c = record c {
    is_request = true;
    handshake_type = hstype_conclusion;
    initial_packet_sequence_number = dl.initial_packet_sequence_number;
    max_transmission_unit_size = dl.config.mss;
    max_flow_window_size = dl.config.fc;
    srt_socket_id = dl.socket_id;
    peer_ip = from_net_addr (some dl.local_addr);
  }

  -- The keys of the connection. Where they cannot be made the error is reported, and the handshake goes
  -- on without them.
  unfoldable pub set_up_crypto : Dialer fl pr → ℕ → Dialer fl pr
  set_up_crypto dl field =
      if length dl.config.passphrase == 0
      then dl
      else let (cr, r) = new pr (key_length dl.config field) dl.random in
        let dl : Dialer fl pr = record dl { crypto = cr; random = r } in
        elim cr [ none ↦ answer fl pr dl (failed no_crypto) | some cr ↦ dl ]

  -- The extensions of version 5, but for the key material.
  unfoldable pub with_extension : Dialer fl pr → Handshake → Handshake
  with_extension dl c = record c {
    has_hs = true;
    srt_hs = some (
        answer_extension (milliseconds dl.config.receiver_latency)
          (milliseconds dl.config.peer_latency));
    has_sid = true;
    stream_id = dl.config.stream_id;
  }

  -- Sends the handshake, in the packet that came in.
  unfoldable pub send_handshake :
      Dialer fl pr → ℕ → Packet → Handshake → Option (Dialer fl pr × List Packet)
  send_handshake dl clock p c = do
    (c, bytes) ← written c (marshal c)
    some (dl, handshake_packet p (microseconds_since 0 clock) 0 bytes ∷ [])

  -- The key material, once it is wrapped.
  abbrev with_km :
      Dialer fl pr
      → ℕ
      → Packet
      → Handshake
      → KeyMaterial × Option CryptoError
      → Option (Dialer fl pr × List Packet)
  with_km dl clock p c (km, some e) = some (answer fl pr dl (failed (crypto_error e)), [])
  with_km dl clock p c (km, none) =
      send_handshake dl clock p (record c { has_km = true; srt_km = some km })

  abbrev pub add_km :
      Dialer fl pr → ℕ → Packet → Handshake → Option Crypto → Option (Dialer fl pr × List Packet)
  add_km dl clock p c none = send_handshake dl clock p c
  add_km dl clock p c (some cr) =
      with_km dl clock p c
        (marshal_km pr cr empty_key_material dl.config.passphrase even_key_encrypted)

  unfoldable pub conclude_5 :
      Dialer fl pr → ℕ → Packet → Handshake → Option (Dialer fl pr × List Packet)
  conclude_5 dl clock p c =
      let dl : Dialer fl pr = record dl { version = 5 } in
      if not (c.extension_field == magic)
      then some (answer fl pr dl (failed wrong_magic), [])
      else add_km dl clock p (with_extension dl c) dl.crypto

  unfoldable pub conclude_4 :
      Dialer fl pr → ℕ → Packet → Handshake → Option (Dialer fl pr × List Packet)
  conclude_4 dl clock p c =
      send_handshake (record dl { version = 4 }) clock p
        (record c {
          encryption_field = 0;
          extension_field = 2;
          has_hs = false;
          has_km = false;
          has_sid = false;
        })

  -- The reaction to the induction response.
  unfoldable pub handle_induction :
      Dialer fl pr → ℕ → Packet → Handshake → Option (Dialer fl pr × List Packet)
  handle_induction dl clock p c =
      if not (known_version c.version)
      then some (answer fl pr dl (failed unsupported_version), [])
      else let dl = set_up_crypto dl c.encryption_field in
        let c = conclusion dl c in
        if c.version == 5 then conclude_5 dl clock p c else conclude_4 dl clock p c

  -- The tests of the extension; all but the first send a shutdown.
  unfoldable pub refuse : Config → HandshakeExtension → Option DialError
  refuse config x =
      if ltb x.srt_version config.min_version
      then some old_peer
      else if not (has_flags x)
      then some no_flags
      else if x.srt_flags.stream
      then some no_live_stream
      else none

  unfoldable pub shut_down_with :
      Dialer fl pr → ℕ → Handshake → DialError → Option (Dialer fl pr × List Packet)
  shut_down_with dl clock c e =
      some (answer fl pr dl (failed e), send_shutdown fl pr dl clock c.srt_socket_id ∷ [])

  -- The new connection, for its two delays.
  unfoldable pub dialed_conn : Dialer fl pr → ℕ → Handshake → ℕ → ℕ → F → F → Conn fl pr
  dialed_conn dl clock c recv send input_bw overhead_bw =
      new_srt_conn fl pr
        (record {
          version = c.version;
          is_caller = true;
          config = dl.config;
          socket_id = dl.socket_id;
          peer_socket_id = c.srt_socket_id;
          tsbpd_time_base = get_timestamp clock;
          tsbpd_delay = recv * 1000;
          peer_tsbpd_delay = send * 1000;
          initial_packet_sequence_number = c.initial_packet_sequence_number;
          crypto = dl.crypto;
          key_base_encryption = even_key_encrypted;
          local_ipv6 = not (ltb (colons dl.local_addr.text) 2);
        })
        input_bw overhead_bw dl.random

  -- The connection, once its delays are settled.
  unfoldable pub connect :
      Dialer fl pr → ℕ → Handshake → ℕ → ℕ → F → F → Option (Dialer fl pr × List Packet)
  connect dl clock c recv send input_bw overhead_bw =
      let small = too_small dl.config c.max_transmission_unit_size in
      let dl : Dialer fl pr = record dl {
        config = adjust_mss dl.config c.max_transmission_unit_size;
      } in
      if small
      then shut_down_with dl clock c small_mss
      else some
          (answer fl pr dl (connected (dialed_conn dl clock c recv send input_bw overhead_bw)), [])

  -- The extension of the conclusion, and what is wrong with it.
  abbrev pub judged :
      Dialer fl pr
      → ℕ
      → Handshake
      → HandshakeExtension
      → F
      → F
      → Option DialError
      → Option (Dialer fl pr × List Packet)
  judged dl clock c x input_bw overhead_bw (some e) = shut_down_with dl clock c e
  judged dl clock c x input_bw overhead_bw none =
      connect dl clock c (agreed_delay (milliseconds dl.config.receiver_latency) x.send_tsbpd_delay)
        (agreed_delay (milliseconds dl.config.peer_latency) x.recv_tsbpd_delay) input_bw overhead_bw

  abbrev pub with_answer :
      Dialer fl pr
      → ℕ
      → Handshake
      → F
      → F
      → Option HandshakeExtension
      → Option (Dialer fl pr × List Packet)
  with_answer dl clock c input_bw overhead_bw none =
      some (answer fl pr dl (failed no_extension), [])
  with_answer dl clock c input_bw overhead_bw (some x) =
      judged dl clock c x input_bw overhead_bw (refuse dl.config x)

  unfoldable pub handle_conclusion :
      Dialer fl pr → ℕ → Handshake → F → F → Option (Dialer fl pr × List Packet)
  handle_conclusion dl clock c input_bw overhead_bw =
      if not (known_version c.version)
      then some (answer fl pr dl (failed unsupported_version), [])
      else if not (c.version == 5)
      then connect dl clock c (milliseconds dl.config.receiver_latency)
          (milliseconds dl.config.peer_latency) input_bw overhead_bw
      else with_answer dl clock c input_bw overhead_bw c.srt_hs

  abbrev react : Dialer fl pr → ℕ → Packet → Handshake → F → F → Option (Dialer fl pr × List Packet)
  react dl clock p c input_bw overhead_bw =
      if c.handshake_type == hstype_induction
      then handle_induction dl clock p c
      else if c.handshake_type == hstype_conclusion
      then handle_conclusion dl clock c input_bw overhead_bw
      else some (
        answer fl pr dl
            (failed (if is_rejection c.handshake_type then rejected else unsupported_handshake)),
        [],
      )

  abbrev react_read :
      Dialer fl pr
      → ℕ
      → Packet
      → Option (Result Handshake)
      → F
      → F
      → Option (Dialer fl pr × List Packet)
  react_read dl clock p (some (ok c)) input_bw overhead_bw = react dl clock p c input_bw overhead_bw
  react_read dl clock p (some (err e)) input_bw overhead_bw = some (dl, [])
  react_read dl clock p (some panics) input_bw overhead_bw = none
  react_read dl clock p none input_bw overhead_bw = none

  -- `handleHandshake`. `none` is a panic.
  unfoldable pub handle_handshake :
      Dialer fl pr → ℕ → Packet → F → F → Option (Dialer fl pr × List Packet)
  handle_handshake dl clock p input_bw overhead_bw =
      react_read dl clock p (read_handshake p) input_bw overhead_bw

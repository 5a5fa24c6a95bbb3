-- ===== src/Listen/Request.antt =====
-- conn_request.go: `newConnRequest`, which answers the induction and checks the conclusion.
use gosrt.Common.{
  ℕ, zero, suc, Bool, not, ◌&&◌, ◌||◌, Option, none, some, List, [], ◌∷◌, ◌++◌, ltb, ◌==◌,
  if◌then◌else◌, sub32,
}
use gosrt.Common.Int.{ℤ}
use gosrt.Common.Maps.{Map, lookup, insert}
use gosrt.Packet.Types.{Packet, payload_data}
use gosrt.Packet.Wire.{Result, ok, err, panics}
use gosrt.Packet.HandshakeExtension.{HandshakeExtension}
use gosrt.Packet.KeyMaterial.{KeyMaterial}
use gosrt.Packet.Handshake.{Handshake, hstype_conclusion, unmarshal}
use gosrt.Packet.HandshakeWriter.{marshal, is_live}
use gosrt.Congestion.Float.{Float64}
use gosrt.Crypto.{Primitives, Crypto, new}
use gosrt.Config.{Config, max_mss_size, min_payload_size, srt_header_size, udp_header_size}
use gosrt.Connection.Pop.{◌>>=◌}
use gosrt.Net.Ip.{from_net_addr}
use gosrt.Net.Cookie.{get, verify}
use gosrt.Rand.{uint32}
use gosrt.Listen.State.{
  Listener, Datagram, Entry, ConnRequest, no_handshake, handshake_packet, microseconds_since,
  written, magic, hstype_induction, rej_rogue, rej_version, rej_messageapi, rej_congestion,
}

-- `UnmarshalCIF` of a handshake. `none` is a panic.
unfoldable pub read_handshake : Packet → Option (Result Handshake)
read_handshake p =
    if p.header.is_control_packet
    then unmarshal no_handshake (payload_data p)
    else some (ok no_handshake)

-- The configuration of the connection, where the peer has a smaller MTU.
unfoldable pub adjust_mss : Config → ℕ → Config
adjust_mss c mtu =
    if ltb mtu c.mss
    then record c { mss = mtu; payload_size = sub32 (sub32 mtu srt_header_size) udp_header_size }
    else c

unfoldable pub too_small : Config → ℕ → Bool
too_small c mtu = ltb mtu c.mss && ltb (adjust_mss c mtu).payload_size min_payload_size

-- Whether all flags are set that a live stream needs.
unfoldable pub has_flags : HandshakeExtension → Bool
has_flags x =
    let f = x.srt_flags in
    f.tsbpd_snd && f.tsbpd_rcv && f.tlpktdrop && f.periodic_nak && f.rexmit_flg

unfoldable pub refuse_extension : Config → Handshake → HandshakeExtension → Option ℕ
refuse_extension config c x =
    if ltb x.srt_version config.min_version
    then some rej_version
    else if not (has_flags x)
    then some rej_rogue
    else if x.srt_flags.stream
    then some rej_messageapi
    else if c.has_congestion_ctl && not (is_live c.congestion_ctl)
    then some rej_congestion
    else none

abbrev pub require_extension : Config → Handshake → Option HandshakeExtension → Option ℕ
require_extension config c none = some rej_rogue
require_extension config c (some x) = refuse_extension config c x

-- The tests of the version and of the extension, and the reason of a refusal.
unfoldable pub refuse : Config → Handshake → Option ℕ
refuse config c =
    if c.version == 4
    then (if not (c.encryption_field == 0) || not (c.extension_field == 2)
        then some rej_rogue
        else none)
    else if c.version == 5
    then require_extension config c c.srt_hs
    else some rej_rogue

module _ (fl : Float64) (pr : Primitives) (md5 : List ℕ → List ℕ) where
  -- Sends `c` back to where the packet came from.
  unfoldable pub respond :
      Listener fl pr → ℕ → Datagram → ℕ → Handshake → Option (Handshake × Datagram)
  respond ln clock d peer c = do
    (c, bytes) ← written c (marshal c)
    some (
      c,
      record d { packet = handshake_packet (d.packet) (microseconds_since 0 clock) peer bytes },
    )

  unfoldable pub reject_with :
      Listener fl pr
      → ℕ
      → Datagram
      → Handshake
      → ℕ
      → Option (Listener fl pr × List Datagram × Option ConnRequest)
  reject_with ln clock d c reason = do
    (c, reply) ← respond ln clock d c.srt_socket_id (record c { handshake_type = reason })
    some (ln, reply ∷ [], none)

  -- A socket id in use is passed over for the `rest` of the tries.
  abbrev pub unless_used :
      Option ℕ × pr.Random → ℕ → pr.Random → Option (Option (Entry fl pr)) → Option ℕ × pr.Random
  unless_used rest id r none = (some id, r)
  unless_used rest id r (some e) = rest

  abbrev pub try_id :
      Map (Option (Entry fl pr))
      → Option ℕ × pr.Random
      → Option ℕ × pr.Random
      → Option ℕ × pr.Random
  try_id conns rest (none, r) = (none, r)
  try_id conns rest (some id, r) = unless_used rest id r (lookup id conns)

  -- `generateSocketId` with `tries` tries left.
  unfoldable pub generate_socket_id :
      ℕ → Map (Option (Entry fl pr)) → pr.Random → Option ℕ × pr.Random
  generate_socket_id zero conns r = (none, r)
  generate_socket_id (suc tries) conns r =
      try_id conns (generate_socket_id tries conns (uint32 pr r).1) (uint32 pr r)

  -- The peer is known from now on, and the socket id is taken if there is one.
  abbrev pub reserved :
      Listener fl pr
      → ConnRequest
      → Option ℕ × pr.Random
      → Listener fl pr × List Datagram × Option ConnRequest
  reserved ln req (none, r) = (
    record ln { conns_by_peer = insert req.peer_socket_id none ln.conns_by_peer; random = r },
    [],
    none,
  )
  reserved ln req (some id, r) = (
    record ln {
      conns_by_peer = insert req.peer_socket_id none ln.conns_by_peer;
      conns = insert id none ln.conns;
      random = r;
    },
    [],
    some (record req { socket_id = id }),
  )

  -- A second request of a peer and a failed choice of a socket id are refused without a reply.
  abbrev pub unless_known :
      Listener fl pr
      → ConnRequest
      → Option (Option ℕ)
      → Listener fl pr × List Datagram × Option ConnRequest
  unless_known ln req (some e) = (ln, [], none)
  unless_known ln req none = reserved ln req (generate_socket_id 10 ln.conns ln.random)

  unfoldable pub reserve :
      Listener fl pr → ConnRequest → Listener fl pr × List Datagram × Option ConnRequest
  reserve ln req = unless_known ln req (lookup req.peer_socket_id ln.conns_by_peer)

  abbrev pub request_of : ℕ → Datagram → Config → Handshake → Option Crypto → ConnRequest
  request_of clock d config c cr = record {
    addr = d.addr;
    start = clock;
    socket_id = 0;
    peer_socket_id = c.srt_socket_id;
    timestamp = microseconds_since 0 clock;
    config = config;
    handshake = c;
    crypto = cr;
    passphrase = [];
    rejection_reason = 0;
  }

  -- The request, once its keys are made.
  abbrev pub with_keys :
      Listener fl pr
      → ℕ
      → Datagram
      → Config
      → Handshake
      → Option Crypto × pr.Random
      → Option (Listener fl pr × List Datagram × Option ConnRequest)
  with_keys ln clock d config c (none, r) =
      reject_with (record ln { random = r }) clock d c rej_rogue
  with_keys ln clock d config c (some cr, r) =
      some (reserve (record ln { random = r }) (request_of clock d config c (some cr)))

  -- The keys that the request announces.
  abbrev pub make_keys :
      Listener fl pr
      → ℕ
      → Datagram
      → Config
      → Handshake
      → Option KeyMaterial
      → Option (Listener fl pr × List Datagram × Option ConnRequest)
  make_keys ln clock d config c none = some (reserve ln (request_of clock d config c none))
  make_keys ln clock d config c (some km) = with_keys ln clock d config c (new pr km.klen ln.random)

  unfoldable pub with_crypto :
      Listener fl pr
      → ℕ
      → Datagram
      → Config
      → Handshake
      → Option (Listener fl pr × List Datagram × Option ConnRequest)
  with_crypto ln clock d config c = make_keys ln clock d config c c.srt_km

  abbrev pub after :
      List Datagram
      → Option (Listener fl pr × List Datagram × Option ConnRequest)
      → Option (Listener fl pr × List Datagram × Option ConnRequest)
  after ds none = none
  after ds (some (ln, es, req)) = some (ln, ds ++ es, req)

  -- The request, once its tests are made.
  abbrev pub decided :
      Listener fl pr
      → ℕ
      → Datagram
      → Config
      → Handshake
      → Option ℕ
      → Option (Listener fl pr × List Datagram × Option ConnRequest)
  decided ln clock d config c (some reason) = reject_with ln clock d c reason
  decided ln clock d config c none = with_crypto ln clock d config c

  unfoldable pub check_conclusion :
      Listener fl pr
      → ℕ
      → Datagram
      → Config
      → Handshake
      → Option (Listener fl pr × List Datagram × Option ConnRequest)
  check_conclusion ln clock d config c = decided ln clock d config c (refuse config c)

  -- A payload size that is too small is answered with a rejection, and then the request goes on, with
  -- the type of the rejection in the handshake.
  unfoldable pub conclude :
      Listener fl pr
      → ℕ
      → ℤ
      → Datagram
      → Handshake
      → Option (Listener fl pr × List Datagram × Option ConnRequest)
  conclude ln clock counter d c =
      let config = adjust_mss ln.config c.max_transmission_unit_size in
      if not (verify md5 ln.syncookie counter c.syn_cookie d.addr.text)
      then reject_with ln clock d c rej_rogue
      else if ltb max_mss_size c.max_transmission_unit_size
      then reject_with ln clock d c rej_rogue
      else if too_small ln.config c.max_transmission_unit_size
      then (do
        (c, reply) ← respond ln clock d c.srt_socket_id (record c { handshake_type = rej_rogue })
        after (reply ∷ []) (check_conclusion ln clock d config c))
      else check_conclusion ln clock d config c

  unfoldable pub induce :
      Listener fl pr
      → ℕ
      → ℤ
      → Datagram
      → Handshake
      → Option (Listener fl pr × List Datagram × Option ConnRequest)
  induce ln clock counter d c = do
    (c, reply) ← respond ln clock d c.srt_socket_id (record c {
      version = 5;
      encryption_field = 0;
      extension_field = magic;
      syn_cookie = get md5 ln.syncookie counter d.addr.text;
    })
    some (ln, reply ∷ [], none)

  abbrev pub answer :
      Listener fl pr
      → ℕ
      → ℤ
      → Datagram
      → Handshake
      → Option (Listener fl pr × List Datagram × Option ConnRequest)
  answer ln clock counter d c =
      let c : Handshake = record c { peer_ip = from_net_addr (some ln.addr) } in
      if c.handshake_type == hstype_induction
      then induce ln clock counter d c
      else if c.handshake_type == hstype_conclusion
      then conclude ln clock counter d c
      else some (ln, [], none)

  abbrev pub answer_read :
      Listener fl pr
      → ℕ
      → ℤ
      → Datagram
      → Option (Result Handshake)
      → Option (Listener fl pr × List Datagram × Option ConnRequest)
  answer_read ln clock counter d (some (ok c)) = answer ln clock counter d c
  answer_read ln clock counter d (some (err e)) = some (ln, [], none)
  answer_read ln clock counter d (some panics) = none
  answer_read ln clock counter d none = none

  -- `newConnRequest`, with the counter of the cookie at that time.
  unfoldable pub new_conn_request :
      Listener fl pr
      → ℕ
      → ℤ
      → Datagram
      → Option (Listener fl pr × List Datagram × Option ConnRequest)
  new_conn_request ln clock counter d = answer_read ln clock counter d (read_handshake d.packet)

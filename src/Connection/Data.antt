-- ===== src/Connection/Data.antt =====
-- connection.go: data packets from the network, with the time of their delivery, and decryption.
use gosrt.Common.{
  ℕ, ◌+◌, ◌*◌, ◌-◌, Bool, true, false, not, ◌&&◌, Option, none, some, List, [], ◌∷◌, ◌++◌, length,
  ltb, leb, ◌==◌, if◌then◌else◌, u64,
}
use gosrt.Circular.{inc}
use gosrt.Packet.Types.{Packet, payload_data, len, max_timestamp}
use gosrt.Congestion.Float.{Float64}
use gosrt.Congestion.Receive
use gosrt.Congestion.Receive.{Event}
use gosrt.Crypto.{Primitives, encrypt_or_decrypt_payload}
use gosrt.Connection.State.{Output}
use gosrt.Connection.Pop.{Conn, ◌>>=◌}
use gosrt.Connection.Acks.{send_ack, send_nak}

-- 30 seconds, in microseconds.
abbrev pub half_minute : ℕ
half_minute = 30 * 1_000_000

abbrev pub queue_size : ℕ
queue_size = 1024

-- The wrap period and the offset of the time base, for a timestamp: the period begins within 30 seconds
-- before the timestamp wraps, and ends once a timestamp is from 30 to 60 seconds after.
unfoldable pub wrap_step : Bool → ℕ → ℕ → Bool × ℕ
wrap_step wraps offset timestamp =
    if not wraps
    then if ltb (max_timestamp - half_minute) timestamp then (true, offset) else (false, offset)
    else if leb half_minute timestamp && leb timestamp (60 * 1_000_000)
    then (false, u64 (offset + (max_timestamp + 1)))
    else (true, offset)

unfoldable pub packet_offset : Bool → ℕ → ℕ → ℕ
packet_offset wraps offset timestamp =
    if wraps
    then if ltb timestamp half_minute then u64 (offset + (max_timestamp + 1)) else offset
    else offset

module _ (fl : Float64) (pr : Primitives) where
  unfoldable pub tsbpd_wrap : Conn fl pr → ℕ → Conn fl pr
  tsbpd_wrap c timestamp =
      let s = wrap_step c.tsbpd_wrap_period c.tsbpd_time_base_offset timestamp in
      record c { tsbpd_wrap_period = s.0; tsbpd_time_base_offset = s.1 }

  unfoldable pub tsbpd_time : Conn fl pr → ℕ → ℕ
  tsbpd_time c timestamp = u64 (
      c.tsbpd_time_base
      + packet_offset c.tsbpd_wrap_period c.tsbpd_time_base_offset timestamp
      + timestamp
      + c.tsbpd_delay
      + c.tsbpd_drift)

  abbrev pub count_undecrypt : Conn fl pr → Packet → Conn fl pr
  count_undecrypt c p =
      let q = c.statistics in
      record c {
        statistics = record q {
          pkt_recv_undecrypt = u64 (q.pkt_recv_undecrypt + 1);
          byte_recv_undecrypt = u64 (q.byte_recv_undecrypt + len p);
        };
      }

  -- A packet that cannot be decrypted is counted, and goes on as it is.
  unfoldable pub decrypt : Conn fl pr → Packet → Conn fl pr × Packet
  decrypt c p = elim c.crypto [
    | none ↦ (c, p)
    | some cr ↦
        let h = p.header in
        if h.key_base_encryption_flag == 0
        then (count_undecrypt c p, p)
        else let (b, e) =
            encrypt_or_decrypt_payload pr cr (payload_data p) h.key_base_encryption_flag
              h.packet_sequence_number.value in
          elim e [ none ↦ (c, record p { payload = some b }) | some e ↦ (count_undecrypt c p, p) ]
  ]

  -- `deliver`: a full queue drops the packet, and a closed connection, whose reads end.
  unfoldable pub deliver : Conn fl pr → Packet → Conn fl pr
  deliver c p =
      if not c.closed && ltb (length c.read_queue) queue_size
      then record c { read_queue = c.read_queue ++ (p ∷ []) }
      else c

  -- The callbacks that the receiver made, in their order; `r` is the receiver before the call.
  unfoldable pub handle_events :
      Conn fl pr → Receive.Receiver fl → ℕ → List Event → Option (Conn fl pr × List Output)
  unfolding deliver
  handle_events c r clock [] = some (c, [])
  handle_events c r clock (Receive.send_ack n lite ∷ es) = do
    (c₁, os) ← send_ack fl pr c r clock n lite
    (c₂, qs) ← handle_events c₁ r clock es
    some (c₂, os ++ qs)
  handle_events c r clock (Receive.send_nak ns ∷ es) = do
    (c₁, os) ← send_nak fl pr c clock ns
    (c₂, qs) ← handle_events c₁ r clock es
    some (c₂, os ++ qs)
  handle_events c r clock (Receive.deliver p ∷ es) = handle_events (deliver c p) r clock es

  -- The branch of `handlePacket` for data packets. Message number 0 marks a packet of the FEC filter.
  unfoldable pub handle_data : Conn fl pr → ℕ → Packet → Option (Conn fl pr × List Output)
  unfolding tsbpd_wrap tsbpd_time decrypt handle_events
  handle_data c clock p =
      let h = p.header in
      let c₀ = record c { expected_rcv_packet_sequence_number = inc h.packet_sequence_number } in
      if h.message_number == 0
      then some (c₀, [])
      else (let c₁ = tsbpd_wrap c₀ h.timestamp in
          let p₁ = record p { header = record h { pkt_tsbpd_time = tsbpd_time c₁ h.timestamp } } in
          let (c₂, p₂) = decrypt c₁ p₁ in
          let (r, es) = Receive.push fl c₂.recv clock (some p₂) in
          handle_events (record c₂ { recv = r }) c₂.recv clock es)

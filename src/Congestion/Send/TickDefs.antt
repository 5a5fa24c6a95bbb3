-- ===== src/Congestion/Send/TickDefs.antt =====
-- congestion/live/send.go: `Tick` and `ACK`.
use gosrt.Common.{
  ℕ, ◌+◌, Bool, List, [], ◌∷◌, ◌++◌, length, drop, ltb, leb, ◌==◌, if◌then◌else◌, u64, sub64,
}
use gosrt.Circular.{Number, lt}
use gosrt.Packet.Types.{Packet, len}
use gosrt.Congestion.Float.{Float64}
use gosrt.Congestion.Send.Defs.{Sender, send_period}

abbrev pub seq : Packet → Number
seq p = p.header.packet_sequence_number

-- PktTsbpdTime + dropThreshold <= now
abbrev pub too_old : ℕ → ℕ → Packet → Bool
too_old threshold now p = leb (u64 (p.header.pkt_tsbpd_time + threshold)) now

-- The packets of the loss list that go onto removeList, and those that stay when they are removed.
unfoldable pub expired : ℕ → ℕ → List Packet → List Packet
expired threshold now [] = []
expired threshold now (p ∷ ps) =
    let rest = expired threshold now ps in if too_old threshold now p then p ∷ rest else rest

unfoldable pub recent : ℕ → ℕ → List Packet → List Packet
recent threshold now [] = []
recent threshold now (p ∷ ps) =
    let rest = recent threshold now ps in if too_old threshold now p then rest else p ∷ rest

-- The front of the loss list that an ACK removes.
unfoldable pub acknowledged : Number → List Packet → List Packet
acknowledged n [] = []
acknowledged n (p ∷ ps) = let rest = acknowledged n ps in if lt (seq p) n then p ∷ rest else []

module _ (fl : Float64) where
  open fl use {F, lit, add_f, mul_f, div_f, of_u64, to_u64}

  abbrev pub average : F → ℕ → F
  average avg n = add_f (mul_f (lit 875 1000) avg) (mul_f (lit 125 1000) (of_u64 n))

  abbrev pub send_one : Sender fl → Packet → Sender fl
  send_one s p =
      let q = s.statistics in
      record s {
        avg_payload_size = average s.avg_payload_size (len p);
        rate = record (s.rate) { bytes_sent = u64 (s.rate.bytes_sent + len p) };
        statistics = record q {
          pkt = u64 (q.pkt + 1);
          pkt_unique = u64 (q.pkt_unique + 1);
          byte = u64 (q.byte + len p);
          byte_unique = u64 (q.byte_unique + len p);
          us_snd_duration = u64 (q.us_snd_duration + to_u64 s.pkt_snd_period);
        };
      }

  -- The loop over the front of the packet list, with the packets that it hands over; the second
  -- list is what the loop has not reached.
  unfoldable pub send_ripe : ℕ → Sender fl → List Packet → Sender fl × List Packet
  send_ripe now s [] = (s, [])
  send_ripe now s (p ∷ ps) =
      let rest = send_ripe now (send_one s p) ps in
      if leb p.header.pkt_tsbpd_time now then (rest.0, p ∷ rest.1) else (s, [])

  -- The loop over removeList, whose elements are the first of the packet list, in order.
  unfoldable pub move_sent : Sender fl → List Packet → Sender fl
  move_sent s [] = s
  move_sent s (p ∷ ps) =
      move_sent
        (record s { loss_list = s.loss_list ++ (p ∷ []); packet_list = drop 1 s.packet_list }) ps

  -- The block of `Tick` under its first lock.
  unfoldable pub send_all : Sender fl → ℕ → Sender fl × List Packet
  unfolding send_ripe move_sent
  send_all s now = let (s', ds) = send_ripe now s s.packet_list in (move_sent s' ds, ds)

  abbrev pub count_drop : Sender fl → Packet → Sender fl
  count_drop s p =
      let q = s.statistics in
      record s {
        statistics = record q {
          pkt_drop = u64 (q.pkt_drop + 1);
          pkt_loss = u64 (q.pkt_loss + 1);
          byte_drop = u64 (q.byte_drop + len p);
          byte_loss = u64 (q.byte_loss + len p);
        };
      }

  unfoldable pub count_drops : Sender fl → List Packet → Sender fl
  count_drops s [] = s
  count_drops s (p ∷ ps) = count_drops (count_drop s p) ps

  -- The counters of the buffer, for the packets that leave the loss list.
  unfoldable pub release : Sender fl → List Packet → Sender fl
  release s [] = s
  release s (p ∷ ps) =
      let q = s.statistics in
      release
        (record s {
          statistics = record q {
            pkt_buf = sub64 q.pkt_buf 1;
            byte_buf = sub64 q.byte_buf (len p);
          };
        })
        ps

  -- The block of `Tick` under its second lock.
  unfoldable pub drop_old : Sender fl → ℕ → Sender fl
  unfolding count_drops release
  drop_old s now =
      let old = expired s.drop_threshold now s.loss_list in
      let kept = recent s.drop_threshold now s.loss_list in
      record (release (count_drops s old) old) { loss_list = kept }

  abbrev pub per_second : ℕ → ℕ → F
  per_second n t = div_f (of_u64 n) (div_f (div_f (of_u64 t) (lit 1000 1)) (lit 1000 1))

  -- The block of `Tick` under its third lock.
  unfoldable pub update_rate : Sender fl → ℕ → Sender fl
  update_rate s now =
      let t = sub64 now s.rate.last in
      let q = s.rate in
      if ltb q.period t
      then record s {
        rate = record q {
          estimated_input_bw = per_second q.bytes t;
          estimated_sent_bw = per_second q.bytes_sent t;
          pkt_loss_rate =
              if q.bytes_sent == 0
              then lit 0 1
              else mul_f (div_f (of_u64 q.bytes_retrans) (of_u64 q.bytes_sent)) (lit 100 1);
          bytes = 0;
          bytes_sent = 0;
          bytes_retrans = 0;
          last = now;
        };
      }
      else s

  unfoldable pub tick : Sender fl → ℕ → Sender fl × List Packet
  unfolding send_all drop_old update_rate
  tick s now = let (s', ds) = send_all s now in (update_rate (drop_old s' now) now, ds)

  unfoldable pub ack : Sender fl → Number → Sender fl
  unfolding release
  ack s n =
      let done = acknowledged n s.loss_list in
      let s' = release s done in
      record s' {
        loss_list = drop (length done) s.loss_list;
        pkt_snd_period = send_period fl s'.avg_payload_size s'.max_bw;
      }

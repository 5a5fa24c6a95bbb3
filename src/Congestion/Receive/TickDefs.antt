-- ===== src/Congestion/Receive/TickDefs.antt =====
-- congestion/live/receive.go: `Tick`.
use gosrt.Common.{
  ℕ, ◌+◌, Bool, ◌&&◌, Option, none, some, List, [], ◌∷◌, ◌++◌, map, drop, ltb, leb, ◌==◌,
  if◌then◌else◌, u64, sub64,
}
use gosrt.Circular.{Number, lte, distance}
use gosrt.Packet.Types.{Packet, len}
use gosrt.Congestion.Float.{Float64}
use gosrt.Congestion.Receive.Defs.{Receiver, Event, send_ack, send_nak, deliver, seq}
use gosrt.Congestion.Receive.PeriodicDefs.{periodic_ack, periodic_nak}

module _ (fl : Float64) where
  open fl use {lit, mul_f, div_f, of_u64}

  abbrev pub deliver_one : Receiver fl → Packet → Receiver fl
  deliver_one r p =
      let s = r.statistics in
      record r {
        last_delivered_sequence_number = seq p;
        statistics = record s { pkt_buf = sub64 s.pkt_buf 1; byte_buf = sub64 s.byte_buf (len p) };
      }

  -- The loop over the front of the packet list, with the packets that it hands over. The second
  -- list is the part of the packet list that the loop has not reached.
  unfoldable pub deliver_ripe : ℕ → Receiver fl → List Packet → Receiver fl × List Packet
  deliver_ripe now r [] = (r, [])
  deliver_ripe now r (p ∷ ps) =
      let rest = deliver_ripe now (deliver_one r p) ps in
      if lte (seq p) r.last_ack_sequence_number && leb p.header.pkt_tsbpd_time now
      then (rest.0, p ∷ rest.1)
      else (r, [])

  abbrev pub count_lost : Receiver fl → ℕ → Receiver fl
  count_lost r d =
      let s = r.statistics in
      if ltb 1 d
      then record r { statistics = record s { pkt_lost = u64 (s.pkt_lost + sub64 d 1) } }
      else r

  -- The loop over removeList, whose elements are the first of the packet list, in order. It also
  -- returns the local lastDeliveredSequenceNumber.
  unfoldable pub remove_delivered : Receiver fl → Number → List Packet → Receiver fl × Number
  remove_delivered r last [] = (r, last)
  remove_delivered r last (p ∷ ps) =
      let counted = count_lost r (distance last (seq p)) in
      remove_delivered (record counted { packet_list = drop 1 counted.packet_list }) (seq p) ps

  abbrev pub finish_delivery : Receiver fl → Number → List Packet → Receiver fl
  finish_delivery r last [] = r
  finish_delivery r last (p ∷ ps) =
      let (r', last') = remove_delivered r last (p ∷ ps) in
      count_lost r' (distance last' r'.last_delivered_sequence_number)

  -- The block of `Tick` under its first lock: delivery.
  unfoldable pub deliver_all : Receiver fl → ℕ → Receiver fl × List Packet
  unfolding deliver_ripe remove_delivered
  deliver_all r now =
      let (r', ds) = deliver_ripe now r r.packet_list in
      (finish_delivery r' r.last_delivered_sequence_number ds, ds)

  abbrev pub per_second : ℕ → ℕ → fl.F
  per_second n t = div_f (of_u64 n) (div_f (div_f (of_u64 t) (lit 1000 1)) (lit 1000 1))

  -- The block of `Tick` under its second lock: the rates of the last period.
  unfoldable pub update_rate : Receiver fl → ℕ → Receiver fl
  update_rate r now =
      let t = sub64 now r.rate.last in
      let q = r.rate in
      if ltb q.period t
      then record r {
        rate = record q {
          packets_per_second = per_second q.packets t;
          bytes_per_second = per_second q.bytes t;
          pkt_loss_rate =
              if q.bytes == 0
              then q.pkt_loss_rate
              else mul_f (div_f (of_u64 q.bytes_retrans) (of_u64 q.bytes)) (lit 100 1);
          packets = 0;
          bytes = 0;
          bytes_retrans = 0;
          last = now;
        };
      }
      else r

  abbrev pub ack_events : Option (Number × Bool) → List Event
  ack_events none = []
  ack_events (some (n, lite)) = send_ack n lite ∷ []

  abbrev pub nak_events : List Number → List Event
  nak_events [] = []
  nak_events (n ∷ ns) = send_nak (n ∷ ns) ∷ []

  unfoldable pub tick : Receiver fl → ℕ → Receiver fl × List Event
  unfolding periodic_ack periodic_nak deliver_all update_rate
  tick r now =
      let (r₁, ack) = periodic_ack fl r now in
      let (r₂, ranges) = periodic_nak fl r₁ now in
      let (r₃, ds) = deliver_all r₂ now in
      (update_rate r₃ now, ack_events ack ++ (nak_events ranges ++ map deliver ds))

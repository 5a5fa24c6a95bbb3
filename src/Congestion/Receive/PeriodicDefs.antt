-- ===== src/Congestion/Receive/PeriodicDefs.antt =====
-- congestion/live/receive.go: `periodicACK` and `periodicNAK`.
use gosrt.Common.{
  ℕ, ◌/◌, Bool, true, false, not, ◌&&◌, Option, none, some, List, [], ◌∷◌, ◌++◌, ltb, leb,
  if◌then◌else◌, sub64,
}
use gosrt.Circular.{Number, equals, lte, inc, dec}
use gosrt.Packet.Types.{Packet}
use gosrt.Congestion.Float.{Float64}
use gosrt.Congestion.Receive.Defs.{Receiver, seq}

-- The variables of the loop of `periodicACK`: ackSequenceNumber and statistics.MsBuf.
pub record AckScan : Type 0 where
  pub ack : Number
  pub ms_buf : ℕ

-- One packet of the loop: `none` is `break`. `first` is minPktTsbpdTime.
unfoldable pub ack_step : ℕ → ℕ → AckScan → Packet → Option AckScan
ack_step now first s p =
    if lte (seq p) s.ack
    then some s
    else if leb p.header.pkt_tsbpd_time now
    then some (record s { ack = seq p })
    else if equals (seq p) (inc s.ack)
    then some (record s { ack = seq p; ms_buf = sub64 p.header.pkt_tsbpd_time first / 1000 })
    else none

unfoldable pub ack_scan : ℕ → ℕ → AckScan → List Packet → AckScan
ack_scan now first s [] = s
ack_scan now first s (p ∷ ps) = elim (ack_step now first s p) [
  | none ↦ s
  | some t ↦ ack_scan now first t ps
]

abbrev pub first_time : List Packet → ℕ
first_time [] = 0
first_time (p ∷ ps) = p.header.pkt_tsbpd_time

-- The gap in front of a packet that does not follow `ack`.
abbrev pub gap_before : Number → Packet → List Number
gap_before ack p = if equals (seq p) (inc ack) then [] else (inc ack ∷ dec (seq p) ∷ [])

-- The loop of `periodicNAK`.
unfoldable pub nak_scan : Number → List Packet → List Number
nak_scan ack [] = []
nak_scan ack (p ∷ ps) = elim (lte (seq p) ack) [
  | true ↦ nak_scan ack ps
  | false ↦ gap_before ack p ++ nak_scan (seq p) ps
]

module _ (fl : Float64) where
  -- The receiver after an ACK of everything up to the scan's sequence number.
  abbrev pub acknowledge : Receiver fl → ℕ → AckScan → Receiver fl
  acknowledge r now s = record r {
    last_ack_sequence_number = s.ack;
    last_periodic_ack = now;
    n_packets = 0;
    statistics = record (r.statistics) { ms_buf = s.ms_buf };
  }

  -- With the sequence number and the `lite` flag, if an ACK is due.
  unfoldable pub periodic_ack : Receiver fl → ℕ → Receiver fl × Option (Number × Bool)
  unfolding ack_scan ack_step
  periodic_ack r now =
      let early = ltb (sub64 now r.last_periodic_ack) r.periodic_ack_interval in
      if early && not (leb 64 r.n_packets)
      then (r, none)
      else (let start : AckScan = record {
        ack = r.last_ack_sequence_number;
        ms_buf = r.statistics.ms_buf;
      } in
          let s = ack_scan now (first_time r.packet_list) start r.packet_list in
          (acknowledge r now s, some (inc s.ack, early)))

  unfoldable pub periodic_nak : Receiver fl → ℕ → Receiver fl × List Number
  unfolding nak_scan
  periodic_nak r now =
      if ltb (sub64 now r.last_periodic_nak) r.periodic_nak_interval
      then (r, [])
      else (record r { last_periodic_nak = now }, nak_scan r.last_ack_sequence_number r.packet_list)

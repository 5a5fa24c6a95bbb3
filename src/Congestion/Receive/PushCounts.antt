-- ===== src/Congestion/Receive/PushCounts.antt =====
-- The counters after `Push`, and `Push` as a whole.
use gosrt.Common.{ℕ, ◌+◌, ◌≡◌, arith, some, [], ◌∷◌, length, length-append, u64}
use gosrt.Circular.Offset.{IsSeq}
use gosrt.Packet.Types.{Packet}
use gosrt.Congestion.Float.{Float64}
use gosrt.Congestion.Receive.Defs.{Receiver, Placement, duplicate, fills, nowhere, seq, place}
use gosrt.Congestion.Receive.PushDefs.{
  insert_gap, count_loss, accept, count_packet, probe_step, push, push_back,
}
use gosrt.Congestion.Receive.Window.{Placed}
use gosrt.Congestion.Receive.PushInvariant.{
  IsWindow, IsCounted, InReach, kept-IsWindow, accept_cases, accept-IsWindow,
}

module _ {fl : Float64} where
  -- One packet has been counted as received that is neither buffered nor dropped yet.
  record IsOwing (r : Receiver fl) : Type 0 where
    one_more : r.statistics.pkt ≡ u64 (r.statistics.pkt_unique + r.statistics.pkt_drop + 1)
    in_buffer : r.statistics.pkt_buf ≡ u64 (length r.packet_list)

  push_back-IsCounted :
      (r : Receiver fl) (pkt : Packet) → IsOwing r → IsCounted (push_back fl r pkt)
  push_back-IsCounted r pkt c = omega (arith, length-append r.packet_list (pkt ∷ []))

  insert_gap-IsCounted :
      (r : Receiver fl) (pkt : Packet) (q : Placement)
      → IsWindow r
      → IsOwing r
      → Placed r.last_delivered_sequence_number 0 r.packet_list q
      → IsCounted (insert_gap fl r pkt q)
  unfolding insert_gap
  insert_gap-IsCounted r pkt duplicate w c h = omega arith
  insert_gap-IsCounted r pkt (fills ps) w c h = omega arith
  insert_gap-IsCounted r pkt nowhere w c h = absurd h

  accept-IsCounted :
      (r : Receiver fl) (pkt : Packet)
      → IsWindow r
      → IsOwing r
      → IsSeq (seq pkt)
      → InReach r pkt
      → IsCounted (accept fl r pkt).0
  unfolding count_loss
  accept-IsCounted r pkt w c v reach =
      accept_cases IsCounted r pkt w v reach (omega arith) (omega arith)
        (λ h k. (push_back-IsCounted _ pkt (omega arith), push_back-IsCounted _ pkt (omega arith)))
        (insert_gap-IsCounted r pkt (place pkt r.packet_list) w c)

  -- The probe pair and the counters touch no sequence number and no packet.
  record IsSame (r s : Receiver fl) : Type 0 where
    delivered : s.last_delivered_sequence_number ≡ r.last_delivered_sequence_number
    acked : s.last_ack_sequence_number ≡ r.last_ack_sequence_number
    seen : s.max_seen_sequence_number ≡ r.max_seen_sequence_number
    listed : s.packet_list ≡ r.packet_list
    counted : s.statistics ≡ r.statistics

  probe_step-IsSame :
      (r : Receiver fl) (clock : ℕ) (pkt : Packet) → IsSame r (probe_step fl r clock pkt)
  unfolding probe_step
  probe_step-IsSame r clock pkt = ground arith

  prepared : Receiver fl → ℕ → Packet → Receiver fl
  prepared r clock pkt = count_packet fl (probe_step fl r clock pkt) pkt

  prepared_lem :
      (r : Receiver fl) (clock : ℕ) (pkt : Packet)
      → IsWindow r
      → IsCounted r
      → IsWindow (prepared r clock pkt)
        × IsOwing (prepared r clock pkt)
        × ((prepared r clock pkt).last_delivered_sequence_number ≡ r.last_delivered_sequence_number)
  unfolding prepared count_packet
  prepared_lem r clock pkt w c =
      let e = probe_step-IsSame r clock pkt in
      (kept-IsWindow r _ w e.delivered e.acked e.seen e.listed, ground arith, e.delivered)

  -- `Push` of a packet in reach keeps the receive window, and counts the packet as buffered or
  -- dropped.
  pub push_keeps :
      (r : Receiver fl) (clock : ℕ) (pkt : Packet)
      → IsWindow r
      → IsCounted r
      → IsSeq (seq pkt)
      → InReach r pkt
      → IsWindow (push fl r clock (some pkt)).0 × IsCounted (push fl r clock (some pkt)).0
  unfolding push prepared
  push_keeps r clock pkt w c v reach =
      let (w', c', e) = prepared_lem r clock pkt w c in
      let reach' : InReach (prepared r clock pkt) pkt = rw e reach in
      (
        accept-IsWindow (prepared r clock pkt) pkt w' v reach',
        accept-IsCounted (prepared r clock pkt) pkt w' c' v reach',
      )

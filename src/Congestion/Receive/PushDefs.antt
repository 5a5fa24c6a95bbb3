-- ===== src/Congestion/Receive/PushDefs.antt =====
-- congestion/live/receive.go: `Push`.
use gosrt.Common.{
  ℕ, ◌+◌, ◌-◌, ◌*◌, not, ◌&&◌, Option, none, some, List, [], ◌∷◌, ◌++◌, ◌==◌, if◌then◌else◌, u64,
  sub64, bit_and,
}
use gosrt.Circular.{equals, lt, lte, inc, dec, distance}
use gosrt.Packet.Types.{Packet, len, max_payload_size}
use gosrt.Congestion.Float.{Float64}
use gosrt.Congestion.Receive.Defs.{
  Event, send_nak, seq, Placement, duplicate, fills, nowhere, place, Receiver, send_nak, duplicate,
  fills, nowhere,
}

module _ (fl : Float64) where
  open fl use {F, lit, add_f, mul_f, div_f, of_u64, to_u64, is_zero}

  -- The link capacity from the time since the first packet of a probe pair.
  unfoldable pub measure : Receiver fl → ℕ → Packet → ℕ → Receiver fl
  measure r clock pkt t =
      let diff = mul_f (of_u64 (clock - t)) (div_f (lit max_payload_size 1) (of_u64 (len pkt))) in
      if is_zero diff then r else record r {
        avg_link_capacity =
            add_f (mul_f (lit 875 1000) r.avg_link_capacity) (div_f (lit 125000 1) diff);
      }

  unfoldable pub probe_pair : Receiver fl → ℕ → Packet → Option ℕ → Receiver fl
  unfolding measure
  probe_pair r clock pkt none = record r { probe_time = none }
  probe_pair r clock pkt (some t) =
      if not (len pkt == 0) then measure r clock pkt t else record r { probe_time = none }

  -- The part of `Push` on the probe pairs. `clock` is the wall clock in microseconds.
  unfoldable pub probe_step : Receiver fl → ℕ → Packet → Receiver fl
  unfolding probe_pair
  probe_step r clock pkt =
      let probe = bit_and (seq pkt).value 0xf in
      if pkt.header.retransmitted_packet_flag
      then record r { probe_time = none }
      else if probe == 0
      then record r { probe_time = some clock; probe_next_seq = inc (seq pkt) }
      else if probe == 1 && equals (seq pkt) r.probe_next_seq
      then probe_pair r clock pkt r.probe_time
      else record r { probe_time = none }

  abbrev pub average : F → ℕ → F
  average avg n = add_f (mul_f (lit 875 1000) avg) (mul_f (lit 125 1000) (of_u64 n))

  -- The counters that every packet moves.
  unfoldable pub count_packet : Receiver fl → Packet → Receiver fl
  count_packet r pkt =
      let s = r.statistics in
      let again = pkt.header.retransmitted_packet_flag in
      record r {
        n_packets = u64 (r.n_packets + 1);
        rate = record (r.rate) {
          packets = u64 (r.rate.packets + 1);
          bytes = u64 (r.rate.bytes + len pkt);
          bytes_retrans =
              if again then u64 (r.rate.bytes_retrans + len pkt) else r.rate.bytes_retrans;
        };
        statistics = record s {
          pkt = u64 (s.pkt + 1);
          byte = u64 (s.byte + len pkt);
          pkt_retrans = if again then u64 (s.pkt_retrans + 1) else s.pkt_retrans;
          byte_retrans = if again then u64 (s.byte_retrans + len pkt) else s.byte_retrans;
        };
        avg_payload_size = average r.avg_payload_size (len pkt);
      }

  abbrev pub drop_packet : Receiver fl → Packet → Receiver fl
  drop_packet r pkt =
      let s = r.statistics in
      record r {
        statistics = record s {
          pkt_drop = u64 (s.pkt_drop + 1);
          byte_drop = u64 (s.byte_drop + len pkt);
        };
      }

  abbrev pub belated : Receiver fl → Packet → Receiver fl
  belated r pkt =
      let s = r.statistics in
      record r {
        statistics = record s {
          pkt_belated = u64 (s.pkt_belated + 1);
          byte_belated = u64 (s.byte_belated + len pkt);
        };
      }

  abbrev pub buffered : Receiver fl → Packet → List Packet → Receiver fl
  buffered r pkt ps =
      let s = r.statistics in
      record r {
        packet_list = ps;
        statistics = record s {
          pkt_buf = u64 (s.pkt_buf + 1);
          pkt_unique = u64 (s.pkt_unique + 1);
          byte_buf = u64 (s.byte_buf + len pkt);
          byte_unique = u64 (s.byte_unique + len pkt);
        };
      }

  abbrev pub late : Receiver fl → Packet → Receiver fl
  late r pkt =
      let s = r.statistics in
      record r {
        statistics = record s {
          pkt_late = u64 (s.pkt_late + 1);
          byte_late = u64 (s.byte_late + len pkt);
        };
      }

  abbrev pub push_back : Receiver fl → Packet → Receiver fl
  push_back r pkt = buffered r pkt (r.packet_list ++ (pkt ∷ []))

  -- A packet out of order, at most as new as the newest seen.
  unfoldable pub insert_gap : Receiver fl → Packet → Placement → Receiver fl
  insert_gap r pkt duplicate = drop_packet r pkt
  insert_gap r pkt (fills ps) = buffered (late r pkt) pkt ps
  insert_gap r pkt nowhere = r

  -- A packet too far ahead: the packets between are counted as lost.
  unfoldable pub count_loss : Receiver fl → Packet → Receiver fl
  count_loss r pkt =
      let s = r.statistics in
      let n = sub64 (distance (seq pkt) r.max_seen_sequence_number) 1 in
      record r {
        max_seen_sequence_number = seq pkt;
        statistics = record s {
          pkt_loss = u64 (s.pkt_loss + n);
          byte_loss = u64 (s.byte_loss + n * to_u64 r.avg_payload_size);
        };
      }

  -- The part of `Push` that finds the packet's place.
  unfoldable pub accept : Receiver fl → Packet → Receiver fl × List Event
  unfolding insert_gap count_loss
  accept r pkt =
      if lte (seq pkt) r.last_delivered_sequence_number
      then (drop_packet (belated r pkt) pkt, [])
      else if lt (seq pkt) r.last_ack_sequence_number
      then (drop_packet r pkt, [])
      else if equals (seq pkt) (inc r.max_seen_sequence_number)
      then (push_back (record r { max_seen_sequence_number = seq pkt }) pkt, [])
      else if lte (seq pkt) r.max_seen_sequence_number
      then (insert_gap r pkt (place pkt r.packet_list), [])
      else (
        push_back (count_loss r pkt) pkt,
        send_nak (inc r.max_seen_sequence_number ∷ dec (seq pkt) ∷ []) ∷ [],
      )

  unfoldable pub push : Receiver fl → ℕ → Option Packet → Receiver fl × List Event
  unfolding probe_step count_packet accept
  push r clock none = (r, [])
  push r clock (some pkt) = accept (count_packet (probe_step r clock pkt) pkt) pkt

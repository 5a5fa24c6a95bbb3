-- ===== src/Congestion/Receive/PushInvariant.antt =====
-- `Push` keeps the packet list sorted inside the receive window and accounts for every packet.
use gosrt.Common.{
  ◌+◌, ◌-◌, ◌^◌, ◌≤◌, ◌<◌, ◌≡◌, ◌⊎◌, inl, inr, refl, arith, true, false, length, ltb, leb, ◌==◌,
  Bool-cases, u64, ◌∙◌,
}
use gosrt.Circular.{equals, lt, lte, inc}
use gosrt.Circular.Offset.{
  offset, IsSeq, equals-offset, lte-offset, lt-offset, inc-offset, inc-IsSeq,
}
use gosrt.Packet.Types.{Packet}
use gosrt.Congestion.Float.{Float64}
use gosrt.Congestion.Receive.Defs.{Receiver, Placement, duplicate, fills, nowhere, seq, place}
use gosrt.Congestion.Receive.PushDefs.{
  insert_gap, count_loss, accept, push_back, drop_packet, belated,
}
use gosrt.Congestion.Receive.Window.{Ascending, top, Ascending-append, Placed, place-Placed}

module _ {fl : Float64} where
  -- Relative to the last delivered packet: the last acknowledged one is at most as far ahead as the
  -- newest, which lies in the window; the list rises, and ends in the newest packet seen.
  pub record IsWindow (r : Receiver fl) : Type 0 where
    pub delivered_seq : IsSeq r.last_delivered_sequence_number
    pub ack_seq : IsSeq r.last_ack_sequence_number
    pub seen_seq : IsSeq r.max_seen_sequence_number
    pub ack_le :
        offset r.last_delivered_sequence_number r.last_ack_sequence_number
        ≤ offset r.last_delivered_sequence_number r.max_seen_sequence_number
    pub seen_lt : offset r.last_delivered_sequence_number r.max_seen_sequence_number < 2 ^ 30 - 1
    pub rising : Ascending r.last_delivered_sequence_number 0 r.packet_list
    pub newest :
        top r.last_delivered_sequence_number 0 r.packet_list
        ≡ offset r.last_delivered_sequence_number r.max_seen_sequence_number

  -- Every packet received was buffered once or dropped; the buffer counter is the length of the list.
  pub record IsCounted (r : Receiver fl) : Type 0 where
    pub received : r.statistics.pkt ≡ u64 (r.statistics.pkt_unique + r.statistics.pkt_drop)
    pub buffered : r.statistics.pkt_buf ≡ u64 (length r.packet_list)

  -- A packet that the receiver can place: less than half a circle ahead of the last delivered one,
  -- or behind it.
  abbrev pub InReach : Receiver fl → Packet → Type 0
  InReach r pkt =
      (offset r.last_delivered_sequence_number (seq pkt) < 2 ^ 30 - 1)
      ⊎ (lte (seq pkt) r.last_delivered_sequence_number ≡ true)

  -- The tests of `accept`, read as offsets.
  record Tests (r : Receiver fl) (pkt : Packet) : Type 0 where
    is_old :
        lte (seq pkt) r.last_delivered_sequence_number
        ≡ leb (offset r.last_delivered_sequence_number (seq pkt)) 0
    is_acked :
        lt (seq pkt) r.last_ack_sequence_number
        ≡ ltb
            (offset r.last_delivered_sequence_number (seq pkt))
            (offset r.last_delivered_sequence_number r.last_ack_sequence_number)
    is_next : equals (seq pkt) (inc r.max_seen_sequence_number) ≡ (
        offset r.last_delivered_sequence_number (seq pkt)
        == offset r.last_delivered_sequence_number r.max_seen_sequence_number + 1)
    is_gap :
        lte (seq pkt) r.max_seen_sequence_number
        ≡ leb
            (offset r.last_delivered_sequence_number (seq pkt))
            (offset r.last_delivered_sequence_number r.max_seen_sequence_number)

  tests_lem :
      (r : Receiver fl) (pkt : Packet)
      → IsWindow r
      → IsSeq (seq pkt)
      → offset r.last_delivered_sequence_number (seq pkt) < 2 ^ 30 - 1
      → Tests r pkt
  tests_lem r pkt w v h =
      let base = r.last_delivered_sequence_number in
      let seen = r.max_seen_sequence_number in
      record {
        is_old = ground (arith, lte-offset base (seq pkt) base);
        is_acked =
            lt-offset base (seq pkt) r.last_ack_sequence_number w.delivered_seq v w.ack_seq h
              (omega arith);
        is_next =
            ground (
              arith,
              equals-offset base (seq pkt) (inc seen),
              inc-IsSeq seen,
              inc-offset base seen,
            );
        is_gap = lte-offset base (seq pkt) seen w.delivered_seq v w.seen_seq h w.seen_lt;
      }

  -- A receiver with the same list and sequence numbers.
  pub kept-IsWindow :
      (r s : Receiver fl)
      → IsWindow r
      → s.last_delivered_sequence_number ≡ r.last_delivered_sequence_number
      → s.last_ack_sequence_number ≡ r.last_ack_sequence_number
      → s.max_seen_sequence_number ≡ r.max_seen_sequence_number
      → s.packet_list ≡ r.packet_list
      → IsWindow s
  kept-IsWindow r s w a b c d = record {
    delivered_seq = rw a w.delivered_seq;
    ack_seq = rw b w.ack_seq;
    seen_seq = rw c w.seen_seq;
    ack_le = rw (a, b, c) w.ack_le;
    seen_lt = rw (a, c) w.seen_lt;
    rising = rw (a, d) w.rising;
    newest = rw (a, c, d) w.newest;
  }

  -- The newest packet goes to the end.
  push_back-IsWindow :
      (r s : Receiver fl) (pkt : Packet)
      → IsWindow r
      → IsSeq (seq pkt)
      → offset r.last_delivered_sequence_number (seq pkt) < 2 ^ 30 - 1
      → offset r.last_delivered_sequence_number r.max_seen_sequence_number
        < offset r.last_delivered_sequence_number (seq pkt)
      → s.last_delivered_sequence_number ≡ r.last_delivered_sequence_number
      → s.last_ack_sequence_number ≡ r.last_ack_sequence_number
      → s.max_seen_sequence_number ≡ seq pkt
      → s.packet_list ≡ r.packet_list
      → IsWindow (push_back fl s pkt)
  push_back-IsWindow r s pkt w v h k a b c d =
      let base = r.last_delivered_sequence_number in
      let more = Ascending-append base 0 r.packet_list pkt w.rising v (omega arith) in
      record {
        delivered_seq = rw a w.delivered_seq;
        ack_seq = rw b w.ack_seq;
        seen_seq = rw c v;
        ack_le = rw (a, b, c) (omega arith);
        seen_lt = rw (a, c) h;
        rising = rw (a, d) more.0;
        newest = rw (a, c, d) more.1;
      }

  insert_gap-IsWindow :
      (r : Receiver fl) (pkt : Packet) (q : Placement)
      → IsWindow r
      → Placed r.last_delivered_sequence_number 0 r.packet_list q
      → IsWindow (insert_gap fl r pkt q)
  unfolding insert_gap
  insert_gap-IsWindow r pkt duplicate w h = kept-IsWindow r _ w refl refl refl refl
  insert_gap-IsWindow r pkt (fills ps) w h = record {
    delivered_seq = w.delivered_seq;
    ack_seq = w.ack_seq;
    seen_seq = w.seen_seq;
    ack_le = w.ack_le;
    seen_lt = w.seen_lt;
    rising = h.0;
    newest = h.1 ∙ w.newest;
  }
  insert_gap-IsWindow r pkt nowhere w h = w

  -- The place of a packet that is not behind the last delivered one.
  place_found :
      (r : Receiver fl) (pkt : Packet)
      → IsWindow r
      → IsSeq (seq pkt)
      → leb (offset r.last_delivered_sequence_number (seq pkt)) 0 ≡ false
      → leb
          (offset r.last_delivered_sequence_number (seq pkt))
          (offset r.last_delivered_sequence_number r.max_seen_sequence_number)
        ≡ true
      → Placed r.last_delivered_sequence_number 0 r.packet_list (place pkt r.packet_list)
  place_found r pkt w v old gap =
      place-Placed r.last_delivered_sequence_number 0 pkt r.packet_list w.delivered_seq v w.rising
        (ground arith) (ground (arith, w.newest)) (omega arith)

  -- What `accept` returns, by the offsets; `P` is to be shown in each of the five cases.
  pub accept_cases {ℓ} :
      (P : Receiver fl → Type ℓ) (r : Receiver fl) (pkt : Packet)
      → IsWindow r
      → IsSeq (seq pkt)
      → InReach r pkt
      → P (drop_packet fl (belated fl r pkt) pkt)
      → P (drop_packet fl r pkt)
      → (offset r.last_delivered_sequence_number (seq pkt) < 2 ^ 30 - 1
          → offset r.last_delivered_sequence_number r.max_seen_sequence_number
            < offset r.last_delivered_sequence_number (seq pkt)
          → P (push_back fl (record r { max_seen_sequence_number = seq pkt }) pkt)
            × P (push_back fl (count_loss fl r pkt) pkt))
      → (Placed r.last_delivered_sequence_number 0 r.packet_list (place pkt r.packet_list)
          → P (insert_gap fl r pkt (place pkt r.packet_list)))
      → P (accept fl r pkt).0
  unfolding accept
  accept_cases P r pkt w v (inr old) belated_ dropped ahead gap = rw old belated_
  accept_cases P r pkt w v (inl h) belated_ dropped ahead gap =
      let t = tests_lem r pkt w v h in
      let base = r.last_delivered_sequence_number in
      let o = offset base (seq pkt) in
      let m = offset base r.max_seen_sequence_number in
      rw (t.is_old, t.is_acked, t.is_next, t.is_gap)
        (elim (Bool-cases (leb o 0)) [
          | inl a ↦ rw a belated_
          | inr a ↦ elim (Bool-cases (ltb o (offset base r.last_ack_sequence_number))) [
            | inl b ↦ rw (a, b) dropped
            | inr b ↦ elim (Bool-cases (o == m + 1)) [
              | inl c ↦ rw (a, b, c) (ahead h (ground arith)).0
              | inr c ↦ elim (Bool-cases (leb o m)) [
                | inl d ↦ rw (a, b, c, d) (gap (place_found r pkt w v a d))
                | inr d ↦ rw (a, b, c, d) (ahead h (ground arith)).1
              ]
            ]
          ]
        ])

  pub accept-IsWindow :
      (r : Receiver fl) (pkt : Packet)
      → IsWindow r
      → IsSeq (seq pkt)
      → InReach r pkt
      → IsWindow (accept fl r pkt).0
  unfolding count_loss
  accept-IsWindow r pkt w v reach =
      accept_cases IsWindow r pkt w v reach (kept-IsWindow r _ w refl refl refl refl)
        (kept-IsWindow r _ w refl refl refl refl)
        (λ h k. (
          push_back-IsWindow r _ pkt w v h k refl refl refl refl,
          push_back-IsWindow r _ pkt w v h k refl refl refl refl,
        ))
        (insert_gap-IsWindow r pkt (place pkt r.packet_list) w)

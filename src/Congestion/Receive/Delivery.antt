-- ===== src/Congestion/Receive/Delivery.antt =====
-- What `Tick` delivers, and what is left.
use gosrt.Common.{
  ℕ, suc, inl, inr, ◌+◌, ◌^◌, ◌<◌, ◌≡◌, refl, ◌∙◌, ap, arith, Bool, true, false, ◌&&◌, List, [],
  ◌∷◌, ◌++◌, length, length-append, drop, drop-drop_one, leb, ltb, Bool-cases, All, u64,
}
use gosrt.Circular.{Number, lte, distance}
use gosrt.Packet.Types.{Packet}
use gosrt.Congestion.Float.{Float64}
use gosrt.Congestion.Receive.Defs.{Receiver, seq}
use gosrt.Congestion.Receive.TickDefs.{
  deliver_one, deliver_ripe, count_lost, remove_delivered, finish_delivery, deliver_all,
}
use gosrt.Congestion.Receive.PushInvariant.{IsCounted}

-- A packet is delivered when it is acknowledged and its time has come.
abbrev pub is_ripe : Number → ℕ → Packet → Bool
is_ripe ack now p = lte (seq p) ack && leb p.header.pkt_tsbpd_time now

abbrev pub BeginsUnripe : Number → ℕ → List Packet → Type 0
BeginsUnripe ack now [] = Unit {0}
BeginsUnripe ack now (p ∷ ps) = is_ripe ack now p ≡ false

abbrev pub last_seq : Number → List Packet → Number
last_seq n [] = n
last_seq n (p ∷ ps) = last_seq (seq p) ps

module _ {fl : Float64} where
  -- The loop hands over the ripe packets from the front, up to the first that is not ripe.
  pub record Delivers (now : ℕ) (r : Receiver fl) (ps : List Packet) (s : Receiver fl)
      (ds : List Packet) : Type 0 where
    pub acked : s.last_ack_sequence_number ≡ r.last_ack_sequence_number
    pub seen : s.max_seen_sequence_number ≡ r.max_seen_sequence_number
    pub listed : s.packet_list ≡ r.packet_list
    pub last : s.last_delivered_sequence_number ≡ last_seq r.last_delivered_sequence_number ds
    pub pkt_same : s.statistics.pkt ≡ r.statistics.pkt
    pub unique_same : s.statistics.pkt_unique ≡ r.statistics.pkt_unique
    pub drop_same : s.statistics.pkt_drop ≡ r.statistics.pkt_drop
    pub in_buffer : u64 (s.statistics.pkt_buf + length ds) ≡ u64 r.statistics.pkt_buf
    pub split : ps ≡ ds ++ drop (length ds) ps
    pub ripe : All (λ p. is_ripe r.last_ack_sequence_number now p ≡ true) ds
    pub stop : BeginsUnripe r.last_ack_sequence_number now (drop (length ds) ps)

  deliver_ripe-Delivers :
      (now : ℕ) (r : Receiver fl) (ps : List Packet)
      → Delivers now r ps (deliver_ripe fl now r ps).0 (deliver_ripe fl now r ps).1
  unfolding deliver_ripe
  deliver_ripe-Delivers now r [] = ground arith
  deliver_ripe-Delivers now r (p ∷ ps) =
      let d = deliver_ripe-Delivers now (deliver_one fl r p) ps in
      elim (Bool-cases (is_ripe r.last_ack_sequence_number now p)) [
        | inl e ↦ rw e (record {
          acked = d.acked;
          seen = d.seen;
          listed = d.listed;
          last = d.last;
          pkt_same = d.pkt_same;
          unique_same = d.unique_same;
          drop_same = d.drop_same;
          in_buffer = omega (arith, d.in_buffer);
          split = ap (◌∷◌ p) d.split;
          ripe = (e, d.ripe);
          stop = d.stop;
        })
        | inr e ↦ rw e (record {
          acked = refl;
          seen = refl;
          listed = refl;
          last = refl;
          pkt_same = refl;
          unique_same = refl;
          drop_same = refl;
          in_buffer = omega arith;
          split = refl;
          ripe = tt;
          stop = e;
        })
      ]

  -- The second loop changes the list and the counter of lost packets only.
  record Removes (n : ℕ) (r s : Receiver fl) : Type 0 where
    acked' : s.last_ack_sequence_number ≡ r.last_ack_sequence_number
    seen' : s.max_seen_sequence_number ≡ r.max_seen_sequence_number
    delivered' : s.last_delivered_sequence_number ≡ r.last_delivered_sequence_number
    pkt' : s.statistics.pkt ≡ r.statistics.pkt
    unique' : s.statistics.pkt_unique ≡ r.statistics.pkt_unique
    drop' : s.statistics.pkt_drop ≡ r.statistics.pkt_drop
    buf' : s.statistics.pkt_buf ≡ r.statistics.pkt_buf
    list' : s.packet_list ≡ drop n r.packet_list

  count_lost-Removes : (r : Receiver fl) (d : ℕ) → Removes 0 r (count_lost fl r d)
  count_lost-Removes r d = elim (Bool-cases (ltb 1 d)) [
    | inl e ↦ rw e (ground arith)
    | inr e ↦ rw e (ground arith)
  ]

  Removes-suc :
      (n : ℕ) (r s t : Receiver fl)
      → Removes 0 r s
      → Removes n (record s { packet_list = drop 1 s.packet_list }) t
      → Removes (suc n) r t
  Removes-suc n r s t a b = record {
    acked' = b.acked' ∙ a.acked';
    seen' = b.seen' ∙ a.seen';
    delivered' = b.delivered' ∙ a.delivered';
    pkt' = b.pkt' ∙ a.pkt';
    unique' = b.unique' ∙ a.unique';
    drop' = b.drop' ∙ a.drop';
    buf' = b.buf' ∙ a.buf';
    list' = b.list' ∙ drop-drop_one n s.packet_list ∙ ap (drop (suc n)) a.list';
  }

  Removes-zero : (n : ℕ) (r s t : Receiver fl) → Removes n r s → Removes 0 s t → Removes n r t
  Removes-zero n r s t a b = record {
    acked' = b.acked' ∙ a.acked';
    seen' = b.seen' ∙ a.seen';
    delivered' = b.delivered' ∙ a.delivered';
    pkt' = b.pkt' ∙ a.pkt';
    unique' = b.unique' ∙ a.unique';
    drop' = b.drop' ∙ a.drop';
    buf' = b.buf' ∙ a.buf';
    list' = b.list' ∙ a.list';
  }

  remove_delivered-Removes :
      (r : Receiver fl) (last : Number) (ds : List Packet)
      → Removes (length ds) r (remove_delivered fl r last ds).0
  unfolding remove_delivered
  remove_delivered-Removes r last [] = ground arith
  remove_delivered-Removes r last (p ∷ ds) =
      let counted = count_lost fl r (distance last (seq p)) in
      Removes-suc (length ds) r counted _ (count_lost-Removes r _) (
        remove_delivered-Removes (record counted { packet_list = drop 1 counted.packet_list })
          (seq p) ds)

  finish_delivery-Removes :
      (r : Receiver fl) (last : Number) (ds : List Packet)
      → Removes (length ds) r (finish_delivery fl r last ds)
  finish_delivery-Removes r last [] = ground arith
  finish_delivery-Removes r last (p ∷ ds) =
      Removes-zero (suc (length ds)) r _ _ (remove_delivered-Removes r last (p ∷ ds))
        (count_lost-Removes _ _)

  -- The whole block: the same for the receiver that `deliver_all` returns, but for its list.
  pub record Delivered (now : ℕ) (r s : Receiver fl) (ds : List Packet) : Type 0 where
    pub acked : s.last_ack_sequence_number ≡ r.last_ack_sequence_number
    pub seen : s.max_seen_sequence_number ≡ r.max_seen_sequence_number
    pub last : s.last_delivered_sequence_number ≡ last_seq r.last_delivered_sequence_number ds
    pub pkt_same : s.statistics.pkt ≡ r.statistics.pkt
    pub unique_same : s.statistics.pkt_unique ≡ r.statistics.pkt_unique
    pub drop_same : s.statistics.pkt_drop ≡ r.statistics.pkt_drop
    pub in_buffer : u64 (s.statistics.pkt_buf + length ds) ≡ u64 r.statistics.pkt_buf
    pub split : r.packet_list ≡ ds ++ s.packet_list
    pub ripe : All (λ p. is_ripe r.last_ack_sequence_number now p ≡ true) ds
    pub stop : BeginsUnripe r.last_ack_sequence_number now s.packet_list

  -- `Tick` delivers the packets at the front of the list that are acknowledged and due, in order and
  -- up to the first that is not; these leave the list, the rest stays, and the last of them becomes
  -- the last delivered one. The counters of packets received stay, that of the buffer falls by their
  -- number.
  pub deliver_all-Delivered :
      (r : Receiver fl) (now : ℕ)
      → Delivered now r (deliver_all fl r now).0 (deliver_all fl r now).1
  unfolding deliver_all
  deliver_all-Delivered r now =
      let d = deliver_ripe-Delivers now r r.packet_list in
      let (s, ds) = deliver_ripe fl now r r.packet_list in
      let m = finish_delivery-Removes s r.last_delivered_sequence_number ds in
      let rest = m.list' ∙ ap (drop (length ds)) d.listed in
      record {
        acked = m.acked' ∙ d.acked;
        seen = m.seen' ∙ d.seen;
        last = m.delivered' ∙ d.last;
        pkt_same = m.pkt' ∙ d.pkt_same;
        unique_same = m.unique' ∙ d.unique_same;
        drop_same = m.drop' ∙ d.drop_same;
        in_buffer = rw m.buf' d.in_buffer;
        split = rw rest d.split;
        ripe = d.ripe;
        stop = rw rest d.stop;
      }

  deliver_ripe-fits :
      (now : ℕ) (r : Receiver fl) (ps : List Packet)
      → r.statistics.pkt_buf < 2 ^ 64
      → (deliver_ripe fl now r ps).0.statistics.pkt_buf < 2 ^ 64
  unfolding deliver_ripe
  deliver_ripe-fits now r [] h = h
  deliver_ripe-fits now r (p ∷ ps) h =
      elim (Bool-cases (is_ripe r.last_ack_sequence_number now p)) [
        | inl e ↦ rw e (deliver_ripe-fits now (deliver_one fl r p) ps (omega arith))
        | inr e ↦ rw e h
      ]

  pub deliver_all-IsCounted :
      (r : Receiver fl) (now : ℕ) → IsCounted r → IsCounted (deliver_all fl r now).0
  unfolding deliver_all
  deliver_all-IsCounted r now c =
      let d = deliver_all-Delivered r now in
      let (s, ds) = deliver_ripe fl now r r.packet_list in
      let m = finish_delivery-Removes s r.last_delivered_sequence_number ds in
      let fits = deliver_ripe-fits now r r.packet_list (omega arith) in
      let t = finish_delivery fl s r.last_delivered_sequence_number ds in
      record {
        received = omega (arith, c.received, d.pkt_same, d.unique_same, d.drop_same);
        buffered = omega (
          arith,
          c.buffered,
          d.in_buffer,
          ap length d.split,
          length-append ds t.packet_list,
          fits,
          m.buf',
        );
      }

-- ===== src/Congestion/Send/Buffer.antt =====
-- The two lists of the sender and its buffer counter.
use gosrt.Common.{
  ℕ, ◌+◌, ◌^◌, ◌≤◌, ◌<◌, ◌≡◌, inl, inr, refl, ◌∙◌, ap, sym, arith, false, List, [], ◌∷◌, ◌++◌,
  length, append_assoc, append-nil, drop, drop-drop_one, leb, Bool-cases, leb→le, All, u64, sub64,
}
use gosrt.Circular.{Number, lt}
use gosrt.Packet.Types.{Packet, len}
use gosrt.Congestion.Float.{Float64}
use gosrt.Congestion.Send.Defs.{Sender}
use gosrt.Congestion.Send.TickDefs.{
  seq, recent, send_one, send_ripe, move_sent, count_drop, count_drops, release,
}

abbrev pub BeginsLater : ℕ → List Packet → Type 0
BeginsLater now [] = Unit {0}
BeginsLater now (p ∷ ps) = now < p.header.pkt_tsbpd_time

abbrev pub BeginsUnacknowledged : Number → List Packet → Type 0
BeginsUnacknowledged n [] = Unit {0}
BeginsUnacknowledged n (p ∷ ps) = lt (seq p) n ≡ false

module _ {fl : Float64} where
  -- Every packet that waits or that may be sent again is counted.
  pub record IsCounted (s : Sender fl) : Type 0 where
    pub buffered : s.statistics.pkt_buf ≡ u64 (length s.packet_list + length s.loss_list)

  -- The loop of `Tick` hands over the packets that are due from the front, up to the first that is not.
  pub record Sends (now : ℕ) (s : Sender fl) (ps : List Packet) (t : Sender fl) (ds : List Packet)
      : Type 0 where
    pub waiting : t.packet_list ≡ s.packet_list
    pub lost : t.loss_list ≡ s.loss_list
    pub next : t.next_sequence_number ≡ s.next_sequence_number
    pub threshold : t.drop_threshold ≡ s.drop_threshold
    pub count : t.statistics.pkt_buf ≡ s.statistics.pkt_buf
    pub split : ps ≡ ds ++ drop (length ds) ps
    pub due : All (λ p. p.header.pkt_tsbpd_time ≤ now) ds
    pub stop : BeginsLater now (drop (length ds) ps)

  pub send_ripe-Sends :
      (now : ℕ) (s : Sender fl) (ps : List Packet)
      → Sends now s ps (send_ripe fl now s ps).0 (send_ripe fl now s ps).1
  unfolding send_ripe
  send_ripe-Sends now s [] = ground arith
  send_ripe-Sends now s (p ∷ ps) =
      let d = send_ripe-Sends now (send_one fl s p) ps in
      elim (Bool-cases (leb p.header.pkt_tsbpd_time now)) [
        | inl e ↦ rw e (record {
          waiting = d.waiting;
          lost = d.lost;
          next = d.next;
          threshold = d.threshold;
          count = d.count;
          split = ap (◌∷◌ p) d.split;
          due = (leb→le _ now e, d.due);
          stop = d.stop;
        })
        | inr e ↦ rw e (record {
          waiting = refl;
          lost = refl;
          next = refl;
          threshold = refl;
          count = refl;
          split = refl;
          due = tt;
          stop = ground arith;
        })
      ]

  pub record Moves (s : Sender fl) (ds : List Packet) (t : Sender fl) : Type 0 where
    pub waiting' : t.packet_list ≡ drop (length ds) s.packet_list
    pub lost' : t.loss_list ≡ s.loss_list ++ ds
    pub next' : t.next_sequence_number ≡ s.next_sequence_number
    pub threshold' : t.drop_threshold ≡ s.drop_threshold
    pub count' : t.statistics.pkt_buf ≡ s.statistics.pkt_buf

  pub move_sent-Moves : (s : Sender fl) (ds : List Packet) → Moves s ds (move_sent fl s ds)
  unfolding move_sent
  move_sent-Moves s [] = record {
    waiting' = refl;
    lost' = sym (append-nil s.loss_list);
    next' = refl;
    threshold' = refl;
    count' = refl;
  }
  move_sent-Moves s (d ∷ ds) =
      let m =
        move_sent-Moves
          (record s { loss_list = s.loss_list ++ (d ∷ []); packet_list = drop 1 s.packet_list })
          ds in
      record {
        waiting' = m.waiting' ∙ drop-drop_one (length ds) s.packet_list;
        lost' = m.lost' ∙ append_assoc s.loss_list (d ∷ []) ds;
        next' = m.next';
        threshold' = m.threshold';
        count' = m.count';
      }

  -- The removals from the loss list keep all but the counters.
  pub record Frees (n : ℕ) (s t : Sender fl) : Type 0 where
    pub same_waiting : t.packet_list ≡ s.packet_list
    pub same_next : t.next_sequence_number ≡ s.next_sequence_number
    pub fewer : u64 (t.statistics.pkt_buf + n) ≡ u64 s.statistics.pkt_buf
    pub fits : s.statistics.pkt_buf < 2 ^ 64 → t.statistics.pkt_buf < 2 ^ 64

  pub release-Frees : (s : Sender fl) (ps : List Packet) → Frees (length ps) s (release fl s ps)
  unfolding release
  release-Frees s [] = record {
    same_waiting = refl;
    same_next = refl;
    fewer = omega arith;
    fits = λ h. h;
  }
  release-Frees s (p ∷ ps) =
      let q = s.statistics in
      let less = record s {
        statistics = record q { pkt_buf = sub64 q.pkt_buf 1; byte_buf = sub64 q.byte_buf (len p) };
      } in
      let f = release-Frees less ps in
      record {
        same_waiting = f.same_waiting;
        same_next = f.same_next;
        fewer = omega (arith, f.fewer);
        fits = λ h. f.fits (omega arith);
      }

  pub count_drops-Frees : (s : Sender fl) (ps : List Packet) → Frees 0 s (count_drops fl s ps)
  unfolding count_drops
  count_drops-Frees s [] = record {
    same_waiting = refl;
    same_next = refl;
    fewer = omega arith;
    fits = λ h. h;
  }
  count_drops-Frees s (p ∷ ps) =
      let f = count_drops-Frees (count_drop fl s p) ps in
      record {
        same_waiting = f.same_waiting;
        same_next = f.same_next;
        fewer = f.fewer;
        fits = f.fits;
      }

  -- `Tick` on the two lists: what it hands over leaves the front of the packet list, is due, and goes
  -- to the back of the loss list; the loss list keeps the packets that are not too old, in order.
  pub record Ticks (now : ℕ) (s t : Sender fl) (ds : List Packet) : Type 0 where
    pub next : t.next_sequence_number ≡ s.next_sequence_number
    pub split : s.packet_list ≡ ds ++ t.packet_list
    pub due : All (λ p. p.header.pkt_tsbpd_time ≤ now) ds
    pub stop : BeginsLater now t.packet_list
    pub kept : t.loss_list ≡ recent s.drop_threshold now (s.loss_list ++ ds)

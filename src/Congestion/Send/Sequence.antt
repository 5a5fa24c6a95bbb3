-- ===== src/Congestion/Send/Sequence.antt =====
-- The numbering of the packets that are sent, over any sequence of calls.
use gosrt.Common.{
  ℕ, ◌≡◌, refl, sym, ◌∙◌, ap, arith, some, List, [], ◌∷◌, ◌++◌, append_assoc, length, length-map,
  subst,
}
use gosrt.Circular.{Number, inc}
use gosrt.Packet.Types.{Packet}
use gosrt.Congestion.Float.{Float64}
use gosrt.Congestion.Send.Defs.{Sender, new_sender, stamp, push, set_drop_threshold}
use gosrt.Congestion.Send.TickDefs.{seq, tick, ack}
use gosrt.Congestion.Send.StatsDefs.{stats}
use gosrt.Congestion.Send.NakDefs.{nak}
use gosrt.Congestion.Send.Buffer.{IsCounted}
use gosrt.Congestion.Send.Tick.{
  tick-Ticks, tick-IsCounted, ack-IsCounted, ack_removes, push-IsCounted,
}
use gosrt.Congestion.Send.Retransmission.{IsPairs, nak-Resends, marked}

-- The packets are numbered one after the other from `n`, and `m` is the number that comes next.
abbrev pub Consecutive : Number → List Packet → Number → Type 0
Consecutive n [] m = n ≡ m
Consecutive n (p ∷ ps) m = (seq p ≡ n) × Consecutive (inc n) ps m

Consecutive-append :
    (n m : Number) (ps : List Packet) (p : Packet)
    → Consecutive n ps m
    → seq p ≡ m
    → Consecutive n (ps ++ (p ∷ [])) (inc m)
Consecutive-append n m [] p h e = (e ∙ sym h, ap inc h)
Consecutive-append n m (q ∷ ps) p h e = (h.0, Consecutive-append (inc n) m ps p h.1 e)

module _ {fl : Float64} where
  -- The senders that calls in any order lead to from a new one, each with the packets that it has
  -- handed over for the first time, in order.
  pub data Sent (n : Number) : Sender fl → List Packet → Type 0 where
    starts :
        (threshold : ℕ) (input_bw overhead_bw : fl.F)
        → Sent n (new_sender fl n threshold input_bw overhead_bw) []
    pushes :
        {s : Sender fl} {ps : List Packet}
        → Sent n s ps
        → (p : Packet) → Sent n (push fl s (some p)) ps
    ticks :
        {s : Sender fl} {ps : List Packet}
        → Sent n s ps
        → (now : ℕ) → Sent n (tick fl s now).0 (ps ++ (tick fl s now).1)
    acks : {s : Sender fl} {ps : List Packet} → Sent n s ps → (m : Number) → Sent n (ack fl s m) ps
    naks :
        {s t : Sender fl} {ps : List Packet}
        → Sent n s ps
        → (ns : List Number) (again : List Packet) → IsPairs ns
        → nak fl s ns ≡ some (t, again)
        → Sent n t ps
    reads_stats : {s : Sender fl} {ps : List Packet} → Sent n s ps → Sent n (stats fl s).0 ps
    sets_threshold :
        {s : Sender fl} {ps : List Packet}
        → Sent n s ps
        → (threshold : ℕ) → Sent n (set_drop_threshold fl s threshold) ps

  pub record Numbered (n : Number) (s : Sender fl) (ps : List Packet) : Type 0 where
    pub consecutive : Consecutive n (ps ++ s.packet_list) s.next_sequence_number
    pub counted : IsCounted s

  push-Numbered :
      (n : Number) (s : Sender fl) (ps : List Packet) (p : Packet)
      → Numbered n s ps
      → Numbered n (push fl s (some p)) ps
  unfolding push stamp
  push-Numbered n s ps p h = record {
    consecutive =
        subst (λ l. Consecutive n l (inc s.next_sequence_number))
          (append_assoc ps s.packet_list (stamp fl s p ∷ []))
          (Consecutive-append n s.next_sequence_number (ps ++ s.packet_list) (stamp fl s p)
            h.consecutive refl);
    counted = push-IsCounted s p h.counted;
  }

  -- Whatever sequence of calls, but for Flush and a NAK of odd length, led to a sender: the packets handed over for the first time, followed
  -- by those that wait, are numbered without a gap from the initial number up to the next one, and the
  -- buffer counter is the number of packets in the two lists.
  pub Sent-Numbered :
      (n : Number) (s : Sender fl) (ps : List Packet) → Sent n s ps → Numbered n s ps
  unfolding new_sender set_drop_threshold stats
  Sent-Numbered n s ps (starts threshold a b) = record { consecutive = refl; counted = omega arith }
  Sent-Numbered n s ps (pushes {s = s'} h p) = push-Numbered n s' ps p (Sent-Numbered n s' ps h)
  Sent-Numbered n s ps (ticks {s = s'} {ps = qs} h now) =
      let i = Sent-Numbered n s' qs h in
      let t = tick-Ticks s' now in
      record {
        consecutive =
            rw
              (t.next, append_assoc qs (tick fl s' now).1 (tick fl s' now).0.packet_list, ← t.split)
              i.consecutive;
        counted = tick-IsCounted s' now i.counted;
      }
  Sent-Numbered n s ps (acks {s = s'} h m) =
      let i = Sent-Numbered n s' ps h in
      let a = ack_removes s' m in
      record { consecutive = rw (a.3, a.4) i.consecutive; counted = ack-IsCounted s' m i.counted }
  Sent-Numbered n s ps (naks {s = s'} h ns again pairs e) =
      let i = Sent-Numbered n s' ps h in
      let (t, q, l, r) = nak-Resends s' ns pairs in
      let same : (t ≡ s) = cc (e, q) in
      subst (λ u. Numbered n u ps) same
        (record {
          consecutive = rw (r.waiting, r.next) i.consecutive;
          counted = omega (
            arith,
            i.counted,
            r.buffered,
            ap length r.waiting,
            ap length l,
            length-map (marked ns) s'.loss_list,
          );
        })
  Sent-Numbered n s ps (sets_threshold {s = s'} h threshold) =
      let i = Sent-Numbered n s' ps h in
      record { consecutive = i.consecutive; counted = omega (arith, i.counted) }
  Sent-Numbered n s ps (reads_stats {s = s'} h) =
      let i = Sent-Numbered n s' ps h in
      record { consecutive = i.consecutive; counted = omega (arith, i.counted) }

-- ===== src/Congestion/Receive/TickInvariant.antt =====
-- `Tick` keeps the receive window, which moves forward to the last packet that it delivers.
use gosrt.Common.{
  ℕ, ◌-◌, ◌^◌, ◌≤◌, ◌<◌, ◌≡◌, refl, ◌∙◌, ap, arith, true, List, [], ◌∷◌, ◌++◌, All, Bool-cases, inl,
  inr, ltb, sub64, subst,
}
use gosrt.Circular.{Number}
use gosrt.Circular.Offset.{offset, IsSeq, lte-offset, offset_rebase, offset_self}
use gosrt.Packet.Types.{Packet}
use gosrt.Congestion.Float.{Float64}
use gosrt.Congestion.Receive.Defs.{Receiver, seq}
use gosrt.Congestion.Receive.PeriodicDefs.{periodic_ack, periodic_nak}
use gosrt.Congestion.Receive.TickDefs.{deliver_all, update_rate, tick}
use gosrt.Congestion.Receive.Window.{Ascending, top, le-top}
use gosrt.Congestion.Receive.PushInvariant.{IsWindow, IsCounted, kept-IsWindow}
use gosrt.Congestion.Receive.Acks.{periodic_ack-IsWindow, periodic_ack-IsCounted}
use gosrt.Congestion.Receive.Naks.{periodic_nak-IsWindow, periodic_nak-IsCounted}
use gosrt.Congestion.Receive.Delivery.{
  is_ripe, last_seq, deliver_all-Delivered, deliver_all-IsCounted,
}

Ascending-back :
    (base : Number) (lo : ℕ) (ds ps : List Packet)
    → Ascending base lo (ds ++ ps)
    → Ascending base (top base lo ds) ps
Ascending-back base lo [] ps h = h
Ascending-back base lo (d ∷ ds) ps h = Ascending-back base (offset base (seq d)) ds ps h.2

top-append :
    (base : Number) (lo : ℕ) (ds ps : List Packet)
    → top base lo (ds ++ ps) ≡ top base (top base lo ds) ps
top-append base lo [] ps = refl
top-append base lo (d ∷ ds) ps = top-append base (offset base (seq d)) ds ps

last_seq-top :
    (base n : Number) (lo : ℕ) (ds ps : List Packet)
    → IsSeq n
    → offset base n ≡ lo
    → Ascending base lo (ds ++ ps)
    → IsSeq (last_seq n ds) × (offset base (last_seq n ds) ≡ top base lo ds)
last_seq-top base n lo [] ps v e h = (v, e)
last_seq-top base n lo (d ∷ ds) ps v e h =
    last_seq-top base (seq d) (offset base (seq d)) ds ps h.0 refl h.2

-- The delivered packets are acknowledged ones.
ripe-top :
    (base ack : Number) (now lo : ℕ) (ds ps : List Packet)
    → IsSeq base
    → IsSeq ack
    → offset base ack < 2 ^ 30 - 1
    → lo ≤ offset base ack
    → Ascending base lo (ds ++ ps)
    → top base lo (ds ++ ps) < 2 ^ 30 - 1
    → All (λ p. is_ripe ack now p ≡ true) ds
    → top base lo ds ≤ offset base ack
ripe-top base ack now lo [] ps vb va w l h t r = l
ripe-top base ack now lo (d ∷ ds) ps vb va w l h t r =
    let o = offset base (seq d) in
    let test =
      lte-offset base (seq d) ack vb h.0 va (omega (arith, le-top base o (ds ++ ps) h.2)) w in
    ripe-top base ack now o ds ps vb va w (ground (arith, test, r.0)) h.2 t r.1

Ascending-rebase :
    (base base' : Number) (lo : ℕ) (ps : List Packet)
    → IsSeq base
    → IsSeq base'
    → offset base base' ≤ lo
    → Ascending base lo ps
    → Ascending base' (lo - offset base base') ps
      × (top base' (lo - offset base base') ps ≡ top base lo ps - offset base base')
Ascending-rebase base base' lo [] vb vb' l h = (tt, refl)
Ascending-rebase base base' lo (p ∷ ps) vb vb' l h =
    let o = offset base (seq p) in
    let e = offset_rebase base base' (seq p) vb vb' h.0 (omega arith) in
    let rest = Ascending-rebase base base' o ps vb vb' (omega arith) h.2 in
    rw e ((h.0, omega arith, rest.0), rest.1)

module _ {fl : Float64} where
  deliver_all-IsWindow :
      (r : Receiver fl) (now : ℕ) → IsWindow r → IsWindow (deliver_all fl r now).0
  deliver_all-IsWindow r now w =
      let d = deliver_all-Delivered r now in
      let s = (deliver_all fl r now).0 in
      let ds = (deliver_all fl r now).1 in
      let base = r.last_delivered_sequence_number in
      let ack = r.last_ack_sequence_number in
      let seen = r.max_seen_sequence_number in
      let rising = subst (Ascending base 0) d.split w.rising in
      let newest = subst (λ l. top base 0 l ≡ offset base seen) d.split w.newest in
      let moved =
        last_seq-top base base 0 ds s.packet_list w.delivered_seq (offset_self base w.delivered_seq)
          rising in
      let base' = last_seq base ds in
      let step =
        ripe-top base ack now 0 ds s.packet_list w.delivered_seq w.ack_seq (omega arith)
          (omega arith) rising (omega arith) d.ripe in
      let onward =
        Ascending-rebase base base' (top base 0 ds) s.packet_list w.delivered_seq moved.0
          (omega arith) (Ascending-back base 0 ds s.packet_list rising) in
      let eack = offset_rebase base base' ack w.delivered_seq moved.0 w.ack_seq (omega arith) in
      let eseen = offset_rebase base base' seen w.delivered_seq moved.0 w.seen_seq (omega arith) in
      let zero_start : (top base 0 ds - offset base base' ≡ 0) = omega arith in
      let tops = top-append base 0 ds s.packet_list in
      record {
        delivered_seq = rw d.last moved.0;
        ack_seq = rw d.acked w.ack_seq;
        seen_seq = rw d.seen w.seen_seq;
        ack_le = rw (d.last, d.acked, d.seen, eack, eseen) (omega arith);
        seen_lt = rw (d.last, d.seen, eseen) (omega arith);
        rising = rw d.last (subst (λ t. Ascending base' t s.packet_list) zero_start onward.0);
        newest =
            rw (d.last, d.seen, eseen)
              (subst (λ t. top base' t s.packet_list ≡ offset base seen - offset base base')
                zero_start (onward.1 ∙ ap (λ (t : ℕ). t - offset base base') (omega arith)));
      }

  update_rate-IsWindow : (r : Receiver fl) (now : ℕ) → IsWindow r → IsWindow (update_rate fl r now)
  unfolding update_rate
  update_rate-IsWindow r now w = elim (Bool-cases (ltb r.rate.period (sub64 now r.rate.last))) [
    | inl e ↦ rw e (kept-IsWindow r _ w refl refl refl refl)
    | inr e ↦ rw e w
  ]

  update_rate-IsCounted :
      (r : Receiver fl) (now : ℕ) → IsCounted r → IsCounted (update_rate fl r now)
  unfolding update_rate
  update_rate-IsCounted r now c = elim (Bool-cases (ltb r.rate.period (sub64 now r.rate.last))) [
    | inl e ↦ rw e (omega arith)
    | inr e ↦ rw e c
  ]

  -- `Tick` keeps the receive window and the counts.
  pub tick_keeps :
      (r : Receiver fl) (now : ℕ)
      → IsWindow r
      → IsCounted r
      → IsWindow (tick fl r now).0 × IsCounted (tick fl r now).0
  unfolding tick
  tick_keeps r now w c =
      let a = (periodic_ack fl r now).0 in
      let n = (periodic_nak fl a now).0 in
      (
        update_rate-IsWindow _ now (
            deliver_all-IsWindow n now
              (periodic_nak-IsWindow a now (periodic_ack-IsWindow r now w))),
        update_rate-IsCounted _ now (
            deliver_all-IsCounted n now
              (periodic_nak-IsCounted a now (periodic_ack-IsCounted r now c))),
      )

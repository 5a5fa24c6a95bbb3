-- ===== src/Congestion/Send/Tick.antt =====
-- `Tick`, `ACK` and `Push` on the lists of the sender.
use gosrt.Common.{
  ℕ, ◌+◌, ◌≤◌, ◌≡◌, inl, inr, refl, ◌∙◌, ap, ap₂, arith, true, some, List, [], ◌∷◌, ◌++◌, length,
  length-append, drop, ltb, Bool-cases, All, sub64,
}
use gosrt.Circular.{Number, lt}
use gosrt.Packet.Types.{Packet}
use gosrt.Congestion.Float.{Float64}
use gosrt.Congestion.Send.Defs.{Sender, stamp, push}
use gosrt.Congestion.Send.TickDefs.{
  seq, too_old, expired, recent, acknowledged, send_ripe, send_all, count_drops, drop_old,
  update_rate, tick, ack,
}
use gosrt.Congestion.Send.Buffer.{
  BeginsLater, BeginsUnacknowledged, IsCounted, send_ripe-Sends, move_sent-Moves, release-Frees,
  count_drops-Frees, Ticks,
}

length-expired :
    (threshold now : ℕ) (ps : List Packet)
    → length (expired threshold now ps) + length (recent threshold now ps) ≡ length ps
unfolding expired recent
length-expired threshold now [] = omega arith
length-expired threshold now (p ∷ ps) =
    let ih = length-expired threshold now ps in
    elim (Bool-cases (too_old threshold now p)) [
      | inl e ↦ rw e (omega (arith, ih))
      | inr e ↦ rw e (omega (arith, ih))
    ]

-- The front that an ACK removes: numbers before `n`, up to the first that is not.
acknowledged_lem :
    (n : Number) (ps : List Packet)
    → let done = acknowledged n ps in
      (ps ≡ done ++ drop (length done) ps)
      × All (λ p. lt (seq p) n ≡ true) done
      × BeginsUnacknowledged n (drop (length done) ps)
unfolding acknowledged
acknowledged_lem n [] = (refl, tt, tt)
acknowledged_lem n (p ∷ ps) =
    let ih = acknowledged_lem n ps in
    elim (Bool-cases (lt (seq p) n)) [
      | inl e ↦ rw e (ap (◌∷◌ p) ih.0, (e, ih.1), ih.2)
      | inr e ↦ rw e (refl, tt, e)
    ]

module _ {fl : Float64} where
  send_all-Ticks :
      (s : Sender fl) (now : ℕ)
      → let q = send_all fl s now in
        (s.packet_list ≡ q.1 ++ q.0.packet_list)
        × All (λ p. p.header.pkt_tsbpd_time ≤ now) q.1
        × BeginsLater now q.0.packet_list
        × (q.0.loss_list ≡ s.loss_list ++ q.1)
        × (q.0.next_sequence_number ≡ s.next_sequence_number)
        × (q.0.drop_threshold ≡ s.drop_threshold)
        × (q.0.statistics.pkt_buf ≡ s.statistics.pkt_buf)
  unfolding send_all
  send_all-Ticks s now =
      let d = send_ripe-Sends now s s.packet_list in
      let (t, ds) = send_ripe fl now s s.packet_list in
      let m = move_sent-Moves t ds in
      let rest = m.waiting' ∙ ap (drop (length ds)) d.waiting in
      (
        rw rest d.split,
        d.due,
        rw rest d.stop,
        m.lost' ∙ ap (λ l. l ++ ds) d.lost,
        m.next' ∙ d.next,
        m.threshold' ∙ d.threshold,
        m.count' ∙ d.count,
      )

  drop_old_lem :
      (s : Sender fl) (now : ℕ)
      → let t = drop_old fl s now in
        (t.packet_list ≡ s.packet_list)
        × (t.next_sequence_number ≡ s.next_sequence_number)
        × (t.loss_list ≡ recent s.drop_threshold now s.loss_list)
        × (IsCounted s → IsCounted t)
  unfolding drop_old
  drop_old_lem s now =
      let old = expired s.drop_threshold now s.loss_list in
      let c = count_drops-Frees s old in
      let f = release-Frees (count_drops fl s old) old in
      (
        f.same_waiting ∙ c.same_waiting,
        f.same_next ∙ c.same_next,
        refl,
        λ h. omega (
          arith,
          h.buffered,
          c.fewer,
          f.fewer,
          c.fits (omega arith),
          f.fits (c.fits (omega arith)),
          ap length f.same_waiting,
          ap length c.same_waiting,
          length-expired s.drop_threshold now s.loss_list,
        ),
      )

  update_rate_lem :
      (s : Sender fl) (now : ℕ)
      → let t = update_rate fl s now in
        (t.packet_list ≡ s.packet_list)
        × (t.loss_list ≡ s.loss_list)
        × (t.next_sequence_number ≡ s.next_sequence_number)
        × (t.statistics ≡ s.statistics)
  unfolding update_rate
  update_rate_lem s now = elim (Bool-cases (ltb s.rate.period (sub64 now s.rate.last))) [
    | inl e ↦ rw e (refl, refl, refl, refl)
    | inr e ↦ rw e (refl, refl, refl, refl)
  ]

  -- `Tick` hands over, in order, the waiting packets that are due, up to the first that is not, which
  -- leave the packet list; the loss list becomes itself followed by these, without the packets older
  -- than the drop threshold; the next sequence number stays.
  pub tick-Ticks : (s : Sender fl) (now : ℕ) → Ticks now s (tick fl s now).0 (tick fl s now).1
  unfolding tick
  tick-Ticks s now =
      let q = send_all-Ticks s now in
      let s' = (send_all fl s now).0 in
      let d = drop_old_lem s' now in
      let u = update_rate_lem (drop_old fl s' now) now in
      let waiting = u.0 ∙ d.0 in
      record {
        next = u.2 ∙ d.1 ∙ q.4;
        split = rw waiting q.0;
        due = q.1;
        stop = rw waiting q.2;
        kept = u.1 ∙ d.2 ∙ ap₂ (λ t l. recent t now l) q.5 q.3;
      }

  pub tick-IsCounted : (s : Sender fl) (now : ℕ) → IsCounted s → IsCounted (tick fl s now).0
  unfolding tick
  tick-IsCounted s now c =
      let q = send_all-Ticks s now in
      let s' = (send_all fl s now).0 in
      let sent : IsCounted s' = record {
        buffered = omega (
          arith,
          c.buffered,
          q.6,
          ap length q.0,
          ap length q.3,
          length-append (send_all fl s now).1 s'.packet_list,
          length-append s.loss_list (send_all fl s now).1,
        );
      } in
      let u = update_rate_lem (drop_old fl s' now) now in
      let old = (drop_old_lem s' now).3 sent in
      record { buffered = rw (u.3, u.0, u.1) old.buffered }

  pub ack-IsCounted : (s : Sender fl) (n : Number) → IsCounted s → IsCounted (ack fl s n)
  unfolding ack
  ack-IsCounted s n c =
      let done = acknowledged n s.loss_list in
      let f = release-Frees s done in
      record {
        buffered = omega (
          arith,
          c.buffered,
          f.fewer,
          f.fits (omega arith),
          ap length f.same_waiting,
          ap length (acknowledged_lem n s.loss_list).0,
          length-append done (drop (length done) s.loss_list),
        );
      }

  -- An ACK removes from the front of the loss list the packets before the acknowledged number, up to
  -- the first that is not before it, and touches neither the packets that wait nor the numbering.
  pub ack_removes :
      (s : Sender fl) (n : Number)
      → let t = ack fl s n in
        let done = acknowledged n s.loss_list in
        (s.loss_list ≡ done ++ t.loss_list)
        × All (λ p. lt (seq p) n ≡ true) done
        × BeginsUnacknowledged n t.loss_list
        × (t.packet_list ≡ s.packet_list)
        × (t.next_sequence_number ≡ s.next_sequence_number)
  unfolding ack
  ack_removes s n =
      let a = acknowledged_lem n s.loss_list in
      let f = release-Frees s (acknowledged n s.loss_list) in
      (a.0, a.1, a.2, f.same_waiting, f.same_next)

  pub push-IsCounted : (s : Sender fl) (p : Packet) → IsCounted s → IsCounted (push fl s (some p))
  unfolding push
  push-IsCounted s p c = omega (arith, length-append s.packet_list (stamp fl s p ∷ []))

-- ===== src/Congestion/Receive/Acks.antt =====
-- What `periodicACK` acknowledges.
use gosrt.Common.{
  ℕ, ◌≤◌, ◌<◌, ◌≡◌, ◌⊎◌, inl, inr, arith, Bool, Option, none, some, ltb, leb, Bool-cases, ltb,
  sub64, ◌&&◌, not, subst,
}
use gosrt.Circular.{Number, inc}
use gosrt.Circular.Offset.{offset}
use gosrt.Congestion.Float.{Float64}
use gosrt.Congestion.Receive.Defs.{Receiver}
use gosrt.Congestion.Receive.PeriodicDefs.{AckScan, acknowledge, ack_scan, periodic_ack, first_time}
use gosrt.Congestion.Receive.PushInvariant.{IsWindow, IsCounted}
use gosrt.Congestion.Receive.AckScanned.{Has, Overdue, Scanned, ack_scan-Scanned}

module _ {fl : Float64} where
  abbrev scanned : Receiver fl → ℕ → AckScan
  scanned r now =
      ack_scan now (first_time r.packet_list)
        (record { ack = r.last_ack_sequence_number; ms_buf = r.statistics.ms_buf }) r.packet_list

  periodic_ack_cases {ℓ} :
      (P : Receiver fl × Option (Number × Bool) → Type ℓ) (r : Receiver fl) (now : ℕ)
      → P (r, none)
      → ((lite : Bool)
          → P (acknowledge fl r now (scanned r now), some (inc (scanned r now).ack, lite)))
      → P (periodic_ack fl r now)
  unfolding periodic_ack
  periodic_ack_cases P r now early due =
      let soon = ltb (sub64 now r.last_periodic_ack) r.periodic_ack_interval in
      elim (Bool-cases (soon && not (leb 64 r.n_packets))) [
        | inl e ↦ rw e early
        | inr e ↦ rw e (due soon)
      ]

  scanned-Scanned :
      (r : Receiver fl) (now : ℕ)
      → IsWindow r
      → Scanned r.last_delivered_sequence_number now
          (offset r.last_delivered_sequence_number r.last_ack_sequence_number)
          r.packet_list
          (offset r.last_delivered_sequence_number r.max_seen_sequence_number)
          (scanned r now).ack
  scanned-Scanned r now w =
      subst
        (λ t.
          Scanned r.last_delivered_sequence_number now
            (offset r.last_delivered_sequence_number r.last_ack_sequence_number) r.packet_list t
            (scanned r now).ack)
        w.newest
        (ack_scan-Scanned r.last_delivered_sequence_number now (first_time r.packet_list) 0 _
          r.packet_list w.delivered_seq w.ack_seq (omega arith) w.rising (omega arith))

  acknowledge-IsWindow :
      (r : Receiver fl) (now : ℕ) → IsWindow r → IsWindow (acknowledge fl r now (scanned r now))
  acknowledge-IsWindow r now w =
      let c = scanned-Scanned r now w in
      record {
        delivered_seq = w.delivered_seq;
        ack_seq = c.is_seq;
        seen_seq = w.seen_seq;
        ack_le = omega (arith, c.bounded);
        seen_lt = w.seen_lt;
        rising = w.rising;
        newest = w.newest;
      }

  pub periodic_ack-IsWindow :
      (r : Receiver fl) (now : ℕ) → IsWindow r → IsWindow (periodic_ack fl r now).0
  periodic_ack-IsWindow r now w =
      periodic_ack_cases (λ q. IsWindow q.0) r now w (λ lite. acknowledge-IsWindow r now w)

  pub periodic_ack-IsCounted :
      (r : Receiver fl) (now : ℕ) → IsCounted r → IsCounted (periodic_ack fl r now).0
  periodic_ack-IsCounted r now c =
      periodic_ack_cases (λ q. IsCounted q.0) r now c (λ lite. omega arith)

  -- What an ACK may say, for the receiver before and the result.
  abbrev Covers : Receiver fl → ℕ → Receiver fl × Option (Number × Bool) → Type 0
  Covers r now q =
      let base = r.last_delivered_sequence_number in
      let acked = offset base q.0.last_ack_sequence_number in
      (offset base r.last_ack_sequence_number ≤ acked)
      × (acked ≤ offset base r.max_seen_sequence_number)
      × ((n : Number) (lite : Bool) → q.1 ≡ some (n, lite) → n ≡ inc q.0.last_ack_sequence_number)
      × ((k : ℕ)
          → offset base r.last_ack_sequence_number < k
          → k ≤ acked
          → Has base k r.packet_list ⊎ Overdue base now k r.packet_list)

  periodic_ack-Covers :
      (r : Receiver fl) (now : ℕ) → IsWindow r → Covers r now (periodic_ack fl r now)
  periodic_ack-Covers r now w =
      periodic_ack_cases (Covers r now) r now
        (omega arith, w.ack_le, (λ n lite e. cc), (λ k i j. absurd (omega arith)))
        (λ lite.
          let c = scanned-Scanned r now w in
          (c.forward, omega (arith, c.bounded, w.ack_le), (λ n lite' e. ground arith), c.covered))

  -- In the receive window, an ACK that is sent names the number after the last acknowledged one,
  -- which never goes back and never goes past the newest packet seen.
  pub periodic_ack_forward :
      (r : Receiver fl) (now : ℕ) (n : Number) (lite : Bool)
      → IsWindow r
      → (periodic_ack fl r now).1 ≡ some (n, lite)
      → let base = r.last_delivered_sequence_number in
        let acked = (periodic_ack fl r now).0.last_ack_sequence_number in
        (n ≡ inc acked)
        × (offset base r.last_ack_sequence_number ≤ offset base acked)
        × (offset base acked ≤ offset base r.max_seen_sequence_number)
  periodic_ack_forward r now n lite w e =
      let c = periodic_ack-Covers r now w in (c.2 n lite e, c.0, c.1)

  -- In the receive window, an acknowledged number is in the packet list, unless a later packet of the
  -- list is due for delivery.
  pub periodic_ack_covers :
      (r : Receiver fl) (now k : ℕ)
      → IsWindow r
      → offset r.last_delivered_sequence_number r.last_ack_sequence_number < k
      → k
        ≤ offset r.last_delivered_sequence_number (periodic_ack fl r now).0.last_ack_sequence_number
      → Has r.last_delivered_sequence_number k r.packet_list
        ⊎ Overdue r.last_delivered_sequence_number now k r.packet_list
  periodic_ack_covers r now k w i j = (periodic_ack-Covers r now w).3 k i j

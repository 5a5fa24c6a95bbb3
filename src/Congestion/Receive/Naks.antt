-- ===== src/Congestion/Receive/Naks.antt =====
-- What `periodicNAK` reports.
use gosrt.Common.{
  ℕ, ◌+◌, ◌-◌, ◌^◌, ◌≤◌, ◌<◌, ◌≡◌, ◌⊎◌, inl, inr, refl, arith, false, List, [], ◌∷◌, leb, ltb, ◌==◌,
  Bool-cases, sub64, leb→le, ltb→lt, ◌≢◌, ◌↔◌,
}
use gosrt.Circular.{Number, equals, inc, dec}
use gosrt.Circular.Offset.{
  offset, IsSeq, equals-offset, lte-offset, inc-offset, inc-IsSeq, dec-offset,
}
use gosrt.Packet.Types.{Packet}
use gosrt.Congestion.Float.{Float64}
use gosrt.Congestion.Receive.Defs.{Receiver, seq}
use gosrt.Congestion.Receive.PeriodicDefs.{nak_scan, periodic_nak}
use gosrt.Congestion.Receive.Window.{Ascending, top, le-top}
use gosrt.Congestion.Receive.PushInvariant.{IsWindow, IsCounted, kept-IsWindow}
use gosrt.Congestion.Receive.AckScanned.{Has}

-- The number that lies `k` ahead of the base is in one of the reported ranges.
abbrev pub Reported : Number → ℕ → List Number → Type 0
Reported base k [] = ⊥
Reported base k (a ∷ []) = ⊥
Reported base k (a ∷ b ∷ ns) = ((offset base a ≤ k) × (k ≤ offset base b)) ⊎ Reported base k ns

-- Exactly one of the two: reported, or in the list.
abbrev pub Exact : Number → ℕ → List Number → List Packet → Type 0
Exact base k ns ps =
    (Reported base k ns × ¬ (Has base k ps)) ⊎ (¬ (Reported base k ns) × Has base k ps)

Has-lt :
    (base : Number) (lo k : ℕ) (ps : List Packet) → Ascending base lo ps → Has base k ps → lo < k
Has-lt base lo k [] h has = absurd has
Has-lt base lo k (p ∷ ps) h (inl e) = omega arith
Has-lt base lo k (p ∷ ps) h (inr has) =
    omega (arith, Has-lt base (offset base (seq p)) k ps h.2 has)

-- One round of the loop, by the offsets: the packet is skipped, follows on, or stands behind a gap.
data Round (base ack : Number) (p : Packet) (ps : List Packet) : Type 0 where
  skip :
      offset base (seq p) ≤ offset base ack
      → nak_scan ack (p ∷ ps) ≡ nak_scan ack ps
      → Round base ack p ps
  follow :
      offset base (seq p) ≡ offset base ack + 1
      → nak_scan ack (p ∷ ps) ≡ nak_scan (seq p) ps
      → Round base ack p ps
  jump :
      offset base ack + 1 < offset base (seq p)
      → nak_scan ack (p ∷ ps) ≡ inc ack ∷ dec (seq p) ∷ nak_scan (seq p) ps
      → offset base (inc ack) ≡ offset base ack + 1
      → offset base (dec (seq p)) + 1 ≡ offset base (seq p)
      → Round base ack p ps

round_lem :
    (base ack : Number) (p : Packet) (ps : List Packet)
    → IsSeq base
    → IsSeq ack
    → IsSeq (seq p)
    → offset base ack < 2 ^ 30 - 1
    → offset base (seq p) < 2 ^ 30 - 1
    → Round base ack p ps
unfolding nak_scan
round_lem base ack p ps vb va vp h w =
    let o = offset base (seq p) in
    let a = offset base ack in
    let test = lte-offset base (seq p) ack vb vp va w h in
    let next : (equals (seq p) (inc ack) ≡ (o == a + 1)) =
      ground (arith, equals-offset base (seq p) (inc ack), inc-IsSeq ack, inc-offset base ack) in
    elim (Bool-cases (leb o a)) [
      | inl e ↦ skip (leb→le o a e) (rw (test, nak_scan, e))
      | inr e ↦ elim (Bool-cases (o == a + 1)) [
        | inl f ↦ follow (ground arith) (rw (test, nak_scan, e, next, f))
        | inr f ↦
            let far : (a + 1 < o) = ground arith in
            jump far (rw (test, nak_scan, e, next, f)) (inc-offset base ack vb va (omega arith))
              (omega (arith, dec-offset base (seq p) vb vp (omega arith), far))
      ]
    ]

Reported-lt :
    (base : Number) (lo k : ℕ) (ack : Number) (ps : List Packet)
    → IsSeq base
    → IsSeq ack
    → offset base ack < 2 ^ 30 - 1
    → Ascending base lo ps
    → top base lo ps < 2 ^ 30 - 1
    → Reported base k (nak_scan ack ps)
    → offset base ack < k
Reported-lt base lo k ack [] vb va w h w' r = absurd (unfold nak_scan in r)
Reported-lt base lo k ack (p ∷ ps) vb va w h w' r =
    let o = offset base (seq p) in
    let below : (o < 2 ^ 30 - 1) = omega (arith, le-top base o ps h.2) in
    let on = Reported-lt base o k (seq p) ps vb h.0 below h.2 w' in
    elim (round_lem base ack p ps vb va h.0 w below) [
      | skip l e ↦ Reported-lt base o k ack ps vb va w h.2 w' (rw e at r)
      | follow l e ↦ omega (arith, on (rw e at r))
      | jump l e up down ↦
          elim (let q : Reported base k (inc ack ∷ dec (seq p) ∷ nak_scan (seq p) ps) = rw e at r in
            q) [ inl here ↦ omega (arith, here) | inr there ↦ omega (arith, on there) ]
    ]

Reported-le :
    (base : Number) (lo k : ℕ) (ack : Number) (ps : List Packet)
    → IsSeq base
    → IsSeq ack
    → offset base ack < 2 ^ 30 - 1
    → Ascending base lo ps
    → top base lo ps < 2 ^ 30 - 1
    → Reported base k (nak_scan ack ps)
    → k ≤ top base lo ps
Reported-le base lo k ack [] vb va w h w' r = absurd (unfold nak_scan in r)
Reported-le base lo k ack (p ∷ ps) vb va w h w' r =
    let o = offset base (seq p) in
    let reach = le-top base o ps h.2 in
    let below : (o < 2 ^ 30 - 1) = omega arith in
    let on = Reported-le base o k (seq p) ps vb h.0 below h.2 w' in
    elim (round_lem base ack p ps vb va h.0 w below) [
      | skip l e ↦ Reported-le base o k ack ps vb va w h.2 w' (rw e at r)
      | follow l e ↦ on (rw e at r)
      | jump l e up down ↦
          elim (let q : Reported base k (inc ack ∷ dec (seq p) ∷ nak_scan (seq p) ps) = rw e at r in
            q) [ inl here ↦ omega (arith, here, down) | inr there ↦ on there ]
    ]

-- A packet that is not `k` ahead changes nothing.
past :
    (base : Number) (k : ℕ) (ns : List Number) (p : Packet) (ps : List Packet)
    → offset base (seq p) ≢ k
    → Exact base k ns ps
    → Exact base k ns (p ∷ ps)
past base k ns p ps ne (inl (r, n)) = inl (r, λ has. elim has [ inl e ↦ ne e | inr h ↦ n h ])
past base k ns p ps ne (inr (n, has)) = inr (n, inr has)

-- At the packet itself, or behind it.
reached :
    (base : Number) (lo k : ℕ) (p : Packet) (ps : List Packet)
    → IsSeq base
    → IsSeq (seq p)
    → offset base (seq p) < 2 ^ 30 - 1
    → Ascending base (offset base (seq p)) ps
    → top base (offset base (seq p)) ps < 2 ^ 30 - 1
    → offset base (seq p) ≤ k
    → (offset base (seq p) < k → Exact base k (nak_scan (seq p) ps) ps)
    → Exact base k (nak_scan (seq p) ps) (p ∷ ps)
reached base lo k p ps vb vp w h w' le later =
    let o = offset base (seq p) in
    elim (Bool-cases (o == k)) [
      | inl e ↦ inr (
        (λ r. absurd (ground (arith, Reported-lt base o k (seq p) ps vb vp w h w' r))),
        inl (ground arith),
      )
      | inr e ↦
          past base k (nak_scan (seq p) ps) p ps (λ f. absurd (ground arith)) (later (ground arith))
    ]

-- A range in front that ends before the number changes nothing.
beyond :
    (base : Number) (k : ℕ) (a b : Number) (ns : List Number) (ps : List Packet)
    → offset base b < k
    → Exact base k ns ps
    → Exact base k (a ∷ b ∷ ns) ps
beyond base k a b ns ps h (inl (r, n)) = inl (inr r, n)
beyond base k a b ns ps h (inr (n, has)) =
    inr ((λ r. elim r [ inl q ↦ absurd (omega (arith, q)) | inr q ↦ n q ]), has)

nak_scan-Exact :
    (base : Number) (lo k : ℕ) (ack : Number) (ps : List Packet)
    → IsSeq base
    → IsSeq ack
    → offset base ack < 2 ^ 30 - 1
    → Ascending base lo ps
    → top base lo ps < 2 ^ 30 - 1
    → offset base ack < k
    → k ≤ top base lo ps
    → lo ≤ offset base ack
    → Exact base k (nak_scan ack ps) ps
nak_scan-Exact base lo k ack [] vb va w h w' i j l = absurd (omega arith)
nak_scan-Exact base lo k ack (p ∷ ps) vb va w h w' i j l =
    let o = offset base (seq p) in
    let below : (o < 2 ^ 30 - 1) = omega (arith, le-top base o ps h.2) in
    elim (round_lem base ack p ps vb va h.0 w below) [
      | skip m e ↦ rw e (
          past base k (nak_scan ack ps) p ps (λ q. absurd (omega arith))
            (nak_scan-Exact base o k ack ps vb va w h.2 w' i j m))
      | follow m e ↦ rw e (
          reached base lo k p ps vb h.0 below h.2 w' (omega arith)
            (λ q. nak_scan-Exact base o k (seq p) ps vb h.0 below h.2 w' q j (omega arith)))
      | jump m e up down ↦ rw e (elim (Bool-cases (ltb k o)) [
        | inl f ↦ inl (
          inl (omega arith, omega (arith, down, ltb→lt k o f)),
          (λ has. elim has [
            | inl q ↦ absurd (omega (arith, q, ltb→lt k o f))
            | inr q ↦ absurd (omega (arith, ltb→lt k o f, Has-lt base o k ps h.2 q))
          ]),
        )
        | inr f ↦ beyond base k (inc ack) (dec (seq p)) _ (p ∷ ps) (ground arith) (
            reached base lo k p ps vb h.0 below h.2 w' (ground arith)
              (λ q. nak_scan-Exact base o k (seq p) ps vb h.0 below h.2 w' q j (omega arith)))
      ])
    ]

module _ {fl : Float64} where
  pub periodic_nak-IsWindow :
      (r : Receiver fl) (now : ℕ) → IsWindow r → IsWindow (periodic_nak fl r now).0
  unfolding periodic_nak
  periodic_nak-IsWindow r now w =
      elim (Bool-cases (ltb (sub64 now r.last_periodic_nak) r.periodic_nak_interval)) [
        | inl e ↦ rw e w
        | inr e ↦ rw e (kept-IsWindow r _ w refl refl refl refl)
      ]

  pub periodic_nak-IsCounted :
      (r : Receiver fl) (now : ℕ) → IsCounted r → IsCounted (periodic_nak fl r now).0
  unfolding periodic_nak
  periodic_nak-IsCounted r now c = ground arith

  -- In the receive window, a NAK that is due reports a number exactly where it lies behind the last
  -- acknowledged one and up to the newest packet seen, and is not in the packet list.
  pub periodic_nak-Exact :
      (r : Receiver fl) (now k : ℕ)
      → IsWindow r
      → ltb (sub64 now r.last_periodic_nak) r.periodic_nak_interval ≡ false
      → (Reported r.last_delivered_sequence_number k (periodic_nak fl r now).1) ↔ (
          (offset r.last_delivered_sequence_number r.last_ack_sequence_number < k)
          × (k ≤ offset r.last_delivered_sequence_number r.max_seen_sequence_number)
          × ¬ (Has r.last_delivered_sequence_number k r.packet_list))
  unfolding periodic_nak
  periodic_nak-Exact r now k w due =
      let base = r.last_delivered_sequence_number in
      let exact : (offset base r.last_ack_sequence_number < k)
          → (k ≤ offset base r.max_seen_sequence_number)
          → Exact base k (nak_scan r.last_ack_sequence_number r.packet_list) r.packet_list =
        λ i j.
          nak_scan-Exact base 0 k r.last_ack_sequence_number r.packet_list w.delivered_seq w.ack_seq
            (omega arith) w.rising (omega arith) i (omega arith) (omega arith) in
      let scanned : List Number = nak_scan r.last_ack_sequence_number r.packet_list in
      let fwd : Reported base k scanned
          → (offset base r.last_ack_sequence_number < k)
            × (k ≤ offset base r.max_seen_sequence_number)
            × ¬ (Has base k r.packet_list) =
        λ q.
          let i =
            Reported-lt base 0 k r.last_ack_sequence_number r.packet_list w.delivered_seq w.ack_seq
              (omega arith) w.rising (omega arith) q in
          let j =
            Reported-le base 0 k r.last_ack_sequence_number r.packet_list w.delivered_seq w.ack_seq
              (omega arith) w.rising (omega arith) q in
          let j' : (k ≤ offset base r.max_seen_sequence_number) = omega arith in
          (i, j', elim (exact i j') [ inl (rep, n) ↦ n | inr (n, has) ↦ absurd (n q) ]) in
      rw due
        (fwd, λ (i, j, n). elim (exact i j) [ inl (rep, m) ↦ rep | inr (m, has) ↦ absurd (n has) ])

-- ===== src/Congestion/Receive/AckScanned.antt =====
-- The loop of `periodicACK` over the packet list.
use gosrt.Common.{
  ℕ, ◌+◌, ◌-◌, ◌^◌, ◌≤◌, ◌<◌, ◌≡◌, ◌⊎◌, inl, inr, refl, arith, Option, none, some, List, [], ◌∷◌,
  leb, ◌==◌, Bool-cases, max, leb→le, ap, Option-cases,
}
use gosrt.Circular.{Number, equals, inc}
use gosrt.Circular.Offset.{offset, IsSeq, equals-offset, lte-offset, inc-offset, inc-IsSeq}
use gosrt.Packet.Types.{Packet}
use gosrt.Congestion.Receive.Defs.{seq}
use gosrt.Congestion.Receive.PeriodicDefs.{AckScan, ack_step, ack_scan}
use gosrt.Congestion.Receive.Window.{Ascending, top, le-top}

-- A packet of the list lies `k` ahead of the base.
abbrev pub Has : Number → ℕ → List Packet → Type 0
Has base k [] = ⊥
Has base k (p ∷ ps) = (offset base (seq p) ≡ k) ⊎ Has base k ps

-- A packet of the list lies further ahead, and its time to be delivered has come.
abbrev pub Overdue : Number → ℕ → ℕ → List Packet → Type 0
Overdue base now k [] = ⊥
Overdue base now k (p ∷ ps) =
    ((k < offset base (seq p)) × (p.header.pkt_tsbpd_time ≤ now)) ⊎ Overdue base now k ps

-- The scan goes from `a` to `b`, and leaves out only what is overdue.
pub record Scanned (base : Number) (now a : ℕ) (ps : List Packet) (hi : ℕ) (b : Number)
    : Type 0 where
  pub is_seq : IsSeq b
  pub forward : a ≤ offset base b
  pub bounded : offset base b ≤ max a hi
  pub covered : (k : ℕ) → a < k → k ≤ offset base b → Has base k ps ⊎ Overdue base now k ps

-- One round of the loop, by the offsets.
abbrev Round : Number → ℕ → AckScan → Packet → Option AckScan → Type 0
Round base now s p none = Unit {0}
Round base now s p (some t) =
    ((offset base (seq p) ≤ offset base s.ack) × (t.ack ≡ s.ack))
    ⊎ ((t.ack ≡ seq p)
        × (offset base s.ack < offset base (seq p))
        × ((p.header.pkt_tsbpd_time ≤ now) ⊎ (offset base (seq p) ≡ offset base s.ack + 1)))

ack_step-Round :
    (base : Number) (now first : ℕ) (s : AckScan) (p : Packet)
    → IsSeq base
    → IsSeq s.ack
    → IsSeq (seq p)
    → offset base s.ack < 2 ^ 30 - 1
    → offset base (seq p) < 2 ^ 30 - 1
    → Round base now s p (ack_step now first s p)
unfolding ack_step
ack_step-Round base now first s p vb vs vp hs hp =
    let o = offset base (seq p) in
    let a = offset base s.ack in
    let next : (equals (seq p) (inc s.ack) ≡ (o == a + 1)) =
      ground
        (arith, equals-offset base (seq p) (inc s.ack), inc-IsSeq s.ack, inc-offset base s.ack) in
    rw (lte-offset base (seq p) s.ack vb vp vs hp hs, next)
      (elim (Bool-cases (leb o a)) [
        | inl e ↦ rw e (inl (leb→le o a e, refl))
        | inr e ↦ elim (Bool-cases (leb p.header.pkt_tsbpd_time now)) [
          | inl f ↦ rw (e, f) (inr (refl, ground arith, inl (leb→le _ now f)))
          | inr f ↦ elim (Bool-cases (o == a + 1)) [
            | inl g ↦ rw (e, f, g) (inr (refl, ground arith, inr (ground arith)))
            | inr g ↦ rw (e, f, g) tt
          ]
        ]
      ])

weaken :
    (base : Number) (now k : ℕ) (p : Packet) (ps : List Packet)
    → Has base k ps ⊎ Overdue base now k ps
    → Has base k (p ∷ ps) ⊎ Overdue base now k (p ∷ ps)
weaken base now k p ps (inl h) = inl (inr h)
weaken base now k p ps (inr h) = inr (inr h)

-- Up to a packet that the scan moves to.
moved_over :
    (base : Number) (now a k : ℕ) (p : Packet) (ps : List Packet)
    → (p.header.pkt_tsbpd_time ≤ now) ⊎ (offset base (seq p) ≡ a + 1)
    → a < k
    → k ≤ offset base (seq p)
    → Has base k (p ∷ ps) ⊎ Overdue base now k (p ∷ ps)
moved_over base now a k p ps why h l = elim (Bool-cases (offset base (seq p) == k)) [
  | inl e ↦ inl (inl (ground arith))
  | inr e ↦ elim why [ inl due ↦ inr (inl (ground arith, due)) | inr next ↦ absurd (ground arith) ]
]

stopped :
    (base : Number) (now hi : ℕ) (b : Number) (ps : List Packet)
    → IsSeq b
    → Scanned base now (offset base b) ps hi b
stopped base now hi b ps v = record {
  is_seq = v;
  forward = omega arith;
  bounded = omega arith;
  covered = λ k l m. absurd (omega arith);
}

-- A round and then the rest of the loop.
after-Round :
    (base : Number) (now hi : ℕ) (s t : AckScan) (p : Packet) (ps : List Packet) (b : Number)
    → Round base now s p (some t)
    → offset base (seq p) ≤ hi
    → Scanned base now (offset base t.ack) ps hi b
    → Scanned base now (offset base s.ack) (p ∷ ps) hi b
after-Round base now hi s t p ps b (inl (l, e)) below c = record {
  is_seq = c.is_seq;
  forward = rw (ap (offset base) e) at c.forward;
  bounded = rw (ap (offset base) e) at c.bounded;
  covered = λ k i j. weaken base now k p ps (c.covered k (rw (ap (offset base) e) i) j);
}
after-Round base now hi s t p ps b (inr (e, l, why)) below c =
    let same = ap (offset base) e in
    record {
      is_seq = c.is_seq;
      forward = omega (arith, c.forward, same);
      bounded = omega (arith, c.bounded, same);
      covered = λ k i j. elim (Bool-cases (leb k (offset base (seq p)))) [
        | inl f ↦ moved_over base now (offset base s.ack) k p ps why i (leb→le k _ f)
        | inr f ↦ weaken base now k p ps (c.covered k (rw same (ground arith)) j)
      ];
    }

Round-IsSeq :
    (base : Number) (now : ℕ) (s t : AckScan) (p : Packet)
    → Round base now s p (some t)
    → IsSeq s.ack
    → IsSeq (seq p)
    → offset base s.ack < 2 ^ 30 - 1
    → offset base (seq p) < 2 ^ 30 - 1
    → IsSeq t.ack × (offset base t.ack < 2 ^ 30 - 1)
Round-IsSeq base now s t p (inl (l, e)) vs vp hs hp = rw e (vs, hs)
Round-IsSeq base now s t p (inr (e, l, why)) vs vp hs hp = rw e (vp, hp)

pub ack_scan-Scanned :
    (base : Number) (now first lo : ℕ) (s : AckScan) (ps : List Packet)
    → IsSeq base
    → IsSeq s.ack
    → offset base s.ack < 2 ^ 30 - 1
    → Ascending base lo ps
    → top base lo ps < 2 ^ 30 - 1
    → Scanned base now (offset base s.ack) ps (top base lo ps) (ack_scan now first s ps).ack
unfolding ack_scan
ack_scan-Scanned base now first lo s [] vb vs hs h w = stopped base now lo s.ack [] vs
ack_scan-Scanned base now first lo s (p ∷ ps) vb vs hs h w =
    let o = offset base (seq p) in
    let below = le-top base o ps h.2 in
    let round = ack_step-Round base now first s p vb vs h.0 hs (omega arith) in
    elim (Option-cases (ack_step now first s p)) [
      | inl e ↦ rw (e, ack_scan) (stopped base now (top base o ps) s.ack (p ∷ ps) vs)
      | inr (t, e) ↦
          let taken : Round base now s p (some t) = rw e at round in
          let v = Round-IsSeq base now s t p taken vs h.0 hs (omega arith) in
          rw (e, ack_scan)
            (after-Round base now (top base o ps) s t p ps _ taken below
              (ack_scan-Scanned base now first o t ps vb v.0 v.1 h.2 w))
    ]

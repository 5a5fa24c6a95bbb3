-- ===== src/Congestion/Receive/Window.antt =====
-- The packet list inside the receive window: offsets ahead of the last delivered packet.
use gosrt.Common.{
  ℕ, suc, ◌-◌, ◌^◌, ◌≤◌, ◌<◌, ◌≡◌, inl, inr, refl, arith, List, [], ◌∷◌, ◌++◌, length, ltb, ◌==◌,
  Bool-cases, if◌then◌else◌, ltb→lt,
}
use gosrt.Circular.{Number}
use gosrt.Circular.Offset.{offset, IsSeq, gt-offset}
use gosrt.Packet.Types.{Packet}
use gosrt.Congestion.Receive.Defs.{
  seq, place, Placement, duplicate, fills, nowhere, behind, number_eq,
}

-- Sequence numbers that rise along the list, all of them ahead of `lo`.
abbrev pub Ascending : Number → ℕ → List Packet → Type 0
Ascending base lo [] = Unit {0}
Ascending base lo (p ∷ ps) =
    IsSeq (seq p) × (lo < offset base (seq p)) × Ascending base (offset base (seq p)) ps

-- The offset of the last packet.
abbrev pub top : Number → ℕ → List Packet → ℕ
top base lo [] = lo
top base lo (p ∷ ps) = top base (offset base (seq p)) ps

pub le-top :
    (base : Number) (lo : ℕ) (ps : List Packet) → Ascending base lo ps → lo ≤ top base lo ps
le-top base lo [] h = omega arith
le-top base lo (p ∷ ps) h = omega (arith, le-top base (offset base (seq p)) ps h.2)

pub Ascending-append :
    (base : Number) (lo : ℕ) (ps : List Packet) (pkt : Packet)
    → Ascending base lo ps
    → IsSeq (seq pkt)
    → top base lo ps < offset base (seq pkt)
    → Ascending base lo (ps ++ (pkt ∷ []))
      × (top base lo (ps ++ (pkt ∷ [])) ≡ offset base (seq pkt))
Ascending-append base lo [] pkt h v k = ((v, k, tt), refl)
Ascending-append base lo (p ∷ ps) pkt h v k =
    let rest = Ascending-append base (offset base (seq p)) ps pkt h.2 v k in
    ((h.0, h.1, rest.0), rest.1)

pub number_eq-offset :
    (base a b : Number)
    → IsSeq base
    → IsSeq a
    → IsSeq b
    → number_eq a b ≡ (offset base a == offset base b)
number_eq-offset base a b vs va vb = ground arith

-- Where `place` puts a packet of the window.
abbrev pub Placed : Number → ℕ → List Packet → Placement → Type 0
Placed base lo ps duplicate = Unit {0}
Placed base lo ps (fills qs) =
    Ascending base lo qs × (top base lo qs ≡ top base lo ps) × (length qs ≡ suc (length ps))
Placed base lo ps nowhere = ⊥

behind-Placed :
    (base : Number) (lo : ℕ) (p : Packet) (ps : List Packet) (r : Placement)
    → IsSeq (seq p)
    → lo < offset base (seq p)
    → Placed base (offset base (seq p)) ps r
    → Placed base lo (p ∷ ps) (behind p r)
behind-Placed base lo p ps duplicate v h k = tt
behind-Placed base lo p ps (fills qs) v h k = ((v, h, k.0), k.1, omega (arith, k.2))
behind-Placed base lo p ps nowhere v h k = k

-- The result of `place` at one packet of the list, by the offsets of the two.
place_step :
    (base : Number) (pkt p : Packet) (ps : List Packet)
    → IsSeq base
    → IsSeq (seq pkt)
    → IsSeq (seq p)
    → offset base (seq pkt) < 2 ^ 30 - 1
    → offset base (seq p) < 2 ^ 30 - 1
    → place pkt (p ∷ ps) ≡ (
        if offset base (seq p) == offset base (seq pkt)
        then duplicate
        else if ltb (offset base (seq pkt)) (offset base (seq p))
        then fills (pkt ∷ p ∷ ps)
        else behind p (place pkt ps))
unfolding place
place_step base pkt p ps vb vpkt vp ho hp = rw (
  number_eq-offset base (seq p) (seq pkt) vb vp vpkt,
  gt-offset base (seq p) (seq pkt) vb vp vpkt hp ho,
)

pub place-Placed :
    (base : Number) (lo : ℕ) (pkt : Packet) (ps : List Packet)
    → IsSeq base
    → IsSeq (seq pkt)
    → Ascending base lo ps
    → lo < offset base (seq pkt)
    → offset base (seq pkt) ≤ top base lo ps
    → top base lo ps < 2 ^ 30 - 1
    → Placed base lo ps (place pkt ps)
place-Placed base lo pkt [] vb vp h low high w = absurd (omega arith)
place-Placed base lo pkt (p ∷ ps) vb vp h low high w =
    let o = offset base (seq p) in
    let o' = offset base (seq pkt) in
    let ahead = le-top base o ps h.2 in
    rw (place_step base pkt p ps vb vp h.0 (omega arith) (omega arith))
      (elim (Bool-cases (o == o')) [
        | inl e ↦ rw e tt
        | inr e ↦ elim (Bool-cases (ltb o' o)) [
          | inl f ↦ rw (e, f) ((vp, low, (h.0, ltb→lt o' o f, h.2)), refl, refl)
          | inr f ↦
              rw (e, f)
                (behind-Placed base lo p ps (place pkt ps) h.0 h.1
                  (place-Placed base o pkt ps vb vp h.2 (ground arith) high w))
        ]
      ])

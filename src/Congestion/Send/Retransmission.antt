-- ===== src/Congestion/Send/Retransmission.antt =====
-- What `NAK` sends again.
use gosrt.Common.{
  ℕ, suc, ◌+◌, ◌≡◌, inl, inr, refl, sym, ap, arith, true, some, List, [], ◌∷◌, ◌++◌, map, length,
  length-append, replicate, length-replicate, Bool-cases, if◌then◌else◌, u64, leb, ◌∙◌,
}
use gosrt.Circular.{Number}
use gosrt.Packet.Types.{Packet}
use gosrt.Congestion.Float.{Float64}
use gosrt.Congestion.Send.Defs.{Sender}
use gosrt.Congestion.Send.NakDefs.{
  in_range, flag_retransmitted, count_retransmit, retransmit, nak_loop, nak,
}

-- A list of ranges, two numbers each.
abbrev pub IsPairs : List Number → Type 0
IsPairs [] = Unit {0}
IsPairs (a ∷ []) = ⊥
IsPairs (a ∷ b ∷ ns) = IsPairs ns

-- In how many of the ranges a packet lies.
abbrev pub hits : List Number → Packet → ℕ
hits [] p = 0
hits (a ∷ []) p = 0
hits (a ∷ b ∷ ns) p = let rest = hits ns p in if in_range a b p then suc rest else rest

abbrev pub marked : List Number → Packet → Packet
marked ns p = if leb 1 (hits ns p) then flag_retransmitted p else p

-- The packets to send again: from the newest to the oldest, each as often as it is asked for.
abbrev pub resent : List Number → List Packet → List Packet
resent ns [] = []
resent ns (p ∷ ps) = resent ns ps ++ replicate (hits ns p) (flag_retransmitted p)

hits-flag : (ns : List Number) (p : Packet) → hits ns (flag_retransmitted p) ≡ hits ns p
hits-flag [] p = refl
hits-flag (a ∷ []) p = refl
hits-flag (a ∷ b ∷ ns) p = ap (λ (t : ℕ). if in_range a b p then suc t else t) (hits-flag ns p)

marked-flag :
    (ns : List Number) (p : Packet) → marked ns (flag_retransmitted p) ≡ flag_retransmitted p
marked-flag ns p = elim (Bool-cases (leb 1 (hits ns (flag_retransmitted p)))) [
  | inl e ↦ rw e
  | inr e ↦ rw e
]

leb-one_suc : (n : ℕ) → leb 1 (suc n) ≡ true
leb-one_suc n = ground arith

map-marked_nil : (ps : List Packet) → map (marked []) ps ≡ ps
map-marked_nil [] = refl
map-marked_nil (p ∷ ps) = ap (◌∷◌ p) (map-marked_nil ps)

resent-nil : (ps : List Packet) → resent [] ps ≡ []
resent-nil [] = refl
resent-nil (p ∷ ps) = rw (resent-nil ps)

module _ {fl : Float64} where
  -- A step that counts `n` packets as sent again and changes neither list.
  pub record Resends (n : ℕ) (s t : Sender fl) : Type 0 where
    pub waiting : t.packet_list ≡ s.packet_list
    pub next : t.next_sequence_number ≡ s.next_sequence_number
    pub buffered : t.statistics.pkt_buf ≡ s.statistics.pkt_buf
    pub counted : u64 t.statistics.pkt_retrans ≡ u64 (s.statistics.pkt_retrans + n)

  retransmit_lem :
      (s : Sender fl) (p : Packet) (ns : List Number)
      → IsPairs ns
      → (t : Sender fl) × (retransmit fl s p ns
          ≡ some (t, marked ns p, replicate (hits ns p) (flag_retransmitted p)))
        × Resends (hits ns p) s t
  unfolding retransmit
  retransmit_lem s p [] h = (s, refl, ground arith)
  retransmit_lem s p (a ∷ []) h = absurd h
  retransmit_lem s p (a ∷ b ∷ ns) h = elim (Bool-cases (in_range a b p)) [
    | inl e ↦
        let (t, q, r) = retransmit_lem (count_retransmit fl s p) (flag_retransmitted p) ns h in
        let n = hits-flag ns p in
        (
          t,
          rw (e, q, retransmit, marked-flag ns p, n, leb-one_suc (hits ns p)),
          rw e (record {
            waiting = r.waiting;
            next = r.next;
            buffered = r.buffered;
            counted = omega (arith, r.counted, n);
          }),
        )
    | inr e ↦ let (t, q, r) = retransmit_lem s p ns h in (t, rw (e, q, retransmit), rw e r)
  ]

  Resends-trans :
      (m n : ℕ) (s t u : Sender fl) → Resends m s t → Resends n t u → Resends (m + n) s u
  Resends-trans m n s t u a b = record {
    waiting = b.waiting ∙ a.waiting;
    next = b.next ∙ a.next;
    buffered = b.buffered ∙ a.buffered;
    counted = omega (arith, a.counted, b.counted);
  }

  nak_loop_lem :
      (s : Sender fl) (ns : List Number) (ps : List Packet)
      → IsPairs ns
      → (t : Sender fl) × (nak_loop fl s ns ps ≡ some (t, map (marked ns) ps, resent ns ps))
        × Resends (length (resent ns ps)) s t
  unfolding nak_loop
  nak_loop_lem s ns [] h = (s, refl, ground arith)
  nak_loop_lem s ns (p ∷ ps) h =
      let (t, q, r) = nak_loop_lem s ns ps h in
      let (u, q', r') = retransmit_lem t p ns h in
      let again = replicate (hits ns p) (flag_retransmitted p) in
      let count : (length (resent ns ps ++ again) ≡ length (resent ns ps) + hits ns p) =
        length-append (resent ns ps) again
        ∙ ap (λ (k : ℕ). length (resent ns ps) + k) (length-replicate _ _) in
      (u, rw (q, q', nak_loop), rw count (Resends-trans _ _ s t u r r'))

  -- On a list of ranges `NAK` returns. It hands over the packets of the loss list that lie in a range,
  -- from the newest to the oldest and marked as retransmitted, each once for each range that it lies
  -- in, and counts them; the loss list keeps its packets, with the mark, and the rest of the buffer is
  -- as it was.
  pub nak-Resends :
      (s : Sender fl) (ns : List Number)
      → IsPairs ns
      → (t : Sender fl) × (nak fl s ns ≡ some (t, resent ns s.loss_list))
        × (t.loss_list ≡ map (marked ns) s.loss_list)
        × Resends (length (resent ns s.loss_list)) s t
  unfolding nak
  nak-Resends s [] h =
      let e = resent-nil s.loss_list in
      (s, rw e, sym (map-marked_nil s.loss_list), rw e (ground arith))
  nak-Resends s (n ∷ ns) h =
      let (t, q, r) = nak_loop_lem s (n ∷ ns) s.loss_list h in
      (
        record t { loss_list = map (marked (n ∷ ns)) s.loss_list },
        rw (q, nak),
        refl,
        record { waiting = r.waiting; next = r.next; buffered = r.buffered; counted = r.counted },
      )

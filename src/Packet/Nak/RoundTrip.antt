-- ===== src/Packet/Nak/RoundTrip.antt =====
-- Reading back a loss report that was written, and its size.
use gosrt.Common.{
  All, ℕ, ◌+◌, ◌-◌, ◌*◌, ◌/◌, ◌%◌, ◌^◌, ◌≤◌, ◌<◌, ◌≡◌, refl, sym, ap, ap₂, ◌∙◌, arith, Bool, true,
  false, Bool-cases, leb→le, inl, inr, ◌⊎◌, List, [], ◌∷◌, ◌++◌, append-nil, length, length-append,
  leb, ◌==◌, if◌then◌else◌, bit_and, bit_or,
}
use gosrt.Common.Bits.{bit_and_31, bit_or_31}
use gosrt.Circular.{Number, new}
use gosrt.Circular.Offset.{IsSeq, new-IsSeq}
use gosrt.Packet.Types.{max_payload_size}
use gosrt.Packet.Wire.{ok, ◌>>=◌, put32, uint32}
use gosrt.Packet.Header.{is_set}
use gosrt.Packet.Header.Fields.{data_byte, is_set-bit}
use gosrt.Packet.Ack.RoundTrip.{read_written}
use gosrt.Packet.Ack.{read_sequence_number}
use gosrt.Packet.Wire.{flag_0x80}
use gosrt.Packet.Nak.{same, read, unmarshal, write, marshal}

same_eq : (a b : Number) → IsSeq a → IsSeq b → same a b ≡ true → a ≡ b
same_eq a b p q e = sym (new-IsSeq a p) ∙ ap (λ t. new t 0x7fff_ffff) (ground arith) ∙ new-IsSeq b q

-- A number that starts a range has the top bit of its word set.
marked : (a : Number) → IsSeq a → is_set (bit_or a.value 0x8000_0000 / 2 ^ 24 % 2 ^ 8) 0x80 ≡ true
marked a p =
    let e = bit_or_31 a.value (omega (arith, p.in_range)) in
    let b = bit_or a.value 0x8000_0000 / 2 ^ 24 % 2 ^ 8 in
    is_set-bit b 0x80 128 true (omega arith) (omega (arith, flag_0x80 b (omega arith), p.in_range))

read_marked :
    (a : Number) → IsSeq a → read_sequence_number (put32 (bit_or a.value 0x8000_0000)) 0 ≡ a
read_marked a p =
    let w = bit_or a.value 0x8000_0000 in
    let e = bit_or_31 a.value (omega (arith, p.in_range)) in
    let m : (bit_and (uint32 (put32 w) 0) 0x7fff_ffff ≡ a.value) =
      bit_and_31 (uint32 (put32 w) 0) ∙ omega (arith, p.in_range) in
    ap (λ t. new t 0x7fff_ffff) m ∙ new-IsSeq a p

read_single :
    (a : Number) (xs : List ℕ) → IsSeq a → read false (put32 a.value ++ xs) ≡ a ∷ a ∷ read false xs
unfolding read
read_single a xs p =
    rw (data_byte a.value p.in_range)
      (ap₂ (λ s t. s ∷ t ∷ read false xs) (read_written a p) (read_written a p))

read_end :
    (b : Number) (xs : List ℕ) → IsSeq b → read true (put32 b.value ++ xs) ≡ b ∷ read false xs
unfolding read
read_end b xs q = rw (data_byte b.value q.in_range) (ap (λ s. s ∷ read false xs) (read_written b q))

read_start :
    (a : Number) (xs : List ℕ)
    → IsSeq a
    → read false (put32 (bit_or a.value 0x8000_0000) ++ xs) ≡ a ∷ read true xs
unfolding read
read_start a xs p = rw (marked a p) (ap (λ s. s ∷ read true xs) (read_marked a p))

read_pair :
    (a b : Number) (xs : List ℕ)
    → IsSeq a
    → IsSeq b
    → (s : Bool) → same a b ≡ s
    → read false
        ((if s then put32 a.value else put32 (bit_or a.value 0x8000_0000) ++ put32 b.value) ++ xs)
      ≡ a ∷ b ∷ read false xs
read_pair a b xs p q true e =
    read_single a xs p ∙ ap (λ t. a ∷ t ∷ read false xs) (same_eq a b p q e)
read_pair a b xs p q false e = read_start a (put32 b.value ++ xs) p ∙ ap (◌∷◌ a) (read_end b xs q)

-- The bytes of one pair.
abbrev bytes_of : Number → Number → List ℕ
bytes_of a b =
    if same a b then put32 a.value else put32 (bit_or a.value 0x8000_0000) ++ put32 b.value

bytes_of-length : (a b : Number) → (length (bytes_of a b) ≡ 4) ⊎ (length (bytes_of a b) ≡ 8)
bytes_of-length a b = elim (Bool-cases (same a b)) [
  | inl e ↦ inl (rw e refl)
  | inr e ↦ inr (rw e refl)
]

bytes_of_most : (a b : Number) → length (bytes_of a b) ≤ 8
bytes_of_most a b = elim (bytes_of-length a b) [ inl e ↦ omega arith | inr e ↦ omega arith ]

-- What the writer of a loss report got to: `rest` are the pairs that found no room.
record Written (w : ℕ) (l : List Number) : Type 0 where
  rest : List Number
  split : l ≡ read false (write w l) ++ rest
  all : w + 4 * length l ≤ max_payload_size → rest ≡ []
  even : length (read false (write w l)) % 2 ≡ 0

read-write :
    (w : ℕ) (a b : Number) (l : List Number) (c : Bool)
    → IsSeq a
    → IsSeq b
    → leb (max_payload_size - 4) (w + length (bytes_of a b)) ≡ c
    → read false (write w (a ∷ b ∷ l))
      ≡ a ∷ b ∷ read false (if c then [] else write (w + length (bytes_of a b)) l)
unfolding write
read-write w a b l c p q e =
    read_pair a b _ p q (same a b) refl
    ∙ ap (λ c. a ∷ b ∷ read false (if c then [] else write (w + length (bytes_of a b)) l)) e

write_pair :
    (w : ℕ) (a b : Number) (l : List Number)
    → IsSeq a
    → IsSeq b
    → length l % 2 ≡ 0
    → Written (w + length (bytes_of a b)) l
    → Written w (a ∷ b ∷ l)
unfolding read
write_pair w a b l p q e r =
    let n = w + length (bytes_of a b) in
    elim (Bool-cases (leb (max_payload_size - 4) n)) [
      | inl c ↦
          let x = read-write w a b l true p q c in
          record {
            rest = l;
            split = rw x refl;
            all = λ h. full l e (leb→le _ _ c) h;
            even = rw x refl;
          }
      | inr c ↦
          let x = read-write w a b l false p q c in
          record {
            rest = r.rest;
            split = rw x (ap (λ t. a ∷ b ∷ t) r.split);
            all = λ h. r.all (omega (arith, bytes_of_most a b));
            even = rw x (omega (arith, r.even));
          }
    ]
  where
    full :
        (l : List Number)
        → length l % 2 ≡ 0
        → max_payload_size - 4 ≤ w + length (bytes_of a b)
        → w + 4 * length (a ∷ b ∷ l) ≤ max_payload_size
        → l ≡ []
    full [] e h k = refl
    full (x ∷ []) e h k = absurd (omega arith)
    full (x ∷ y ∷ l) e h k = absurd (omega (arith, bytes_of_most a b))

write-Written : (w : ℕ) (l : List Number) → All IsSeq l → length l % 2 ≡ 0 → Written w l
unfolding write read
write-Written w [] h e = record { rest = []; split = refl; all = λ _. refl; even = refl }
write-Written w (a ∷ []) h e = absurd (omega arith)
write-Written w (a ∷ b ∷ l) h e =
    write_pair w a b l h.0 h.1.0 (omega arith)
      (write-Written (w + length (bytes_of a b)) l h.1.1 (omega arith))

-- Whole words, within the payload.
record Sized (w : ℕ) (bs : List ℕ) : Type 0 where
  words : length bs % 4 ≡ 0
  within : w + length bs ≤ max_payload_size

Sized-append :
    (w : ℕ) (xs ys : List ℕ) → length xs % 4 ≡ 0 → Sized (w + length xs) ys → Sized w (xs ++ ys)
Sized-append w xs ys e s = record {
  words = omega (arith, length-append xs ys, s.words);
  within = omega (arith, length-append xs ys, s.within);
}

Sized-unless :
    (n : ℕ) (ys : List ℕ) (c : Bool)
    → leb (max_payload_size - 4) n ≡ c
    → n ≤ max_payload_size
    → (n < max_payload_size - 4 → Sized n ys)
    → Sized n (if c then [] else ys)
Sized-unless n ys true e h s = record { words = refl; within = omega arith }
Sized-unless n ys false e h s = s (ground arith)

write-Sized : (w : ℕ) (l : List Number) → w % 4 ≡ 0 → w ≤ max_payload_size - 8 → Sized w (write w l)
unfolding write
write-Sized w [] h k = record { words = refl; within = omega arith }
write-Sized w (a ∷ []) h k = record { words = refl; within = omega arith }
write-Sized w (a ∷ b ∷ l) h k =
    let n = w + length (bytes_of a b) in
    let m : (length (bytes_of a b) % 4 ≡ 0) = elim (bytes_of-length a b) [
      | inl e ↦ omega arith
      | inr e ↦ omega arith
    ] in
    Sized-append w (bytes_of a b) _ m (
      Sized-unless n (write n l) (leb (max_payload_size - 4) n) refl
        (omega (arith, bytes_of_most a b)) (λ t. write-Sized n l (omega arith) (omega arith)))

-- A loss report of any numbers that is written fits the payload of a packet.
marshal-fits : (l : List Number) (bs : List ℕ) → marshal l ≡ ok bs → length bs ≤ max_payload_size
unfolding marshal
marshal-fits l bs e = let s = (write-Sized 0 l refl (omega arith)).within in ground (arith, s)

read_back :
    (sort : List Number → List Number) (l : List Number)
    → All IsSeq l
    → length l % 2 ≡ 0
    → (marshal l >>= unmarshal sort) ≡ ok (sort (read false (write 0 l)))
unfolding marshal unmarshal
read_back sort l h e =
    let s = (write-Sized 0 l refl (omega arith)).words in
    let r = (write-Written 0 l h e).even in
    let q : (((length l % 2) == 0) ≡ true) = ground arith in
    let q1 : (((length (write 0 l) % 4) == 0) ≡ true) = ground arith in
    let q2 : (((length (read false (write 0 l)) % 2) == 0) ≡ true) = ground arith in
    rw (q, q1, q2) refl

-- For an even number of valid sequence numbers: the report is written, and reading what was written
-- gives, sorted, the numbers at the front of the list.
unmarshal-marshal_prefix :
    (sort : List Number → List Number) (l : List Number)
    → All IsSeq l
    → length l % 2 ≡ 0
    → (kept : List Number) × (rest : List Number) × (l ≡ kept ++ rest)
      × ((marshal l >>= unmarshal sort) ≡ ok (sort kept))
unmarshal-marshal_prefix sort l h e =
    let r = write-Written 0 l h e in (read false (write 0 l), r.rest, r.split, read_back sort l h e)

-- A loss report of at most 364 valid sequence numbers, in pairs, is written whole: reading what was
-- written gives the same numbers, sorted.
pub unmarshal-marshal-Nak :
    (sort : List Number → List Number) (l : List Number)
    → All IsSeq l
    → length l % 2 ≡ 0
    → length l ≤ 364
    → (marshal l >>= unmarshal sort) ≡ ok (sort l)
unmarshal-marshal-Nak sort l h e k =
    let r = write-Written 0 l h e in
    let q : (read false (write 0 l) ≡ l) =
      sym (append-nil _)
      ∙ (ap (λ t. read false (write 0 l) ++ t) (sym (r.all (omega arith))) ∙ sym r.split) in
    read_back sort l h e ∙ ap (λ t. ok (sort t)) q

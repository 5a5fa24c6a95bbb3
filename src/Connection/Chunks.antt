-- ===== src/Connection/Chunks.antt =====
-- connection.go: what `Write` puts into the queue, and what `Read` makes of it.
use gosrt.Common.{
  ℕ, ◌+◌, ◌*◌, ◌-◌, ◌≤◌, ◌<◌, ◌≡◌, inl, inr, refl, sym, ap, ap₂, ◌∙◌, arith, true, false, not, ◌&&◌,
  ◌||◌, Bool-cases, some, List, [], ◌∷◌, ◌++◌, append_assoc, length, length-append, take, drop, All,
  ltb, lt→ltb, ◌==◌, ==_iff, suc, zero,
}
use gosrt.Packet.Types.{Packet, payload_data, new_packet}
use gosrt.Congestion.Float.{Float64}
use gosrt.Crypto.{Primitives}
use gosrt.Connection.Pop.{Conn, get_timestamp}
use gosrt.Connection.Data.{queue_size}
use gosrt.Connection.Stream.{data_packet, result_of, write_loop, write}

-- The bytes that some packets carry.
abbrev pub carried : List Packet → List ℕ
carried [] = []
carried (p ∷ ps) = payload_data p ++ carried ps

-- A data packet with at least one byte and at most `n`, and with the time of the write.
abbrev pub IsChunk : ℕ → ℕ → Packet → Type 0
IsChunk n clock p =
    (p.header.is_control_packet ≡ false)
    × (p.header.pkt_tsbpd_time ≡ get_timestamp clock)
    × (1 ≤ length (payload_data p))
    × (length (payload_data p) ≤ n)

module _ {ℓ} {A : Type ℓ} where
  take-append-drop : (n : ℕ) (xs : List A) → take n xs ++ drop n xs ≡ xs
  take-append-drop zero xs = refl
  take-append-drop (suc n) [] = refl
  take-append-drop (suc n) (x ∷ xs) = ap (◌∷◌ x) (take-append-drop n xs)

  length-drop : (n : ℕ) (xs : List A) → length (drop n xs) ≡ length xs - n
  length-drop zero xs = omega arith
  length-drop (suc n) [] = omega arith
  length-drop (suc n) (x ∷ xs) = omega (arith, length-drop n xs)

  length-zero : (xs : List A) → length xs ≡ 0 → xs ≡ []
  length-zero [] e = refl
  length-zero (x ∷ xs) e = absurd (omega arith)

take-IsChunk :
    (n clock : ℕ) (b : List ℕ)
    → 0 < n
    → 0 < length b
    → IsChunk n clock (data_packet clock (take n b))
unfolding data_packet new_packet
take-IsChunk n clock b h k =
    let e = ap (λ (xs : List ℕ). length xs) (take-append-drop n b) in
    let a = length-append (take n b) (drop n b) in
    let d = length-drop n b in (refl, refl, omega arith, omega arith)

suc-mul_lem : (m n : ℕ) → suc m * n ≡ m * n + n
suc-mul_lem m n = grind arith

module _ (fl : Float64) (pr : Primitives) where
  -- The loop, with room for `m` packets.
  write_loop-Chunks :
      (m fuel : ℕ) (c : Conn fl pr) (clock : ℕ)
      → m < fuel
      → c.closed ≡ false
      → 0 < c.write_data_size
      → 0 < length c.write_buffer
      → length c.write_buffer ≤ m * c.write_data_size
      → length c.write_queue + m ≤ queue_size
      → (ps : List Packet) × (write_loop fl pr fuel c clock
          ≡ some (true, record c { write_queue = c.write_queue ++ ps; write_buffer = [] }))
        × (carried ps ≡ c.write_buffer)
        × All (IsChunk c.write_data_size clock) ps
  unfolding write_loop data_packet
  write_loop-Chunks zero fuel c clock f o s b l q = absurd (omega arith)
  write_loop-Chunks (suc m) zero c clock f o s b l q = absurd (omega arith)
  write_loop-Chunks (suc m) (suc fuel) c clock f o s b l q =
      let n = c.write_data_size in
      let p = data_packet clock (take n c.write_buffer) in
      let e : ((length c.write_buffer == 0) && not (n == 0) ≡ false) = ground arith in
      let room : ((c.closed || not (ltb (length c.write_queue) queue_size)) ≡ false) =
        ap₂ (λ x y. x || not y) o (lt→ltb _ _ (omega arith)) in
      let d = length-drop n c.write_buffer in
      elim (Bool-cases (length (drop n c.write_buffer) == 0)) [
        | inl t ↦
            let last = length-zero (drop n c.write_buffer) ((==_iff _ _).0 t) in
            (
              p ∷ [],
              rw (e, room, t)
                  (ap
                    (λ x. some (
                      true,
                      record c { write_queue = c.write_queue ++ (p ∷ []); write_buffer = x },
                    ))
                    last),
              ap (λ x. take n c.write_buffer ++ x) (sym last) ∙ take-append-drop n c.write_buffer,
              (take-IsChunk n clock c.write_buffer s b, tt),
            )
        | inr t ↦
            let c' = record c {
              write_queue = c.write_queue ++ (p ∷ []);
              write_buffer = drop n c.write_buffer;
            } in
            let (ps, r, k, a) =
              write_loop-Chunks m fuel c' clock (omega arith) o s (ground (arith, t))
                (omega (arith, d, suc-mul_lem m n))
                (omega (arith, length-append c.write_queue (p ∷ []))) in
            (
              p ∷ ps,
              rw (e, room, t)
                  (r
                    ∙ ap (λ x. some (true, record c { write_queue = x; write_buffer = [] }))
                        (append_assoc c.write_queue (p ∷ []) ps)),
              ap (λ x. take n c.write_buffer ++ x) k ∙ take-append-drop n c.write_buffer,
              (take-IsChunk n clock c.write_buffer s b, a),
            )
      ]

  -- A write of some bytes to an open connection, whose write queue has room for enough packets, returns
  -- their number and adds data packets to the queue that carry what was left in the buffer and the
  -- bytes, in order and without a gap; no packet is empty or larger than the write size, and each has
  -- the time of the write. The buffer is empty afterwards, and nothing else changes.
  pub write-Chunks :
      (c : Conn fl pr) (clock : ℕ) (b : List ℕ) (m : ℕ)
      → c.closed ≡ false
      → 0 < c.write_data_size
      → 0 < length b
      → length c.write_buffer + length b ≤ m * c.write_data_size
      → length c.write_queue + m ≤ queue_size
      → (ps : List Packet) × (write fl pr c clock b
          ≡ some
              (some (length b), record c { write_queue = c.write_queue ++ ps; write_buffer = [] }))
        × (carried ps ≡ c.write_buffer ++ b)
        × All (IsChunk c.write_data_size clock) ps
  unfolding write
  write-Chunks c clock b m o s k l q =
      let a = length-append c.write_buffer b in
      let (ps, r, e, h) =
        write_loop-Chunks m (queue_size + 1) (record c { write_buffer = c.write_buffer ++ b }) clock
          (omega arith) o s (omega arith) (omega arith) q in
      (ps, ap (result_of fl pr (length b)) r, e, h)

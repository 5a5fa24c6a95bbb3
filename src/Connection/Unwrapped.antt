-- ===== src/Connection/Unwrapped.antt =====
-- connection.go: the delivery time across the wrap-around of the 32-bit timestamp.
use gosrt.Common.{
  ℕ, ◌+◌, ◌*◌, ◌-◌, ◌%◌, ◌^◌, ◌≤◌, ◌<◌, ◌≡◌, ◌⊎◌, inl, inr, refl, sym, ap, arith, Bool, true, false,
  ◌&&◌, List, [], ◌∷◌, map, ltb, leb, ltb→lt, le→ltb_false, le→leb, Bool-cases, ap₂, subst,
  if◌then◌else◌, u32, u64,
}
use gosrt.Packet.Types.{max_timestamp}
use gosrt.Congestion.Float.{Float64}
use gosrt.Crypto.{Primitives}
use gosrt.Connection.Pop.{Conn}
use gosrt.Connection.Data.{half_minute, wrap_step, packet_offset, tsbpd_wrap, tsbpd_time}

-- The later of two times.
abbrev pub later : ℕ → ℕ → ℕ
later a b = if ltb a b then b else a

-- Outside a wrap period the newest time is in the era of the offset, and past its first 30 seconds
-- unless it is the first era; in a period it is near the end of the era.
abbrev pub InEra : Bool → ℕ → ℕ → Type 0
InEra false e newest =
    ((e ≡ 0) ⊎ (e * 2 ^ 32 + half_minute ≤ newest))
    × (newest ≤ e * 2 ^ 32 + (max_timestamp - half_minute))
InEra true e newest =
    (e * 2 ^ 32 + (max_timestamp - half_minute) < newest)
    × (newest < e * 2 ^ 32 + (2 ^ 32 + half_minute))

-- The state has followed the times up to the newest.
abbrev pub Follows : Bool → ℕ → ℕ → Type 0
Follows wraps offset newest = (e : ℕ) × (offset ≡ e * 2 ^ 32) × InEra wraps e newest

-- A time at most 30 seconds from the newest, which 64 bits hold.
abbrev pub Near : ℕ → ℕ → Type 0
Near newest t = (newest < t + half_minute) × (t < newest + half_minute) × (t + 2 ^ 34 < 2 ^ 64)

later-le : (a b : ℕ) → (a ≤ later a b) × (b ≤ later a b) × ((later a b ≡ a) ⊎ (later a b ≡ b))
later-le a b = ground arith

ltb_false→le : (a b : ℕ) → ltb a b ≡ false → b ≤ a
ltb_false→le a b h = ground arith

lt→leb_false : (a b : ℕ) → b < a → leb a b ≡ false
lt→leb_false a b h = ground arith

and_false : (b : Bool) → b && false ≡ false
and_false true = refl
and_false false = refl

step_false :
    (offset newest t : ℕ)
    → Follows false offset newest
    → Near newest t
    → let s = wrap_step false offset (u32 t) in
      Follows s.0 s.1 (later newest t) × (packet_offset s.0 s.1 (u32 t) + u32 t ≡ t)
unfolding wrap_step packet_offset
step_false offset newest t (e, o, (lo, hi)) (a, b, c) =
    let ts = t % 2 ^ 32 in
    let low : (e * 2 ^ 32 ≤ t) = elim lo [ inl z ↦ omega arith | inr z ↦ omega arith ] in
    let m : (t ≡ e * 2 ^ 32 + ts) = omega arith in
    let g = later-le newest t in
    elim (Bool-cases (ltb (max_timestamp - half_minute) ts)) [
      | inl k ↦
          let z = ltb→lt _ _ k in
          rw (k, le→ltb_false ts half_minute (omega arith))
            ((e, o, (omega (arith, g), omega (arith, g))), omega arith)
      | inr k ↦
          let z = ltb_false→le _ _ k in
          rw k (
            (e, o, (elim lo [ inl y ↦ inl y | inr y ↦ inr (omega (arith, g)) ], omega (arith, g))),
            omega arith,
          )
    ]

step_true :
    (offset newest t : ℕ)
    → Follows true offset newest
    → Near newest t
    → let s = wrap_step true offset (u32 t) in
      Follows s.0 s.1 (later newest t) × (packet_offset s.0 s.1 (u32 t) + u32 t ≡ t)
unfolding wrap_step packet_offset
step_true offset newest t (e, o, (lo, hi)) (a, b, c) =
    let ts = t % 2 ^ 32 in
    let g = later-le newest t in
    elim (Bool-cases (ltb t (e * 2 ^ 32 + 2 ^ 32))) [
      | inl k ↦
          let z = ltb→lt _ _ k in
          let m : (t ≡ e * 2 ^ 32 + ts) = omega arith in
          rw
            (
              lt→leb_false ts 60_000_000 (omega arith),
              and_false (leb half_minute ts),
              le→ltb_false ts half_minute (omega arith),
            )
            ((e, o, (omega (arith, g), omega (arith, g))), omega arith)
      | inr k ↦
          let z = ltb_false→le _ _ k in
          let m : (t ≡ (e + 1) * 2 ^ 32 + ts) = omega arith in
          let u : (u64 (offset + 2 ^ 32) ≡ (e + 1) * 2 ^ 32) = omega arith in
          elim (Bool-cases (ltb ts half_minute)) [
            | inl l ↦
                let y = ltb→lt _ _ l in
                rw (lt→leb_false half_minute ts y, l, u)
                  ((e, o, (omega (arith, g), omega (arith, g))), omega arith)
            | inr l ↦
                let y = ltb_false→le _ _ l in
                rw (le→leb half_minute ts y, le→leb ts 60_000_000 (omega arith), u)
                  ((e + 1, refl, (inr (omega (arith, g)), omega (arith, g))), omega arith)
          ]
    ]

-- The state keeps following, and the packet gets its whole time.
step-Follows :
    (wraps : Bool) (offset newest t : ℕ)
    → Follows wraps offset newest
    → Near newest t
    → let s = wrap_step wraps offset (u32 t) in
      Follows s.0 s.1 (later newest t) × (packet_offset s.0 s.1 (u32 t) + u32 t ≡ t)
step-Follows true = step_true
step-Follows false = step_false

-- Packets that were sent at some times, in the order of their arrival, each within 30 seconds of the
-- newest before.
abbrev pub Arrivals : ℕ → List ℕ → Type 0
Arrivals newest [] = Unit
Arrivals newest (t ∷ ts) = Near newest t × Arrivals (later newest t) ts

module _ {fl : Float64} {pr : Primitives} where
  -- The delivery times that the connection computes from the timestamps, which are 32 bits of the
  -- times of sending, one packet after the other.
  abbrev pub computed_times : Conn fl pr → List ℕ → List ℕ
  computed_times c [] = []
  computed_times c (t ∷ ts) =
      let c' = tsbpd_wrap fl pr c (u32 t) in tsbpd_time fl pr c' (u32 t) ∷ computed_times c' ts

  -- The times at which the packets are due.
  abbrev pub due_times : Conn fl pr → List ℕ → List ℕ
  due_times c ts = map (λ t. u64 (c.tsbpd_time_base + t + c.tsbpd_delay + c.tsbpd_drift)) ts

  times_follow :
      (c : Conn fl pr) (newest : ℕ) (ts : List ℕ)
      → Follows c.tsbpd_wrap_period c.tsbpd_time_base_offset newest
      → Arrivals newest ts
      → computed_times c ts ≡ due_times c ts
  unfolding tsbpd_wrap tsbpd_time
  times_follow c newest [] f h = refl
  times_follow c newest (t ∷ ts) f (near, h) =
      let (g, e) = step-Follows c.tsbpd_wrap_period c.tsbpd_time_base_offset newest t f near in
      let s = wrap_step c.tsbpd_wrap_period c.tsbpd_time_base_offset (u32 t) in
      ap₂ (◌∷◌) (ap (λ x. u64 (x + c.tsbpd_delay + c.tsbpd_drift)) (omega (arith, e)))
        (times_follow (tsbpd_wrap fl pr c (u32 t)) (later newest t) ts g h)

  -- From the start of a connection: where each packet was sent within 30 seconds of the newest of
  -- those before it, the first within the first 30 seconds, every packet gets the base time and the
  -- delay on top of its whole time of sending, however often its 32-bit timestamp wrapped.
  pub computed_times-due :
      (c : Conn fl pr) (ts : List ℕ)
      → c.tsbpd_wrap_period ≡ false
      → c.tsbpd_time_base_offset ≡ 0
      → Arrivals 0 ts
      → computed_times c ts ≡ due_times c ts
  computed_times-due c ts w o h =
      times_follow c 0 ts
        (subst (λ b. Follows b c.tsbpd_time_base_offset 0) (sym w) (0, o, (inl refl, omega arith)))
        h

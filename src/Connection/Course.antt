-- ===== src/Connection/Course.antt =====
-- connection.go: what becomes of the keys over any number of data packets.
use gosrt.Common.{
  ℕ, ◌+◌, ◌*◌, ◌-◌, ◌/◌, ◌^◌, ◌≤◌, ◌<◌, ◌≡◌, inl, inr, refl, arith, some, List, [], ◌∷◌, ◌++◌,
  length, suc, Option, ap, ◌∙◌, subst, zero,
}
use gosrt.Packet.Types.{Packet}
use gosrt.Congestion.Float.{Float64}
use gosrt.Config.{Config}
use gosrt.Crypto.{Primitives, Crypto}
use gosrt.Crypto.Keys.{HasKeys, FillsBuffers}
use gosrt.Crypto.Exchange.{Laws}
use gosrt.Connection.State.{Output}
use gosrt.Connection.Pop.{Conn, pop_all}
use gosrt.Connection.Announced.{switched, secret, IsOne, Sends-append, Sends-behind, AllData}
use gosrt.Connection.Schedule.{At, Holds, Told, pop-Next, next_request, suc-mul_rate}

-- The second period.
pub second : (q r n rate : ℕ) → r < rate → rate ≤ n → n < 2 * rate → n ≡ q * rate + r → q ≡ 1
second zero r n rate l a b e = absurd (omega arith)
second (suc zero) r n rate l a b e = refl
second (suc (suc q)) r n rate l a b e =
    let two : (suc (suc q) * rate ≡ q * rate + 2 * rate) = grind arith in absurd (omega arith)

module _ (fl : Float64) (pr : Primitives) (fills : FillsBuffers pr) (laws : Laws pr) (cfg : Config)
    (first : ℕ) (one : IsOne first) (early : 1 ≤ cfg.km_pre_announce)
    (half : cfg.km_pre_announce ≤ cfg.km_refresh_rate / 2)
    (fits : cfg.km_refresh_rate < 2 ^ 64) where
  abbrev pub Reached : ℕ → ℕ → Conn fl pr → Type 0
  Reached q r c = At fl pr fills laws cfg first one early half fits q r c

  -- The place in the schedule after some packets.
  abbrev pub Place : ℕ → Conn fl pr → Type 0
  Place n d =
      (q : ℕ) × (r : ℕ) × (n ≡ q * cfg.km_refresh_rate + r)
      × (r < cfg.km_refresh_rate)
      × Reached q r d

  abbrev Step : ℕ → Conn fl pr → Conn fl pr → Type 0
  Step r c d = Holds fl pr fills laws cfg first one early half fits r c d

  abbrev pub Says : Crypto → ℕ → List Output → Type 0
  Says cr q os = Told fl pr fills laws cfg first one early half fits cr q os

  abbrev pub Same : ℕ → Option Crypto → Option Crypto → Type 0
  Same q a b = secret (switched q first) a ≡ secret (switched q first) b

  -- What becomes of the keys over `n` packets: the key in use stays until the switch; the other one
  -- stays from its renewal to the end of the period in which it is used; and what was announced is that
  -- one.
  pub record Course (q r n : ℕ) (c : Conn fl pr) (os : List Output) (d : Conn fl pr) : Type 0 where
    used : r + n < cfg.km_refresh_rate → Same q d.crypto c.crypto
    other :
        2 * cfg.km_pre_announce < cfg.km_refresh_rate
        → cfg.km_pre_announce ≤ r
        → cfg.km_refresh_rate ≤ r + n
        → r + n < 2 * cfg.km_refresh_rate
        → Same (suc q) d.crypto c.crypto
    pub announced :
        r < cfg.km_refresh_rate - cfg.km_pre_announce
        → cfg.km_refresh_rate - cfg.km_pre_announce ≤ r + n
        → (cr : Crypto) × HasKeys cr
          × Says cr q os
          × (2 * cfg.km_pre_announce < cfg.km_refresh_rate
              → cfg.km_refresh_rate ≤ r + n
              → r + n < 2 * cfg.km_refresh_rate
              → Same (suc q) d.crypto (some cr))

  kept_inside :
      (q r n : ℕ) (c d d' : Conn fl pr) (os qs : List Output) (m : Reached q r c)
      → r + 1 < cfg.km_refresh_rate
      → Reached q (r + 1) d
      → Step r c d
      → (r + 1 ≡ cfg.km_refresh_rate - cfg.km_pre_announce → Says m.crypto q os)
      → Course q (r + 1) n d qs d'
      → Course q r (suc n) c (os ++ qs) d'
  kept_inside q r n c d d' os qs m i a step sent k = record {
    used = λ h.
        k.used (omega arith) ∙ subst (λ x. secret x d.crypto ≡ secret x c.crypto) a.key step.used;
    other = λ g l u v.
        k.other g (omega arith) (omega arith) (omega arith)
        ∙ ap (secret (switched (suc q) first)) (step.both (λ z. absurd (omega arith)));
    announced = λ l u. elim (next_request fl pr fills laws cfg first one early half fits r l) [
      | inl w ↦ (
        m.crypto,
        m.keys,
        Sends-append _ os qs (sent w),
        λ g x y.
            k.other g (omega arith) (omega arith) (omega arith)
            ∙ (ap (secret (switched (suc q) first)) (step.both (λ z. absurd (omega arith)))
                ∙ ap (secret (switched (suc q) first)) m.has),
      )
      | inr w ↦
          let (cr, keys, told, same) = k.announced w (omega arith) in
          (cr, keys, Sends-behind _ os qs told, λ g x y. same g (omega arith) (omega arith))
    ];
  }

  kept_end :
      (q r n : ℕ) (c d d' : Conn fl pr) (os qs : List Output)
      → r + 1 ≡ cfg.km_refresh_rate
      → Reached (suc q) 0 d
      → Step r c d
      → Course (suc q) 0 n d qs d'
      → Course q r (suc n) c (os ++ qs) d'
  kept_end q r n c d d' os qs i a step k = record {
    used = λ h. absurd (omega arith);
    other = λ g l u v.
        k.used (omega arith) ∙ subst (λ x. secret x d.crypto ≡ secret x c.crypto) a.key step.used;
    announced = λ l u. absurd (omega arith);
  }

  pub pop_all-Place :
      (q r : ℕ) (c : Conn fl pr) (clock : ℕ) (ps : List Packet)
      → AllData ps
      → r < cfg.km_refresh_rate
      → Reached q r c
      → (d : Conn fl pr) × (os : List Output) × (pop_all fl pr c clock ps ≡ some (d, os))
        × Place (q * cfg.km_refresh_rate + r + length ps) d
        × Course q r (length ps) c os d
  unfolding pop_all
  pop_all-Place q r c clock [] plain h m = (
    c,
    [],
    refl,
    (q, r, omega arith, h, m),
    record {
      used = λ _. refl;
      other = λ g l u v. absurd (omega arith);
      announced = λ a b. absurd (omega arith);
    },
  )
  pop_all-Place q r c clock (p ∷ ps) (plain, others) h m =
      let (d, os, e, next, step, sent) =
        pop-Next fl pr fills laws cfg first one early half fits q r c clock p plain h m in
      elim next [
        | inl (i, a) ↦
            let (d', qs, e', (q', r', n, l, a'), k) =
              pop_all-Place q (r + 1) d clock ps others i a in
            (
              d',
              os ++ qs,
              rw e (rw e' refl),
              (q', r', omega (arith, n), l, a'),
              kept_inside q r (length ps) c d d' os qs m i a step sent k,
            )
        | inr (i, a) ↦
            let (d', qs, e', (q', r', n, l, a'), k) =
              pop_all-Place (suc q) 0 d clock ps others (omega arith) a in
            (
              d',
              os ++ qs,
              rw e (rw e' refl),
              (
                q',
                r',
                omega (arith, n, suc-mul_rate fl pr fills laws cfg first one early half fits q),
                l,
                a',
              ),
              kept_end q r (length ps) c d d' os qs i a step k,
            )
      ]

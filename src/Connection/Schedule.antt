-- ===== src/Connection/Schedule.antt =====
-- connection.go: the schedule of the keys, over the data packets that leave a connection.
use gosrt.Common.{
  ℕ, ◌+◌, ◌*◌, ◌-◌, ◌/◌, ◌^◌, ◌≤◌, ◌<◌, ◌≡◌, ◌⊎◌, inl, inr, refl, ap, ap₂, ◌∙◌, arith, true, false,
  not, ◌&&◌, Bool-cases, some, List, [], ◌∷◌, ◌++◌, ◌==◌, ==_iff, if◌then◌else◌, u64, sub64, suc,
  sym, subst, ◌≢◌,
}
use gosrt.Packet.Types.{Packet, opposite}
use gosrt.Congestion.Float.{Float64}
use gosrt.Config.{Config}
use gosrt.Crypto.{Primitives, Crypto, generate_sek}
use gosrt.Crypto.Keys.{HasKeys, FillsBuffers, generate_sek-HasKeys}
use gosrt.Crypto.Exchange.{Laws}
use gosrt.Crypto.Written.{message-written}
use gosrt.Connection.State.{Output, on_send}
use gosrt.Connection.Pop.{
  Conn, request, send_km_request, control_packet, count_down, announce_key, switch_key, renew_key,
  seal, address, pop_data, pop, ctrltype_user, exttype_kmreq,
}
use gosrt.Connection.Announced.{
  switched, secret, IsOne, IsAnnouncement, Sends, IsOne→IsKey, opposite-IsOne, switched-IsOne,
  Sends-append, generate_sek-secret,
}

module _ (fl : Float64) (pr : Primitives) (fills : FillsBuffers pr) (laws : Laws pr) (cfg : Config)
    (first : ℕ) (one : IsOne first) (early : 1 ≤ cfg.km_pre_announce)
    (half : cfg.km_pre_announce ≤ cfg.km_refresh_rate / 2)
    (fits : cfg.km_refresh_rate < 2 ^ 64) where
  -- After `q` switches and `r` packets of the running period.
  pub record At (q r : ℕ) (c : Conn fl pr) : Type 0 where
    pub config : c.config ≡ cfg
    pub key : c.key_base_encryption ≡ switched q first
    pub refresh : c.km_refresh_countdown ≡ cfg.km_refresh_rate - r
    pub before :
        r < cfg.km_refresh_rate - cfg.km_pre_announce
        → c.km_pre_announce_countdown ≡ cfg.km_refresh_rate - cfg.km_pre_announce - r
    pub unconfirmed : c.km_confirmed ≡ false
    pub crypto : Crypto
    pub has : c.crypto ≡ some crypto
    pub keys : HasKeys crypto

  -- The same, once the packet that comes next is counted.
  record Counted (q r : ℕ) (c : Conn fl pr) : Type 0 where
    config : c.config ≡ cfg
    key : c.key_base_encryption ≡ switched q first
    refresh : c.km_refresh_countdown ≡ cfg.km_refresh_rate - (r + 1)
    before :
        r + 1 < cfg.km_refresh_rate - cfg.km_pre_announce
        → c.km_pre_announce_countdown ≡ cfg.km_refresh_rate - cfg.km_pre_announce - (r + 1)
    unconfirmed : c.km_confirmed ≡ false
    crypto : Crypto
    has : c.crypto ≡ some crypto
    keys : HasKeys crypto

  switch_inside :
      (q r : ℕ) (c : Conn fl pr)
      → r + 1 < cfg.km_refresh_rate
      → Counted q r c
      → At q (r + 1) (switch_key fl pr c)
  unfolding switch_key
  switch_inside q r c h m =
      let t : ((c.km_refresh_countdown == 0) ≡ false) = ground (arith, m.refresh) in
      rw t (record {
        config = m.config;
        key = m.key;
        refresh = m.refresh;
        before = m.before;
        unconfirmed = m.unconfirmed;
        crypto = m.crypto;
        has = m.has;
        keys = m.keys;
      })

  switch_end :
      (q r : ℕ) (c : Conn fl pr)
      → r + 1 ≡ cfg.km_refresh_rate
      → Counted q r c
      → At (suc q) 0 (switch_key fl pr c)
  unfolding switch_key
  switch_end q r c h m =
      let t : ((c.km_refresh_countdown == 0) ≡ true) = ground (arith, m.refresh) in
      let s : (sub64 cfg.km_refresh_rate cfg.km_pre_announce
          ≡ cfg.km_refresh_rate - cfg.km_pre_announce - 0) =
        omega arith in
      let f = ap (λ (x : Config). x.km_refresh_rate) m.config in
      rw t (record {
        config = m.config;
        key = ap opposite m.key;
        refresh = omega (arith, f);
        before = λ _. ap (λ (x : Config). sub64 x.km_refresh_rate x.km_pre_announce) m.config ∙ s;
        unconfirmed = refl;
        crypto = m.crypto;
        has = m.has;
        keys = m.keys;
      })

  renew-At :
      (q r : ℕ) (c : Conn fl pr) (cr : Crypto)
      → HasKeys cr
      → At q r c
      → At q r (renew_key fl pr c cr)
  unfolding renew_key
  renew-At q r c cr k m =
      let d = c.config in
      elim (Bool-cases (c.km_refresh_countdown == sub64 d.km_refresh_rate d.km_pre_announce)) [
        | inl t ↦ rw t (record {
          config = m.config;
          key = m.key;
          refresh = m.refresh;
          before = m.before;
          unconfirmed = m.unconfirmed;
          crypto = (generate_sek pr cr (opposite c.key_base_encryption) c.random).0;
          has = refl;
          keys = generate_sek-HasKeys pr fills cr (opposite c.key_base_encryption) c.random k;
        })
        | inr t ↦ rw t m
      ]

  -- The connection's keys when it announces the other one.
  abbrev pub Told : Crypto → ℕ → List Output → Type 0
  Told cr q = Sends (IsAnnouncement pr cr cfg.passphrase (opposite (switched q first)))

  -- A request is written and goes out.
  request-Sends :
      (c : Conn fl pr) (clock key : ℕ) (cr : Crypto)
      → HasKeys cr
      → IsOne key
      → (n : ℕ) × (os : List Output) × (request fl pr c clock key (some cr)
          ≡ some (record c { statistics = record (c.statistics) { pkt_sent_km = n } }, os))
        × Sends (IsAnnouncement pr cr c.config.passphrase key) os
  unfolding request control_packet address
  request-Sends c clock key cr h k =
      let (b, e) = message-written pr laws cr h c.config.passphrase key (IsOne→IsKey key k) in
      (
        u64 (c.statistics.pkt_sent_km + 1),
        on_send (address fl pr c (control_packet clock ctrltype_user exttype_kmreq 0 b)) ∷ [],
        rw e refl,
        inl (refl, refl, refl, b, refl, e),
      )

  -- What the announcement leaves: the countdown of the announcement, and what is counted.
  announce-Counted :
      (q r : ℕ) (c : Conn fl pr) (clock : ℕ)
      → r < cfg.km_refresh_rate
      → (m : At q r c)
      → (d : Conn fl pr) × (os : List Output) × (announce_key fl pr (count_down fl pr c) clock
          ≡ some (d, os))
        × Counted q r d
        × (d.crypto ≡ c.crypto)
        × (d.key_base_encryption ≡ c.key_base_encryption)
        × (r + 1 ≡ cfg.km_refresh_rate - cfg.km_pre_announce → Told m.crypto q os)
  unfolding announce_key count_down send_km_request
  announce-Counted q r c clock h m =
      let d = count_down fl pr c in
      let other = opposite c.key_base_encryption in
      let known : IsOne other =
        opposite-IsOne c.key_base_encryption (rw m.key (switched-IsOne q first one)) in
      elim (Bool-cases (sub64 c.km_pre_announce_countdown 1 == 0)) [
        | inl t ↦
            let (n, os, e, sent) = request-Sends d clock other m.crypto m.keys known in
            let e' = ap (request fl pr d clock other) m.has ∙ e in
            (
              record d {
                statistics = record (d.statistics) { pkt_sent_km = n };
                km_pre_announce_countdown = u64 (c.config.km_pre_announce / 10 + 1);
              },
              os,
              rw (announce_key, ap₂ (λ a b. a && not b) t m.unconfirmed, send_km_request, e') refl,
              record {
                config = m.config;
                key = m.key;
                refresh = omega (arith, m.refresh);
                before = λ b. absurd (omega (arith, (==_iff _ _).0 t, m.before (omega arith)));
                unconfirmed = m.unconfirmed;
                crypto = m.crypto;
                has = m.has;
                keys = m.keys;
              },
              refl,
              refl,
              λ _.
                  subst
                    (λ (x : Config).
                      Sends (IsAnnouncement pr m.crypto x.passphrase (opposite (switched q first)))
                        os)
                    m.config
                    (subst
                      (λ x. Sends (IsAnnouncement pr m.crypto c.config.passphrase (opposite x)) os)
                      m.key sent),
            )
        | inr t ↦ (
          d,
          [],
          rw (announce_key, ap₂ (λ a b. a && not b) t m.unconfirmed) refl,
          record {
            config = m.config;
            key = m.key;
            refresh = omega (arith, m.refresh);
            before = λ b. omega (arith, m.before (omega arith));
            unconfirmed = m.unconfirmed;
            crypto = m.crypto;
            has = m.has;
            keys = m.keys;
          },
          refl,
          refl,
          λ z. absurd (ground (arith, t, m.before (omega arith))),
        )
      ]

  -- One more data packet: the place in the schedule after it, and what goes out.
  abbrev pub Next : ℕ → ℕ → Conn fl pr → Type 0
  Next q r c =
      ((r + 1 < cfg.km_refresh_rate) × At q (r + 1) c)
      ⊎ ((r + 1 ≡ cfg.km_refresh_rate) × At (suc q) 0 c)

  -- A data packet leaves the key in use as it is, and both keys but for the packet at which the other
  -- one is renewed.
  pub record Holds (r : ℕ) (c d : Conn fl pr) : Type 0 where
    pub used : secret d.key_base_encryption d.crypto ≡ secret d.key_base_encryption c.crypto
    pub both : r + 1 ≢ cfg.km_pre_announce → d.crypto ≡ c.crypto

  renew-Holds :
      (r : ℕ) (c d : Conn fl pr) (cr : Crypto)
      → c.crypto ≡ some cr
      → d.crypto ≡ some cr
      → d.config ≡ cfg
      → IsOne d.key_base_encryption
      → (r + 1 ≢ cfg.km_pre_announce
          → d.km_refresh_countdown ≢ cfg.km_refresh_rate - cfg.km_pre_announce)
      → Holds r c (renew_key fl pr d cr)
  unfolding renew_key
  renew-Holds r c d cr e f g o far =
      let s : (sub64 d.config.km_refresh_rate d.config.km_pre_announce
          ≡ cfg.km_refresh_rate - cfg.km_pre_announce) =
        ap (λ (x : Config). sub64 x.km_refresh_rate x.km_pre_announce) g ∙ omega arith in
      elim (Bool-cases
        (d.km_refresh_countdown == sub64 d.config.km_refresh_rate d.config.km_pre_announce)) [
          | inl t ↦ rw t (record {
            used =
                generate_sek-secret pr cr d.key_base_encryption d.random o
                ∙ ap (secret d.key_base_encryption) (sym e);
            both = λ n. absurd (far n ((==_iff _ _).0 t ∙ s));
          })
          | inr t ↦ rw t (record {
            used = ap (secret d.key_base_encryption) (f ∙ sym e);
            both = λ _. f ∙ sym e;
          })
        ]

  switch_key-crypto : (c : Conn fl pr) → (switch_key fl pr c).crypto ≡ c.crypto
  unfolding switch_key
  switch_key-crypto c = elim (Bool-cases (c.km_refresh_countdown == 0)) [
    | inl t ↦ rw t refl
    | inr t ↦ rw t refl
  ]

  next_place :
      (r : ℕ)
      → r < cfg.km_refresh_rate
      → (r + 1 < cfg.km_refresh_rate) ⊎ (r + 1 ≡ cfg.km_refresh_rate)
  next_place r h = ground arith

  holds_lem :
      (q r : ℕ) (c d : Conn fl pr) (cr : Crypto)
      → c.crypto ≡ some cr
      → d.crypto ≡ some cr
      → r < cfg.km_refresh_rate
      → Counted q r d
      → Holds r c (renew_key fl pr (switch_key fl pr d) cr)
  holds_lem q r c d cr e f h counted =
      let g = switch_key-crypto d ∙ f in
      elim (next_place r h) [
        | inl i ↦
            let a = switch_inside q r d i counted in
            renew-Holds r c (switch_key fl pr d) cr e g a.config
              (rw a.key (switched-IsOne q first one)) (λ n z. n (omega (arith, a.refresh, z)))
        | inr i ↦
            let a = switch_end q r d i counted in
            renew-Holds r c (switch_key fl pr d) cr e g a.config
              (rw a.key (switched-IsOne (suc q) first one))
              (λ n z. absurd (omega (arith, a.refresh, z)))
      ]

  pub next_request :
      (r : ℕ)
      → r < cfg.km_refresh_rate - cfg.km_pre_announce
      → (r + 1 ≡ cfg.km_refresh_rate - cfg.km_pre_announce)
        ⊎ (r + 1 < cfg.km_refresh_rate - cfg.km_pre_announce)
  next_request r h = ground arith

  pub suc-mul_rate :
      (q : ℕ) → suc q * cfg.km_refresh_rate ≡ q * cfg.km_refresh_rate + cfg.km_refresh_rate
  suc-mul_rate q = grind arith

  pub pop-Next :
      (q r : ℕ) (c : Conn fl pr) (clock : ℕ) (p : Packet)
      → p.header.is_control_packet ≡ false
      → r < cfg.km_refresh_rate
      → (m : At q r c)
      → (d : Conn fl pr) × (os : List Output) × (pop fl pr c clock p ≡ some (d, os))
        × Next q r d
        × Holds r c d
        × (r + 1 ≡ cfg.km_refresh_rate - cfg.km_pre_announce → Told m.crypto q os)
  unfolding pop pop_data
  pop-Next q r c clock p plain h m =
      let (d, os, e, counted, same, key, sent) = announce-Counted q r c clock h m in
      let e₁ : (pop_data fl pr c clock (address fl pr c p) (some m.crypto)
          ≡ some (
            renew_key fl pr (switch_key fl pr d) m.crypto,
            os ++ (on_send (seal fl pr c m.crypto (address fl pr c p)) ∷ []),
          )) =
        rw e refl in
      (
        renew_key fl pr (switch_key fl pr d) m.crypto,
        os ++ (on_send (seal fl pr c m.crypto (address fl pr c p)) ∷ []),
        ap
              (λ b.
                if b
                then some (c, on_send (address fl pr c p) ∷ [])
                else pop_data fl pr c clock (address fl pr c p) c.crypto)
              plain
            ∙ (ap (pop_data fl pr c clock (address fl pr c p)) m.has ∙ e₁),
        elim (next_place r h) [
          | inl i ↦ inl (
            i,
            renew-At q (r + 1) (switch_key fl pr d) m.crypto m.keys (switch_inside q r d i counted),
          )
          | inr i ↦ inr (
            i,
            renew-At (suc q) 0 (switch_key fl pr d) m.crypto m.keys (switch_end q r d i counted),
          )
        ],
        holds_lem q r c d m.crypto m.has (same ∙ m.has) h counted,
        λ z. Sends-append (IsAnnouncement pr m.crypto cfg.passphrase _) os _ (sent z),
      )

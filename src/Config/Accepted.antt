-- ===== src/Config/Accepted.antt =====
-- config.go: the configurations that Validate accepts.
use mathlib.Core.Option.{none-ne-some}
use gosrt.Common.{
  ◌+◌, ◌/◌, ◌≤◌, ◌≡◌, ◌⊎◌, inl, inr, refl, sym, ap, ◌∙◌, arith, true, false, Bool-cases, none,
  Option-cases, length, sub32,
}
use gosrt.Common.Int.{pos, ltb_ℤ}
use gosrt.Config.{
  Config, live, same_bytes, check_before, check_sizes, check_after, force_live, copy_latency,
  validate,
}

copy_latency_again : (c : Config) → copy_latency (copy_latency c) ≡ copy_latency c
copy_latency_again c = elim (Bool-cases (ltb_ℤ c.latency (pos 0))) [
  | inl t ↦ rw (t, t) refl
  | inr t ↦ rw t (rw t refl)
]

-- Copying the latency changes nothing that the earlier tests read, nor what is forced.
check_before-copy_latency :
    (c : Config)
    → check_before (force_live (copy_latency (force_live c))) ≡ check_before (force_live c)
unfolding check_before
check_before-copy_latency c = elim (Bool-cases (ltb_ℤ c.latency (pos 0))) [
  | inl t ↦ rw t refl
  | inr t ↦ rw t refl
]

force_live-copy_latency :
    (c : Config) → force_live (copy_latency (force_live c)) ≡ copy_latency (force_live c)
force_live-copy_latency c = elim (Bool-cases (ltb_ℤ c.latency (pos 0))) [
  | inl t ↦ rw t refl
  | inr t ↦ rw t refl
]

transmission-copy_latency :
    (c : Config) → (copy_latency (force_live c)).transmission_type ≡ c.transmission_type
transmission-copy_latency c = elim (Bool-cases (ltb_ℤ c.latency (pos 0))) [
  | inl t ↦ rw t refl
  | inr t ↦ rw t refl
]

validate_passes :
    (d : Config)
    → same_bytes d.transmission_type live ≡ true
    → check_before (force_live d) ≡ none
    → force_live d ≡ d
    → copy_latency d ≡ d
    → check_after d ≡ none
    → validate d ≡ (d, none)
unfolding validate
validate_passes d t f l m g =
    rw (validate, t, f)
      (ap (λ x. (copy_latency x, check_after (copy_latency x))) l
        ∙ (ap (λ x. (x, check_after x)) m ∙ ap (λ x. (d, x)) g))

abbrev pub WithinBounds : Config → Type 0
WithinBounds c =
    ((c.km_refresh_rate ≡ 0)
      ⊎ ((1 ≤ c.km_pre_announce) × (c.km_pre_announce ≤ c.km_refresh_rate / 2)))
    × (32 ≤ c.payload_size)
    × (c.payload_size + 44 ≤ c.mss)
    × (c.mss ≤ 1500)
    × ((length c.passphrase ≡ 0) ⊎ ((10 ≤ length c.passphrase) × (length c.passphrase ≤ 80)))
    × (ltb_ℤ c.peer_latency (pos 0) ≡ false)
    × (ltb_ℤ c.receiver_latency (pos 0) ≡ false)

schedule_bounds :
    (c : Config)
    → check_before c ≡ none
    → (c.km_refresh_rate ≡ 0)
      ⊎ ((1 ≤ c.km_pre_announce) × (c.km_pre_announce ≤ c.km_refresh_rate / 2))
unfolding check_before
schedule_bounds c h = ground arith

unit_bounds :
    (c : Config) → check_after c ≡ none → (76 ≤ c.mss) × (c.mss ≤ 1500) × (check_sizes c ≡ none)
unfolding check_after
unit_bounds c h = ground arith

size_bounds :
    (c : Config)
    → check_sizes c ≡ none
    → (32 ≤ c.payload_size)
      × (c.payload_size ≤ sub32 c.mss 44)
      × ((length c.passphrase ≡ 0) ⊎ ((10 ≤ length c.passphrase) × (length c.passphrase ≤ 80)))
      × (ltb_ℤ c.peer_latency (pos 0) ≡ false)
      × (ltb_ℤ c.receiver_latency (pos 0) ≡ false)
unfolding check_sizes
size_bounds c h = ground arith

within : (c : Config) → check_before (force_live c) ≡ none → check_after c ≡ none → WithinBounds c
within c f g =
    let (low, high, rest) = unit_bounds c g in
    let (a, b, p, l, r) = size_bounds c rest in
    (schedule_bounds (force_live c) f, a, omega arith, high, p, l, r)

-- What an accepted configuration passed.
module _ (c : Config) (accepted : (validate c).1 ≡ none) where
  abbrev settled : Config
  settled = copy_latency (force_live c)

  accepted-cases :
      (same_bytes c.transmission_type live ≡ true)
      × (check_before (force_live c) ≡ none)
      × (check_after settled ≡ none)
      × (validate c ≡ (settled, none))
  unfolding validate
  accepted-cases = elim (Bool-cases (same_bytes c.transmission_type live)) [
    | inr t ↦ absurd (none-ne-some _ (sym (rw (validate, t) at accepted)))
    | inl t ↦ elim (Option-cases (check_before (force_live c))) [
      | inr (e, f) ↦ absurd (none-ne-some _ (sym (rw (validate, t, f) at accepted)))
      | inl f ↦
          let g : (check_after settled ≡ none) = rw (validate, t, f) at accepted in
          (t, f, g, rw (validate, t, f, g) refl)
    ]
  ]

  -- A configuration that was accepted is accepted again, unchanged.
  validate-validate : validate (validate c).0 ≡ validate c
  validate-validate =
      let (t, f, g, v) = accepted-cases in
      ap (λ x. validate x.0) v
      ∙ (validate_passes settled (ap (λ x. same_bytes x live) (transmission-copy_latency c) ∙ t)
            (check_before-copy_latency c ∙ f) (force_live-copy_latency c)
            (copy_latency_again (force_live c)) g
          ∙ sym v)

  -- An accepted configuration announces a key at least one packet before its use and at most half a
  -- refresh period before it, if keys are refreshed at all; a payload, with its headers, fits into the
  -- transmission unit; a passphrase has 10 to 80 bytes or none; the latencies are not negative.
  pub validate-WithinBounds : WithinBounds (validate c).0
  validate-WithinBounds =
      let (t, f, g, v) = accepted-cases in rw v (within settled (check_before-copy_latency c ∙ f) g)

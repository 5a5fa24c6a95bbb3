-- ===== src/Packet/Quiet.antt =====
-- Parsers of packet/packet.go that do not panic.
use gosrt.Common.{◌≡◌, refl, arith, Bool, true, false, if◌then◌else◌}
use gosrt.Packet.Wire.{Error, Result, ok, err, panics, ◌>>=◌}

-- A parser returns a value or an error.
abbrev pub quiet {ℓ} : {A : Type ℓ} → Result A → Bool
quiet (ok a) = true
quiet (err e) = true
quiet panics = false

module _ {ℓ} {A : Type ℓ} where
  pub unless-quiet :
      (b : Bool) (e : Error) (r : Result A) → quiet r ≡ true → quiet (if b then err e else r) ≡ true
  unless-quiet true e r h = refl
  unless-quiet false e r h = h

  pub if-quiet :
      (b : Bool) (r s : Result A)
      → quiet r ≡ true
      → quiet s ≡ true
      → quiet (if b then r else s) ≡ true
  if-quiet true r s h k = h
  if-quiet false r s h k = k

  pub then-quiet {κ} :
      {B : Type κ} (r : Result A) (f : A → Result B)
      → quiet r ≡ true
      → ((a : A) → quiet (f a) ≡ true)
      → quiet (r >>= f) ≡ true
  then-quiet (ok a) f h k = k a
  then-quiet (err e) f h k = refl
  then-quiet panics f h k = absurd (ground arith)

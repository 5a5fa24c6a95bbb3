-- ===== src/Net/Cookie.antt =====
-- net/syncookie.go: the SYN cookie. MD5 is a parameter.
pub mod Verified
use gosrt.Common.{
  ℕ, zero, suc, ◌+◌, ◌/◌, ◌%◌, Bool, true, Option, none, some, List, [], ◌∷◌, ◌++◌, ◌==◌, ◌||◌,
  if◌then◌else◌,
}
use gosrt.Common.Int.{ℤ, pos, negsuc}
use gosrt.Packet.Wire.{uint32}
use gosrt.Crypto.{Primitives}
use gosrt.Rand.{random_string, alpha_numeric_charset}

pub record SynCookie : Type 0 where
  pub secret1 : List ℕ
  pub secret2 : List ℕ
  pub daddr : List ℕ

-- strconv.FormatInt to the base 10.
unfoldable pub decimal : ℕ → ℕ → List ℕ → List ℕ
decimal zero n acc = acc
decimal (suc fuel) n acc =
    let digits = (48 + n % 10) ∷ acc in
    let more = decimal fuel (n / 10) digits in if n / 10 == 0 then digits else more

unfoldable pub format_int : ℤ → List ℕ
format_int (pos n) = decimal 20 n []
format_int (negsuc n) = 45 ∷ decimal 20 (suc n) []

abbrev pub before : ℤ → ℤ
before (pos zero) = negsuc 0
before (pos (suc n)) = pos n
before (negsuc n) = negsuc (suc n)

-- `NewSYNCookie` for an address; the random strings come one after the other.
module _ (pr : Primitives) where
  open pr use {Random}

  unfoldable pub new_syn_cookie : ℕ → List ℕ → Random → Option (Option SynCookie × Random)
  new_syn_cookie fuel daddr r = elim (random_string pr fuel 32 alpha_numeric_charset r) [
    | none ↦ none
    | some (none, r) ↦ some (none, r)
    | some (some s, r) ↦ elim (random_string pr fuel 32 alpha_numeric_charset r) [
      | none ↦ none
      | some (none, r) ↦ some (none, r)
      | some (some t, r) ↦ some (some (record { secret1 = s; secret2 = t; daddr = daddr }), r)
    ]
  ]

module _ (md5 : List ℕ → List ℕ) where
  unfoldable pub calculate : SynCookie → ℤ → List ℕ → ℕ
  calculate s counter saddr =
      uint32 (md5 (s.secret1 ++ (s.daddr ++ (saddr ++ (s.secret2 ++ format_int counter))))) 0

  -- `Get` and `Verify`, with the counter at the time of the call.
  unfoldable pub get : SynCookie → ℤ → List ℕ → ℕ
  get s counter saddr = calculate s counter saddr

  unfoldable pub verify : SynCookie → ℤ → ℕ → List ℕ → Bool
  verify s counter cookie saddr =
      if calculate s counter saddr == cookie
      then true
      else (calculate s (before counter) saddr == cookie)

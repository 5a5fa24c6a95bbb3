-- ===== src/Net/Ip.antt =====
-- net/ip.go: the 16 bytes of an address in a handshake. `net.IP` of Go is a list of bytes, which is
-- nil, or has 4 or 16 of them.
pub mod Loopback
pub mod Ordinary
mod Runs
use gosrt.Common.{
  ℕ, ◌+◌, ◌*◌, ◌/◌, ◌%◌, ◌^◌, Bool, true, false, not, ◌&&◌, ◌||◌, Option, none, some, List, [], ◌∷◌,
  ◌++◌, length, take, ◌≡◌, refl, inl, inr, Bool-cases, drop, replicate, ◌==◌, if◌then◌else◌,
}
use gosrt.Config.{same_bytes}
use gosrt.Packet.Wire.{Result, ok, err, invalid_length, put16, byte_at}

-- A UDP address of Go: its text, and its IP, which may be nil.
pub record Addr : Type 0 where
  pub text : List ℕ
  pub ip : Option (List ℕ)

-- The colons of a text, which tell an IPv6 address from an IPv4 one.
unfoldable pub colons : List ℕ → ℕ
colons [] = 0
colons (b ∷ bs) = let n = colons bs in if b == 58 then n + 1 else n

-- net.IPv4
abbrev pub ipv4 : ℕ → ℕ → ℕ → ℕ → List ℕ
ipv4 a b c d = replicate 10 0 ++ (255 ∷ 255 ∷ a ∷ b ∷ c ∷ d ∷ [])

-- Whether `To4` returns an address.
unfoldable pub is_v4 : List ℕ → Bool
is_v4 b =
    (length b == 4)
    || ((length b == 16) && same_bytes (take 12 b) (replicate 10 0 ++ (255 ∷ 255 ∷ [])))

unfoldable pub is_unspecified : List ℕ → Bool
is_unspecified b =
    same_bytes b (replicate 16 0)
    || (is_v4 b && same_bytes (drop (if length b == 4 then 0 else 12) b) (replicate 4 0))

-- `setDefault`: 127.0.0.1
abbrev pub default_ip : List ℕ
default_ip = ipv4 127 0 0 1

-- `isValid`; an IP without bytes prints as <nil>.
unfoldable pub is_valid : Option (List ℕ) → Bool
is_valid none = false
is_valid (some b) = not (length b == 0) && not (is_unspecified b)

abbrev pub or_default : Option (List ℕ) → List ℕ
or_default i = if is_valid i then (elim i [ none ↦ default_ip | some b ↦ b ]) else default_ip

-- `FromNetAddr` for a UDP address, or none.
unfoldable pub from_net_addr : Option Addr → List ℕ
from_net_addr none = default_ip
from_net_addr (some a) = elim a.ip [ none ↦ default_ip | some b ↦ b ]

abbrev pub little_uint32 : List ℕ → ℕ → ℕ
little_uint32 d i =
    byte_at d i
    + byte_at d (i + 1) * 2 ^ 8
    + byte_at d (i + 2) * 2 ^ 16
    + byte_at d (i + 3) * 2 ^ 24

-- The four bytes of a word, and its two groups of an IPv6 text, which ParseIP reads back as bytes.
abbrev pub v4_of : ℕ → List ℕ
v4_of w = ipv4 (w / 2 ^ 24 % 2 ^ 8) (w / 2 ^ 16 % 2 ^ 8) (w / 2 ^ 8 % 2 ^ 8) (w % 2 ^ 8)

abbrev pub groups : ℕ → List ℕ
groups w = put16 (w / 2 ^ 16 % 2 ^ 16) ++ put16 (w % 2 ^ 16)

abbrev pub read_ip : List ℕ → List ℕ
read_ip d =
    if length d == 4
    then v4_of (little_uint32 d 0)
    else if (little_uint32 d 12 == 0) && (little_uint32 d 8 == 0) && (little_uint32 d 4 == 0)
    then v4_of (little_uint32 d 0)
    else (groups (little_uint32 d 12)
        ++ (groups (little_uint32 d 8)
            ++ (groups (little_uint32 d 4) ++ groups (little_uint32 d 0))))

-- `Unmarshal`
unfoldable pub unmarshal : List ℕ → Result (List ℕ)
unmarshal d =
    if not (length d == 4) && not (length d == 16)
    then err invalid_length
    else ok (or_default (some (read_ip d)))

abbrev pub widen : List ℕ → List ℕ
widen (a ∷ b ∷ c ∷ d ∷ []) = ipv4 a b c d
widen b = b

-- Four bytes from the last to the first.
abbrev pub four : List ℕ → ℕ → List ℕ
four b i = byte_at b (i + 3) ∷ byte_at b (i + 2) ∷ byte_at b (i + 1) ∷ byte_at b i ∷ []

abbrev pub write_ip : List ℕ → List ℕ
write_ip b = four b 12 ++ (if is_v4 b then replicate 12 0 else (four b 8 ++ (four b 4 ++ four b 0)))

-- `Marshal` into 16 bytes or more.
unfoldable pub marshal : Option (List ℕ) → List ℕ
marshal i = write_ip (widen (or_default i))

-- What is read of an address that was written.
abbrev pub read_back : List ℕ → List ℕ
read_back ip = or_default (some (read_ip (marshal (some ip))))

length-write_ip : (b : List ℕ) → length (write_ip b) ≡ 16
length-write_ip b = elim (Bool-cases (is_v4 b)) [ inl e ↦ rw e refl | inr e ↦ rw e refl ]

pub length-marshal : (i : Option (List ℕ)) → length (marshal i) ≡ 16
unfolding marshal
length-marshal i = length-write_ip (widen (or_default i))

pub unmarshal-marshal_back : (ip : List ℕ) → unmarshal (marshal (some ip)) ≡ ok (read_back ip)
unfolding unmarshal
unmarshal-marshal_back ip = rw (unmarshal, length-marshal (some ip)) refl

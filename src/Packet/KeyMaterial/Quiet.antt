-- ===== src/Packet/KeyMaterial/Quiet.antt =====
-- Reading key material does not panic.
use gosrt.Common.{ℕ, ◌≡◌, arith, true, List, take, drop}
use gosrt.Packet.Quiet.{quiet, then-quiet}
use gosrt.Packet.KeyMaterial.{
  KeyMaterial, read_fields, unmarshal_error, check_fields, read_salt, read_wrap, unmarshal,
}

check_fields-quiet : (c : KeyMaterial) → quiet (check_fields c) ≡ true
unfolding check_fields
check_fields-quiet c = ground arith

read_wrap-quiet : (c : KeyMaterial) (rest : List ℕ) → quiet (read_wrap c rest) ≡ true
unfolding read_wrap
read_wrap-quiet c rest = ground arith

read_salt-quiet : (c : KeyMaterial) (rest : List ℕ) → quiet (read_salt c rest) ≡ true
unfolding read_salt
read_salt-quiet c rest = ground (
  arith,
  read_wrap-quiet c rest,
  read_wrap-quiet (record c { salt = take 16 rest }) (drop 16 rest),
)

pub unmarshal-quiet : (c : KeyMaterial) (d : List ℕ) → quiet (unmarshal c d) ≡ true
unfolding unmarshal unmarshal_error
unmarshal-quiet c d =
    let q =
      then-quiet (check_fields (read_fields c d)) (λ c. read_salt c (drop 16 d))
        (check_fields-quiet (read_fields c d)) (λ x. read_salt-quiet x (drop 16 d)) in
    ground (arith, q)

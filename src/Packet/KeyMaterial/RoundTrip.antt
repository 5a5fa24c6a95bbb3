-- ===== src/Packet/KeyMaterial/RoundTrip.antt =====
-- Reading back key material that was written.
use gosrt.Common.{
  ℕ, ◌≤◌, ◌≡◌, inl, inr, refl, ap, ◌∙◌, arith, true, false, Bool-cases, List, [], ◌++◌, length,
  take_all, take_front, drop_front, length-append, ltb, le→ltb_false, ◌==◌, if◌then◌else◌,
}
use gosrt.Packet.Types.{even_and_odd_key}
use gosrt.Packet.Wire.{ok, ◌>>=◌}
use gosrt.Packet.KeyMaterial.Fields.{IsValid, read_fixed, check_valid}
use gosrt.Packet.KeyMaterial.{
  KeyMaterial, wrap_size, fixed_bytes, read_fields, check_fields, read_wrap, read_salt, unmarshal,
  marshal,
}

read_wrapped :
    (c : KeyMaterial) (e : ℕ) (salt wrap : List ℕ)
    → length c.wrap ≡ wrap_size c
    → read_wrap (record c { error = e; salt = salt; wrap = wrap }) c.wrap
      ≡ ok (record c { error = e; salt = salt })
unfolding read_wrap wrap_size
read_wrapped c e salt wrap h =
    let n = wrap_size c in
    rw (le→ltb_false (length c.wrap) n (omega arith))
      (ap (λ t. ok (record c { error = e; salt = salt; wrap = t })) (take_all n c.wrap h))

-- The salt that the reader ends with: the one that it had when none was written.
abbrev pub salt_read : KeyMaterial → KeyMaterial → List ℕ
salt_read old c = if c.slen == 0 then old.salt else c.salt

read_salted :
    (c : KeyMaterial) (e : ℕ) (salt wrap : List ℕ)
    → IsValid c
    → read_salt
        (record c { error = e; salt = salt; wrap = wrap })
        ((if c.slen == 0 then [] else c.salt) ++ c.wrap)
      ≡ ok (record c { error = e; salt = if c.slen == 0 then salt else c.salt })
unfolding read_salt
read_salted c e salt wrap v = elim v.slen [
  | inl z ↦
      let t : ((c.slen == 0) ≡ true) = ground arith in rw t (read_wrapped c e salt wrap v.wrap)
  | inr z ↦
      let t : ((c.slen == 0) ≡ false) = ground arith in
      let u : ((c.slen == 16) ≡ true) = ground arith in
      let n = v.salt (omega arith) in
      rw
        (
          t,
          u,
          le→ltb_false (length (c.salt ++ c.wrap)) 16 (omega (arith, length-append c.salt c.wrap)),
          take_front 16 c.salt c.wrap n,
          drop_front 16 c.salt c.wrap n,
        )
        (read_wrapped c e c.salt wrap v.wrap)
]

klen-bound : (c : KeyMaterial) → IsValid c → c.klen ≤ 32
klen-bound c v = elim v.klen [
  | inl e ↦ omega arith
  | inr (inl e) ↦ omega arith
  | inr (inr e) ↦ omega arith
]

wrap_size-bound : (c : KeyMaterial) → IsValid c → wrap_size c ≤ 72
unfolding wrap_size
wrap_size-bound c v = elim (Bool-cases (c.key_based_encryption == even_and_odd_key)) [
  | inl t ↦ rw t (omega (arith, klen-bound c v))
  | inr t ↦ rw t (omega (arith, klen-bound c v))
]

-- What follows the first 16 bytes.
abbrev body : KeyMaterial → List ℕ
body c = (if c.slen == 0 then [] else c.salt) ++ c.wrap

body-length : (c : KeyMaterial) → IsValid c → length (body c) ≤ 88
body-length c v = elim v.slen [
  | inl z ↦
      let t : ((c.slen == 0) ≡ true) = ground arith in
      rw t (omega (arith, v.wrap, wrap_size-bound c v))
  | inr z ↦
      let t : ((c.slen == 0) ≡ false) = ground arith in
      rw t (
        omega
          (arith, length-append c.salt c.wrap, v.salt (omega arith), v.wrap, wrap_size-bound c v))
]

pub fixed_bytes-length : (c : KeyMaterial) → length (fixed_bytes c) ≡ 16
unfolding fixed_bytes
fixed_bytes-length c = refl

body_follows :
    (c old : KeyMaterial) (xs : List ℕ)
    → unmarshal old (fixed_bytes c ++ xs)
      ≡ (check_fields (read_fields old (fixed_bytes c ++ xs)) >>= (λ c. read_salt c xs))
unfolding unmarshal fixed_bytes
body_follows c old xs =
    let y = fixed_bytes c ++ xs in
    let t : ((length y == 4) ≡ false) = ground arith in
    rw (t, le→ltb_false (length y) 16 (omega arith)) refl

-- Key material that the protocol allows is written without a panic, and reading what was written
-- gives back every field but the error code, and but the salt where there is none.
pub unmarshal-marshal-KeyMaterial :
    (c old : KeyMaterial)
    → IsValid c
    → (marshal c >>= unmarshal old) ≡ ok (record c { error = old.error; salt = salt_read old c })
unfolding marshal
unmarshal-marshal-KeyMaterial c old v =
    let t : (ltb 128 (length (fixed_bytes c ++ body c)) ≡ false) =
      le→ltb_false 128 (length (fixed_bytes c ++ body c)) (
        omega
          (arith, length-append (fixed_bytes c) (body c), fixed_bytes-length c, body-length c v)) in
    rw t (
      body_follows c old (body c)
      ∙ (ap (λ t. check_fields t >>= (λ x. read_salt x (body c))) (read_fixed old c (body c) v)
          ∙ (ap (λ t. t >>= (λ x. read_salt x (body c)))
                (check_valid c old.error old.salt old.wrap v)
              ∙ read_salted c old.error old.salt old.wrap v)))

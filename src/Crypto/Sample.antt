-- ===== src/Crypto/Sample.antt =====
-- Concrete primitives and keys, for the examples.
use mathlib.Core.List.{reverse-reverse}
use mathlib.Core.Option.{some-injective}
use gosrt.Common.{
  ℕ, ◌+◌, refl, arith, some, List, ◌++◌, drop, replicate, reverse, sym, length-replicate,
}
use gosrt.Crypto.Keys.{HasKeys, FillsBuffers}
use gosrt.Crypto.Exchange.{Laws}
use gosrt.Crypto.{Primitives, Crypto}

-- A random source that counts, a wrap that appends a check value, and the reversed payload as its
-- encryption.
abbrev pub sample : Primitives
sample = record {
  Random = ℕ;
  read_random = λ r n. (some (replicate n r), r + 1);
  derive_key = λ p s i n. some (replicate n 7);
  wrap_key = λ kek keys. some (replicate 8 0xa6 ++ keys);
  unwrap_key = λ kek w. some (drop 8 w);
  Block = List ℕ;
  new_cipher = λ sek. some sek;
  xor_key_stream = λ b ctr p. reverse p;
}

pub sample-FillsBuffers : FillsBuffers sample
sample-FillsBuffers r n b e = rw (sym (some-injective _ _ e)) (length-replicate n r)

pub sample-Laws : Laws sample
sample-Laws = record {
  unwrap-wrap = λ kek keys w e. rw (sym (some-injective _ _ e)) refl;
  wrap_length = λ kek keys w e. rw (sym (some-injective _ _ e)) (omega arith);
  xor_twice = λ b ctr p. reverse-reverse p;
}

abbrev pub keys : ℕ → Crypto
keys r = record {
  salt = replicate 16 r;
  key_length = 16;
  even_sek = replicate 16 (r + 1);
  odd_sek = replicate 16 (r + 2);
}

pub keys-HasKeys : (r : ℕ) → HasKeys (keys r)
keys-HasKeys r = record { salt = refl; valid = refl; even = refl; odd = refl }

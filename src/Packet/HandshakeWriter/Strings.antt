-- ===== src/Packet/HandshakeWriter/Strings.antt =====
-- Reading back the strings of a handshake that were written.
use gosrt.Common.{
  ℕ, zero, suc, ◌+◌, ◌-◌, ◌*◌, ◌/◌, ◌%◌, ◌^◌, ◌≤◌, ◌≡◌, refl, ap, arith, true, List, [], ◌∷◌, ◌++◌,
  length, length-append, length-replicate, replicate, ltb, le→ltb_false, drop_front,
}
use gosrt.Packet.Wire.{ok}
use gosrt.Packet.Handshake.{
  Handshake, read_words, trim_right, read_sid, extension, extensions, go_on,
}
use gosrt.Packet.HandshakeWriter.{pad, write_words, block}

read-write_words :
    (n : ℕ) (s rest : List ℕ) → length s ≡ n * 4 → read_words n (write_words s ++ rest) ≡ s
unfolding read_words write_words
read-write_words zero [] rest e = refl
read-write_words zero (a ∷ s) rest e = ground arith
read-write_words (suc n) (a ∷ b ∷ c ∷ d ∷ s) rest e =
    ap (λ t. a ∷ b ∷ c ∷ d ∷ t) (read-write_words n s rest (omega (arith, e)))
read-write_words (suc n) [] rest e = ground arith
read-write_words (suc n) (a ∷ []) rest e = ground arith
read-write_words (suc n) (a ∷ b ∷ []) rest e = ground arith
read-write_words (suc n) (a ∷ b ∷ c ∷ []) rest e = ground arith

pub length-write_words : (n : ℕ) (s : List ℕ) → length s ≡ n * 4 → length (write_words s) ≡ n * 4
unfolding write_words
length-write_words zero [] e = refl
length-write_words zero (a ∷ s) e = omega (arith, e)
length-write_words (suc n) (a ∷ b ∷ c ∷ d ∷ s) e =
    omega (arith, length-write_words n s (omega (arith, e)))
length-write_words (suc n) [] e = omega (arith, e)
length-write_words (suc n) (a ∷ []) e = omega (arith, e)
length-write_words (suc n) (a ∷ b ∷ []) e = omega (arith, e)
length-write_words (suc n) (a ∷ b ∷ c ∷ []) e = omega (arith, e)

trim_right-replicate : (k : ℕ) → trim_right (replicate k 0) ≡ []
unfolding trim_right
trim_right-replicate zero = refl
trim_right-replicate (suc k) = rw (trim_right, trim_right-replicate k) refl

trim_right-append : (s : List ℕ) (k : ℕ) → trim_right (s ++ replicate k 0) ≡ trim_right s
unfolding trim_right
trim_right-append [] k = trim_right-replicate k
trim_right-append (b ∷ s) k = rw (trim_right, trim_right-append s k) refl

-- The words of a string.
abbrev pub words_of : List ℕ → ℕ
words_of s = (length s + 3) / 4

pub length-pad : (s : List ℕ) → length (pad s) ≡ words_of s * 4
unfolding pad
length-pad s =
    let k = (4 - length s % 4) % 4 in
    omega (arith, length-append s (replicate k 0), length-replicate {A = ℕ} k 0)

-- One turn of the reader's loop over an extension that was written.
pub extensions-block :
    (fuel : ℕ) (c : Handshake) (t w : ℕ) (bytes rest : List ℕ)
    → t ≤ 65535
    → w ≤ 65535
    → length bytes ≡ w * 4
    → extensions (suc fuel) c (block t w bytes ++ rest)
      ≡ go_on
          (λ c. extensions fuel c rest)
          (ltb 0 (length rest))
          (extension c t (w * 4) (bytes ++ rest))
unfolding extensions block
extensions-block fuel c t w bytes rest t_fits w_fits e =
    let type : (t / 2 ^ 8 % 2 ^ 8 * 2 ^ 8 + t % 2 ^ 8 ≡ t) = omega arith in
    let size : ((w / 2 ^ 8 % 2 ^ 8 * 2 ^ 8 + w % 2 ^ 8) * 4 ≡ w * 4) = omega arith in
    let more : (ltb (w * 4) (length (bytes ++ rest)) ≡ ltb 0 (length rest)) =
      let n = length-append bytes rest in ground (arith, n) in
    rw (extensions, type, size, more, drop_front (w * 4) bytes rest e) refl

pub read_sid-written :
    (c : Handshake) (s rest : List ℕ)
    → length s ≤ 512
    → read_sid c (words_of s * 4) (write_words (pad s) ++ rest)
      ≡ ok (record c { has_sid = true; stream_id = trim_right s })
unfolding read_sid pad
read_sid-written c s rest h =
    let w = words_of s in
    let n = length-pad s in
    let l = length-write_words w (pad s) n in
    let q : (w * 4 / 4 ≡ w) = omega arith in
    rw
      (
        le→ltb_false 512 (w * 4) (omega arith),
        le→ltb_false (length (write_words (pad s) ++ rest)) (w * 4)
            (omega (arith, l, length-append (write_words (pad s)) rest)),
        q,
        read-write_words w (pad s) rest n,
        trim_right-append s ((4 - length s % 4) % 4),
      )
      refl

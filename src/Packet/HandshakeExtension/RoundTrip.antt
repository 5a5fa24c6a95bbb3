-- ===== src/Packet/HandshakeExtension/RoundTrip.antt =====
-- Reading back a handshake extension message that was written.
use gosrt.Common.{
  ℕ, ◌<◌, ◌≡◌, refl, ap, ◌∙◌, arith, Bool, true, false, ◌&&◌, not, IsU16, IsU32, ltb, ltb→lt, zero,
  suc, sym, List, [], ◌++◌, append-nil, length, le→ltb_false,
}
use gosrt.Packet.Header.{is_set}
use gosrt.Packet.Wire.{ok, put16, put32, uint16, uint32}
use gosrt.Packet.HandshakeExtension.{
  HandshakeExtension, HandshakeExtensionFlags, read_flags, write_flags, unmarshal, marshal,
}

pub record Fits (c : HandshakeExtension) : Type 0 where
  pub version_fits : IsU32 c.srt_version
  pub recv_fits : IsU16 c.recv_tsbpd_delay
  pub send_fits : IsU16 c.send_tsbpd_delay

-- A test of all arguments of a function of `n` Booleans.
abbrev Test : ℕ → Type 0
Test zero = Bool
Test (suc n) = Bool → Test n

abbrev every : (n : ℕ) → Test n → Bool
every zero t = t
every (suc n) t = every n (t true) && every n (t false)

abbrev Holds : (n : ℕ) → Test n → Type 0
Holds zero t = t ≡ true
Holds (suc n) t = (b : Bool) → Holds n (t b)

every-Holds : (n : ℕ) (t : Test n) → every n t ≡ true → Holds n t
every-Holds zero t e = e
every-Holds (suc n) t e = λ b. elim b as (λ b. Holds n (t b)) [
  | true ↦ every-Holds n (t true) (ground arith)
  | false ↦ every-Holds n (t false) (ground arith)
]

abbrev of_flags : (HandshakeExtensionFlags → Bool) → Test 8
of_flags p = λ a b c d e f g h. p (record {
  tsbpd_snd = a;
  tsbpd_rcv = b;
  crypt = c;
  tlpktdrop = d;
  periodic_nak = e;
  rexmit_flg = f;
  stream = g;
  packet_filter = h;
})

every_flags :
    (p : HandshakeExtensionFlags → Bool)
    → every 8 (of_flags p) ≡ true
    → (f : HandshakeExtensionFlags) → p f ≡ true
every_flags p e f =
    every-Holds 8 (of_flags p) e f.tsbpd_snd f.tsbpd_rcv f.crypt f.tlpktdrop f.periodic_nak
      f.rexmit_flg f.stream f.packet_filter

abbrev agree : Bool → Bool → Bool
agree true b = b
agree false b = not b

agree→eq : (a b : Bool) → agree a b ≡ true → a ≡ b
agree→eq true b e = sym e
agree→eq false b e = ground arith

write_flags-small : (f : HandshakeExtensionFlags) → write_flags f < 256
unfolding write_flags
write_flags-small f = ltb→lt (write_flags f) 256 (every_flags (λ f. ltb (write_flags f) 256) refl f)

same_flag :
    (g : HandshakeExtensionFlags → Bool)
    → every 8 (of_flags (λ f. agree (g (read_flags (write_flags f))) (g f))) ≡ true
    → (f : HandshakeExtensionFlags) → g (read_flags (write_flags f)) ≡ g f
same_flag g e f = agree→eq _ _ (every_flags (λ f. agree (g (read_flags (write_flags f))) (g f)) e f)

read-write_flags : (f : HandshakeExtensionFlags) → read_flags (write_flags f) ≡ f
unfolding read_flags write_flags is_set
read-write_flags f = λ i. record {
  tsbpd_snd = same_flag (λ f. f.tsbpd_snd) refl f i;
  tsbpd_rcv = same_flag (λ f. f.tsbpd_rcv) refl f i;
  crypt = same_flag (λ f. f.crypt) refl f i;
  tlpktdrop = same_flag (λ f. f.tlpktdrop) refl f i;
  periodic_nak = same_flag (λ f. f.periodic_nak) refl f i;
  rexmit_flg = same_flag (λ f. f.rexmit_flg) refl f i;
  stream = same_flag (λ f. f.stream) refl f i;
  packet_filter = same_flag (λ f. f.packet_filter) refl f i;
}

-- The same where other bytes follow.
pub unmarshal-written :
    (c : HandshakeExtension) (rest : List ℕ) → Fits c → unmarshal (marshal c ++ rest) ≡ ok c
unfolding marshal unmarshal
unmarshal-written c rest f =
    let v : (uint32 (put32 c.srt_version) 0 ≡ c.srt_version) = omega (arith, f.version_fits) in
    let w : (uint32 (put32 (write_flags c.srt_flags)) 0 ≡ write_flags c.srt_flags) =
      omega (arith, write_flags-small c.srt_flags) in
    let r : (uint16 (put16 c.recv_tsbpd_delay) 0 ≡ c.recv_tsbpd_delay) =
      omega (arith, f.recv_fits) in
    let s : (uint16 (put16 c.send_tsbpd_delay) 0 ≡ c.send_tsbpd_delay) =
      omega (arith, f.send_fits) in
    rw (le→ltb_false (length (marshal c ++ rest)) 12 (omega arith)) (λ i. ok (record {
      srt_version = v i;
      srt_flags = (ap read_flags w ∙ read-write_flags c.srt_flags) i;
      recv_tsbpd_delay = r i;
      send_tsbpd_delay = s i;
    }))

-- A handshake extension message whose numbers fit their words: reading what was written gives back
-- every field and all eight flags.
pub unmarshal-marshal-HandshakeExtension :
    (c : HandshakeExtension) → Fits c → unmarshal (marshal c) ≡ ok c
unmarshal-marshal-HandshakeExtension c f =
    ap unmarshal (sym (append-nil (marshal c))) ∙ unmarshal-written c [] f

pub length-marshal : (c : HandshakeExtension) → length (marshal c) ≡ 12
unfolding marshal
length-marshal c = refl

-- ===== src/Packet/HandshakeWriter/Blocks.antt =====
-- Reading a handshake that was written, block by block.
use gosrt.Common.{
  ℕ, suc, ◌+◌, ◌/◌, ◌%◌, ◌^◌, ◌≤◌, ◌≡◌, refl, ap, ◌∙◌, arith, Bool, true, false, not, ◌&&◌, ◌||◌,
  List, [], ◌++◌, some, IsU32, length, length-append, ltb, leb, if◌then◌else◌, ◌==◌, bit_or,
}
use gosrt.Circular.Offset.{IsSeq}
use gosrt.Packet.Wire.{ok}
use gosrt.Packet.HandshakeExtension.{HandshakeExtension}
use gosrt.Packet.HandshakeExtension
use gosrt.Packet.Handshake.{
  Handshake, hstype_conclusion, trim_right, extension, extensions, read_hs, go_on, unmarshal,
}
use gosrt.Packet.HandshakeWriter.{
  is_live, pad, write_words, extension_bits, with_fields, fixed_part, block, string_block, hs_block,
  km_block, sid_block, extension_blocks, congestion_block, write,
}
use gosrt.Packet.HandshakeWriter.FixedPart.{
  FixedFits, set_fixed, read-fixed_part, length-fixed_part, drop-fixed_part,
}
use gosrt.Packet.HandshakeWriter.Strings.{
  extensions-block, read_sid-written, words_of, length-pad, length-write_words,
}

-- A conclusion of version 5 with a handshake extension, without key material, for a live stream.
pub record Plain (c : Handshake) : Type 0 where
  pub version : c.version ≡ 5
  pub conclusion : c.handshake_type ≡ hstype_conclusion
  pub extended : c.has_hs ≡ true
  pub no_key : c.has_km ≡ false
  pub live : (c.has_congestion_ctl && not (is_live c.congestion_ctl)) ≡ false
  pub cipher :
      ((c.encryption_field == 0)
        || (c.encryption_field == 2)
        || (c.encryption_field == 3)
        || (c.encryption_field == 4))
      ≡ true
  pub sequence : IsSeq c.initial_packet_sequence_number
  pub mtu_fits : IsU32 c.max_transmission_unit_size
  pub flow_fits : IsU32 c.max_flow_window_size
  pub socket_fits : IsU32 c.srt_socket_id
  pub cookie_fits : IsU32 c.syn_cookie
  pub stream_fits : length c.stream_id ≤ 512

abbrev pub sent : Handshake → Handshake
sent c = record c { extension_field = extension_bits c }

-- The fixed fields of `c`, as it goes out, in a handshake `h`.
abbrev pub with_fixed : Handshake → Handshake → Handshake
with_fixed h c = set_fixed h (sent c)

-- The bits for a stream id and for the congestion control.
abbrev bits : Bool → Bool → ℕ
bits sid ctl = if ctl then bit_or (if sid then 5 else 1) 4 else (if sid then 5 else 1)

bits-bound : (sid ctl : Bool) → (1 ≤ bits sid ctl) × (bits sid ctl ≤ 7)
bits-bound true true = (omega arith, omega arith)
bits-bound true false = (omega arith, omega arith)
bits-bound false true = (omega arith, omega arith)
bits-bound false false = (omega arith, omega arith)

is_conclusion : (c : Handshake) → Plain c → (c.handshake_type == hstype_conclusion) ≡ true
is_conclusion c p = ground (arith, p.conclusion)

extension_bits-bound : (c : Handshake) → Plain c → (1 ≤ extension_bits c) × (extension_bits c ≤ 7)
unfolding extension_bits
extension_bits-bound c p =
    rw (extension_bits, is_conclusion c p, p.extended, p.no_key)
      (bits-bound c.has_sid c.has_congestion_ctl)

sent-FixedFits : (c : Handshake) → Plain c → FixedFits (sent c)
sent-FixedFits c p =
    let bits = extension_bits-bound c p in
    let cipher = p.cipher in
    record {
      version_fits = omega (arith, p.version);
      encryption_fits = ground arith;
      extension_fits = omega arith;
      sequence = p.sequence;
      mtu_fits = p.mtu_fits;
      flow_fits = p.flow_fits;
      type_fits = omega (arith, p.conclusion);
      socket_fits = p.socket_fits;
      cookie_fits = p.cookie_fits;
    }

unmarshal-fixed :
    (h c : Handshake) (rest : List ℕ)
    → Plain c
    → 1 ≤ length rest
    → unmarshal h (fixed_part (sent c) ++ rest)
      ≡ extensions (48 + length rest) (with_fixed h c) rest
unfolding unmarshal
unmarshal-fixed h c rest p some_rest =
    let f = sent-FixedFits c p in
    let bits = extension_bits-bound c p in
    let n : (length (fixed_part (sent c) ++ rest) ≡ 48 + length rest) =
      length-fixed_part (sent c) rest f in
    let type = is_conclusion c p in
    let long : (ltb (48 + length rest) 48 ≡ false) = ground arith in
    let longer : (leb (48 + length rest) 48 ≡ false) = ground arith in
    let announced : ((extension_bits c == 0) ≡ false) = ground arith in
    rw
      (
        unmarshal,
        read-fixed_part h (sent c) rest f,
        drop-fixed_part (sent c) rest f,
        n,
        long,
        longer,
        announced,
        is_conclusion c p,
        p.cipher,
      )
      refl

read_hs-written :
    (h : Handshake) (request : Bool) (x : HandshakeExtension) (rest : List ℕ)
    → HandshakeExtension.RoundTrip.Fits x
    → extension h (if request then 1 else 2) 12 (HandshakeExtension.marshal x ++ rest)
      ≡ ok (record h { has_hs = true; srt_hs = some x })
unfolding extension read_hs
read_hs-written h request x rest f =
    let n = length-append (HandshakeExtension.marshal x) rest in
    let m = HandshakeExtension.RoundTrip.length-marshal x in
    let long : (ltb (length (HandshakeExtension.marshal x ++ rest)) 12 ≡ false) =
      ground (arith, n, m) in
    elim request
      as (λ request.
        extension h (if request then 1 else 2) 12 (HandshakeExtension.marshal x ++ rest)
        ≡ ok (record h { has_hs = true; srt_hs = some x })) [
          | true ↦
              rw (extension, read_hs, long, HandshakeExtension.RoundTrip.unmarshal-written x rest f)
                refl
          | false ↦
              rw (extension, read_hs, long, HandshakeExtension.RoundTrip.unmarshal-written x rest f)
                refl
        ]

abbrev pub with_stream : Handshake → Bool → List ℕ → Handshake
with_stream h true s = record h { has_sid = true; stream_id = trim_right s }
with_stream h false s = h

read_stream :
    (fuel : ℕ) (h : Handshake) (b : Bool) (s : List ℕ)
    → length s ≤ 512
    → go_on
        (λ c. extensions (suc fuel) c ((if b then string_block 5 s else []) ++ []))
        (ltb 0 (length ((if b then string_block 5 s else []) ++ [])))
        (ok h)
      ≡ some (ok (with_stream h b s))
unfolding string_block block extension
read_stream fuel h false s f = refl
read_stream fuel h true s f =
    let w = words_of s in
    let n = length-pad s in
    let size : (length (pad s) / 4 % 2 ^ 16 ≡ w) = omega arith in
    let l = length-write_words w (pad s) n in
    let more : (ltb 0 (length (string_block 5 s ++ [])) ≡ true) = ground arith in
    rw (more, string_block, size)
      (rw (extensions-block fuel h 5 w (write_words (pad s)) [] (omega arith) (omega arith) l)
        (rw (read_sid-written h s [] f) refl))

-- What the reader makes of a handshake `c` when it had the fields of `h`.
abbrev pub received : Handshake → Handshake → HandshakeExtension → Handshake
received h c x =
    with_stream (record (with_fixed h c) { has_hs = true; srt_hs = some x }) c.has_sid c.stream_id

abbrev pub blocks : Handshake → HandshakeExtension → List ℕ
blocks c x =
    block (if c.is_request then 1 else 2) 3 (HandshakeExtension.marshal x) ++ (sid_block c ++ [])

type-bound : (b : Bool) → (if b then 1 else 2) ≤ 65535
type-bound true = omega arith
type-bound false = omega arith

extensions-blocks :
    (fuel : ℕ) (h c : Handshake) (x : HandshakeExtension)
    → Plain c
    → HandshakeExtension.RoundTrip.Fits x
    → extensions (suc (suc fuel)) h (blocks c x)
      ≡ some (ok (with_stream (record h { has_hs = true; srt_hs = some x }) c.has_sid c.stream_id))
unfolding sid_block
extensions-blocks fuel h c x p f =
    let rest = sid_block c ++ [] in
    extensions-block (suc fuel) h (if c.is_request then 1 else 2) 3 (HandshakeExtension.marshal x)
      rest (type-bound c.is_request) (omega arith) (HandshakeExtension.RoundTrip.length-marshal x)
    ∙ (ap (go_on (λ c. extensions (suc fuel) c rest) (ltb 0 (length rest)))
          (read_hs-written h c.is_request x rest f)
        ∙ read_stream fuel (record h { has_hs = true; srt_hs = some x }) c.has_sid c.stream_id
            p.stream_fits)

pub unmarshal-blocks :
    (h c : Handshake) (x : HandshakeExtension)
    → Plain c
    → HandshakeExtension.RoundTrip.Fits x
    → unmarshal h (fixed_part (sent c) ++ blocks c x) ≡ some (ok (received h c x))
unfolding block
unmarshal-blocks h c x p f =
    let n = length (blocks c x) in
    let some_blocks : (1 ≤ n) = omega arith in
    let fuel : (48 + n ≡ suc (suc (46 + n))) = omega arith in
    unmarshal-fixed h c (blocks c x) p some_blocks
    ∙ (ap (λ k. extensions k (with_fixed h c) (blocks c x)) fuel
        ∙ extensions-blocks (46 + n) (with_fixed h c) c x p f)

pub write-Plain :
    (c : Handshake) (x : HandshakeExtension)
    → Plain c
    → c.srt_hs ≡ some x
    → write c ≡ ok (sent c, fixed_part (sent c) ++ blocks c x)
unfolding write with_fields extension_blocks hs_block km_block sid_block congestion_block
write-Plain c x p e =
    let five : ((c.version == 5) ≡ true) = ground (arith, p.version) in
    rw
      (
        write, with_fields, extension_blocks, hs_block, km_block, sid_block, congestion_block, five,
        p.no_key, p.extended, e, p.live,
      )
      refl

pub normal-Plain :
    (b : Bool) (c : Handshake) → Plain c → Plain (if b then record c { has_sid = false } else c)
normal-Plain false c p = p
normal-Plain true c p = record {
  version = p.version;
  conclusion = p.conclusion;
  extended = p.extended;
  no_key = p.no_key;
  live = p.live;
  cipher = p.cipher;
  sequence = p.sequence;
  mtu_fits = p.mtu_fits;
  flow_fits = p.flow_fits;
  socket_fits = p.socket_fits;
  cookie_fits = p.cookie_fits;
  stream_fits = p.stream_fits;
}

pub normal_hs :
    (b : Bool) (c : Handshake) (x : HandshakeExtension)
    → c.srt_hs ≡ some x
    → (if b then record c { has_sid = false } else c).srt_hs ≡ some x
normal_hs false c x e = e
normal_hs true c x e = e

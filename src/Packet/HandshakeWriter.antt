-- ===== src/Packet/HandshakeWriter.antt =====
-- packet/packet.go: Marshal of CIFHandshake. Where Marshal of net/ip.go replaces the address by its
-- default or widens it, the handshake keeps the old one, which is written in the same bytes again.
pub mod Strings
pub mod FixedPart
pub mod Blocks
pub mod RoundTrip
mod Runs
use gosrt.Common.{
  ℕ, ◌-◌, ◌/◌, ◌%◌, ◌^◌, Bool, false, not, ◌&&◌, none, some, List, [], ◌∷◌, ◌++◌, length, replicate,
  ◌==◌, if◌then◌else◌, bit_or,
}
use gosrt.Packet.Wire.{Result, ok, panics, ◌>>=◌, put16, put32}
use gosrt.Net.Ip
use gosrt.Packet.HandshakeExtension
use gosrt.Packet.KeyMaterial
use gosrt.Packet.KeyMaterial.{KeyMaterial}
use gosrt.Packet.Handshake.{Handshake, hstype_conclusion}

-- "live"
abbrev pub is_live : List ℕ → Bool
is_live (a ∷ b ∷ c ∷ d ∷ []) = (a == 108) && (b == 105) && (c == 118) && (d == 101)
is_live s = false

-- The extension field of version 5.
unfoldable pub extension_bits : Handshake → ℕ
extension_bits c =
    let e = if c.handshake_type == hstype_conclusion then 0 else c.extension_field in
    let e = if c.has_hs then bit_or e 1 else e in
    let e = if c.has_km then bit_or e 2 else e in
    let e = if c.has_sid then bit_or e 4 else e in if c.has_congestion_ctl then bit_or e 4 else e

-- The fields that the writer sets first. Key material that is announced and nil panics.
unfoldable pub with_fields : Handshake → Result Handshake
with_fields c =
    if not (c.version == 5)
    then ok (record c { encryption_field = 0; extension_field = 2 })
    else if not c.has_km
    then ok (record c { extension_field = extension_bits c })
    else elim c.srt_km [
      | none ↦ panics
      | some k ↦ ok (record c { encryption_field = k.klen / 8; extension_field = extension_bits c })
    ]

abbrev pub without_empty_sid : Handshake → Handshake
without_empty_sid c = if length c.stream_id == 0 then record c { has_sid = false } else c

unfoldable pub fixed_part : Handshake → List ℕ
fixed_part c =
    put32 c.version
    ++ (put16 c.encryption_field
        ++ (put16 c.extension_field
            ++ (put32 c.initial_packet_sequence_number.value
                ++ (put32 c.max_transmission_unit_size
                    ++ (put32 c.max_flow_window_size
                        ++ (put32 c.handshake_type
                            ++ (put32 c.srt_socket_id
                                ++ (put32 c.syn_cookie ++ Ip.marshal (some c.peer_ip)))))))))

-- An extension: its type, its length in words, and its bytes.
pub block : ℕ → ℕ → List ℕ → List ℕ
block t words bytes = put16 t ++ (put16 words ++ bytes)

-- A string with zeros up to a whole word, and its words with their bytes reversed.
pub pad : List ℕ → List ℕ
pad s = s ++ replicate ((4 - length s % 4) % 4) 0

pub write_words : List ℕ → List ℕ
write_words (a ∷ b ∷ c ∷ d ∷ rest) = let words = write_words rest in d ∷ c ∷ b ∷ a ∷ words
write_words s = []

pub string_block : ℕ → List ℕ → List ℕ
string_block t s = block t (length (pad s) / 4 % 2 ^ 16) (write_words (pad s))

unfoldable pub hs_block : Handshake → Result (List ℕ)
hs_block c = if not c.has_hs then ok [] else elim c.srt_hs [
  | none ↦ panics
  | some x ↦ ok (block (if c.is_request then 1 else 2) 3 (HandshakeExtension.marshal x))
]

unfoldable pub km_block : Handshake → Result (List ℕ)
km_block c = if not c.has_km then ok [] else elim c.srt_km [
  | none ↦ panics
  | some k ↦
      (KeyMaterial.marshal k
        >>= (λ b. ok (block (if c.is_request then 3 else 4) (length b / 4 % 2 ^ 16) b)))
]

unfoldable pub sid_block : Handshake → List ℕ
sid_block c = if c.has_sid then string_block 5 c.stream_id else []

unfoldable pub congestion_block : Handshake → List ℕ
congestion_block c =
    if c.has_congestion_ctl && not (is_live c.congestion_ctl)
    then string_block 6 c.congestion_ctl
    else []

unfoldable pub extension_blocks : Handshake → Result (List ℕ)
extension_blocks c =
    hs_block c
    >>= (λ hs. km_block c >>= (λ km. ok (hs ++ (km ++ (sid_block c ++ congestion_block c)))))

-- The handshake with the fields that were set, and the bytes.
unfoldable pub write : Handshake → Result (Handshake × List ℕ)
write c = with_fields c >>= (λ c. extension_blocks c >>= (λ b. ok (c, fixed_part c ++ b)))

-- `Marshal`
unfoldable pub marshal : Handshake → Result (Handshake × List ℕ)
marshal c = write (without_empty_sid c)

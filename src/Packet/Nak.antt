-- ===== src/Packet/Nak.antt =====
-- packet/packet.go: the control information field of a loss report: ranges of lost packets as pairs
-- of numbers. Go's sort.Slice is the parameter `sort`.
pub mod RoundTrip
use gosrt.Common.{
  ℕ, ◌+◌, ◌-◌, ◌*◌, ◌/◌, ◌%◌, ◌^◌, Bool, true, false, ◌&&◌, List, [], ◌∷◌, ◌++◌, length, leb, ◌==◌,
  if◌then◌else◌, bit_and, bit_or,
}
use gosrt.Circular.{Number, new}
use gosrt.Packet.Types.{max_sequence_number, max_payload_size}
use gosrt.Packet.Wire.{Result, ok, err, invalid_length, too_short, put32, uint32}
use gosrt.Packet.Header.{is_set}

-- Go's `==` on the struct.
abbrev pub same : Number → Number → Bool
same a b = (a.max == b.max) && (a.threshold == b.threshold) && (a.value == b.value)

-- The loop of `Unmarshal` over the words; the length is a multiple of 4.
pub read : Bool → List ℕ → List Number
read is_range (a ∷ b ∷ c ∷ d ∷ rest) =
    let sequence_number =
      new (bit_and (uint32 (a ∷ b ∷ c ∷ d ∷ []) 0) max_sequence_number) max_sequence_number in
    let numbers = read (is_set a 0x80) rest in
    if is_set a 0x80
    then sequence_number ∷ numbers
    else if is_range
    then sequence_number ∷ numbers
    else sequence_number ∷ sequence_number ∷ numbers
read is_range _ = []

pub unmarshal : (List Number → List Number) → List ℕ → Result (List Number)
unmarshal sort d =
    if length d % 4 == 0
    then (let l = read false d in if length l % 2 == 0 then ok (sort l) else err too_short)
    else err invalid_length

-- The loop of `Marshal` over the pairs, with the bytes written so far.
unfoldable pub write : ℕ → List Number → List ℕ
write bytes_written [] = []
write bytes_written (a ∷ []) = []
write bytes_written (a ∷ b ∷ rest) =
    let bytes =
      if same a b then put32 a.value else put32 (bit_or a.value 0x8000_0000) ++ put32 b.value in
    let bytes_written = bytes_written + length bytes in
    let more = write bytes_written rest in
    bytes ++ (if leb (max_payload_size - 4) bytes_written then [] else more)

unfoldable pub marshal : List Number → Result (List ℕ)
marshal l = if length l % 2 == 0 then ok (write 0 l) else err invalid_length

-- ===== src/Packet/Handshake.antt =====
-- packet/packet.go: reading the handshake with its extensions, and the shutdown message. The peer's
-- address is the IP that net/ip.go reads; an empty one is nil.
pub mod Loop
pub mod Panics
use gosrt.Common.{
  ℕ, zero, suc, ◌*◌, ◌+◌, ◌/◌, ◌^◌, Bool, true, false, not, ◌&&◌, ◌||◌, Option, none, some, List,
  [], ◌∷◌, length, take, drop, replicate, ltb, leb, ◌==◌, if◌then◌else◌,
}
use gosrt.Circular.{Number}
use gosrt.Packet.Wire.{
  Result, ok, err, panics, reading, ◌>>=◌, too_short, invalid_length, invalid_encryption_field,
  invalid_key_length, uint16, uint32,
}
use gosrt.Net.Ip
use gosrt.Packet.Ack.{read_sequence_number}
use gosrt.Packet.HandshakeExtension.{HandshakeExtension}
use gosrt.Packet.HandshakeExtension
use gosrt.Packet.KeyMaterial.{KeyMaterial}
use gosrt.Packet.KeyMaterial

pub record Handshake : Type 0 where
  pub is_request : Bool
  pub version : ℕ
  pub encryption_field : ℕ
  pub extension_field : ℕ
  pub initial_packet_sequence_number : Number
  pub max_transmission_unit_size : ℕ
  pub max_flow_window_size : ℕ
  pub handshake_type : ℕ
  pub srt_socket_id : ℕ
  pub syn_cookie : ℕ
  pub peer_ip : List ℕ
  pub has_hs : Bool
  pub has_km : Bool
  pub has_sid : Bool
  pub has_congestion_ctl : Bool
  pub srt_hs : Option HandshakeExtension
  pub srt_km : Option KeyMaterial
  pub stream_id : List ℕ
  pub congestion_ctl : List ℕ

-- HandshakeType
abbrev pub hstype_conclusion : ℕ
hstype_conclusion = 0xffff_ffff

abbrev pub empty_key_material : KeyMaterial
empty_key_material = record {
  error = 0;
  s = 0;
  version = 0;
  packet_type = 0;
  sign = 0;
  resv1 = 0;
  key_based_encryption = 0;
  key_encryption_key_index = 0;
  cipher = 0;
  authentication = 0;
  stream_encapsulation = 0;
  resv2 = 0;
  resv3 = 0;
  slen = 0;
  klen = 0;
  salt = [];
  wrap = [];
}

-- A string is written in words of reversed bytes, with zeros at its end.
unfoldable pub read_words : ℕ → List ℕ → List ℕ
read_words (suc n) (a ∷ b ∷ c ∷ d ∷ rest) = let words = read_words n rest in d ∷ c ∷ b ∷ a ∷ words
read_words n d = []

unfoldable pub trim_right : List ℕ → List ℕ
trim_right [] = []
trim_right (b ∷ bs) = elim (trim_right bs) [
  | [] ↦ if b == 0 then [] else (b ∷ [])
  | c ∷ cs ↦ b ∷ c ∷ cs
]

-- The key length has to be that of the cipher.
pub check_key_length : Handshake → KeyMaterial → Result Handshake
check_key_length c k =
    let f = c.encryption_field in
    if (f == 2) && not (k.klen == 16)
    then err invalid_key_length
    else if (f == 3) && not (k.klen == 24)
    then err invalid_key_length
    else if (f == 4) && not (k.klen == 32)
    then err invalid_key_length
    else ok c

unfoldable pub read_hs : Handshake → ℕ → List ℕ → Result Handshake
read_hs c l pivot =
    if not (l == 12) || ltb (length pivot) l
    then err invalid_length
    else (HandshakeExtension.unmarshal pivot
        >>= (λ x. ok (record c { has_hs = true; srt_hs = some x })))

-- The key material sets the cipher where the handshake leaves it open.
abbrev pub with_key : Handshake → KeyMaterial → Result Handshake
with_key c k =
    let field = if c.encryption_field == 0 then 2 else c.encryption_field in
    check_key_length (record c { has_km = true; srt_km = some k; encryption_field = field }) k

pub read_km : Handshake → ℕ → List ℕ → Result Handshake
read_km c l pivot =
    if ltb (length pivot) l
    then err invalid_length
    else (KeyMaterial.unmarshal empty_key_material pivot >>= with_key c)

unfoldable pub read_sid : Handshake → ℕ → List ℕ → Result Handshake
read_sid c l pivot =
    if ltb 512 l || ltb (length pivot) l
    then err invalid_length
    else reading l pivot
        (ok (record c { has_sid = true; stream_id = trim_right (read_words (l / 4) pivot) }))

unfoldable pub read_congestion : Handshake → ℕ → List ℕ → Result Handshake
read_congestion c l pivot =
    if ltb 4 l || ltb (length pivot) l
    then err invalid_length
    else reading l pivot (
        ok (record c {
          has_congestion_ctl = true;
          congestion_ctl = trim_right (read_words (l / 4) pivot);
        }))

-- One extension, of a type and a length in bytes.
unfoldable pub extension : Handshake → ℕ → ℕ → List ℕ → Result Handshake
extension c t l pivot =
    if (t == 1) || (t == 2)
    then read_hs c l pivot
    else if (t == 3) || (t == 4)
    then read_km c l pivot
    else if t == 5
    then read_sid c l pivot
    else if t == 6
    then read_congestion c l pivot
    else if ltb (length pivot) l
    then err invalid_length
    else ok c

-- After an extension: the rest of the loop, if bytes are left.
abbrev pub go_on :
    (Handshake → Option (Result Handshake)) → Bool → Result Handshake → Option (Result Handshake)
go_on rest more (ok c) = if more then rest c else some (ok c)
go_on rest more (err e) = some (err e)
go_on rest more panics = some panics

-- The loop over the extensions. `none` is fuel that ran out.
unfoldable pub extensions : ℕ → Handshake → List ℕ → Option (Result Handshake)
extensions zero c pivot = none
extensions (suc fuel) c (a ∷ b ∷ x ∷ y ∷ pivot) =
    let l = (x * 2 ^ 8 + y) * 4 in
    go_on (λ c'. extensions fuel c' (drop l pivot)) (ltb l (length pivot))
      (extension c (a * 2 ^ 8 + b) l pivot)
extensions (suc fuel) c pivot = some panics

-- The address that `PeerIP` holds: an error leaves it as it was.
abbrev pub read_peer : List ℕ → Result (List ℕ) → List ℕ
read_peer old (ok ip) = ip
read_peer old (err e) = old
read_peer old panics = old

abbrev pub fixed_fields : Handshake → List ℕ → Handshake
fixed_fields c d = record c {
  version = uint32 d 0;
  encryption_field = uint16 d 4;
  extension_field = uint16 d 6;
  initial_packet_sequence_number = read_sequence_number d 8;
  max_transmission_unit_size = uint32 d 12;
  max_flow_window_size = uint32 d 16;
  handshake_type = uint32 d 20;
  srt_socket_id = uint32 d 24;
  syn_cookie = uint32 d 28;
  peer_ip = read_peer c.peer_ip (Ip.unmarshal (take 16 (drop 32 d)));
}

unfoldable pub read_fixed : Handshake → List ℕ → Result Handshake
read_fixed c d = reading 48 d (ok (fixed_fields c d))

-- The part behind the fixed fields.
abbrev pub read_rest : List ℕ → Result Handshake → Option (Result Handshake)
read_rest d (err e) = some (err e)
read_rest d panics = some panics
read_rest d (ok h) =
    let f = h.encryption_field in
    if not (h.handshake_type == hstype_conclusion)
    then some (ok h)
    else if (h.extension_field == 0) || leb (length d) 48
    then some (ok h)
    else if not ((f == 0) || (f == 2) || (f == 3) || (f == 4))
    then some (err invalid_encryption_field)
    else extensions (length d) h (drop 48 d)

unfoldable pub unmarshal : Handshake → List ℕ → Option (Result Handshake)
unmarshal c d = if ltb (length d) 48 then some (err too_short) else read_rest d (read_fixed c d)

-- CIFShutdown
pub unmarshal_shutdown : List ℕ → Result (Unit {0})
unmarshal_shutdown d =
    if not (length d == 0) && not (length d == 4) then err invalid_length else ok tt

pub marshal_shutdown : List ℕ
marshal_shutdown = replicate 4 0

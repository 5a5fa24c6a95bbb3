-- ===== src/Packet/Header/RoundTrip.antt =====
-- Reading back a packet that was written.
use gosrt.Common.{
  append_assoc, le→ltb_false, ℕ, ◌+◌, ◌*◌, ◌/◌, ◌%◌, ◌^◌, ◌<◌, ◌≡◌, refl, ap, ◌∙◌, arith, Bool,
  true, false, some, List, ◌++◌, length, drop, ltb, if◌then◌else◌, bit_and, bit_or,
}
use gosrt.Common.Bits.{bit_and_15}
use gosrt.Circular.{new}
use gosrt.Circular.Offset.{new-IsSeq}
use gosrt.Packet.Types.{PacketHeader, Packet}
use gosrt.Packet.Wire.{ok, ◌>>=◌, set_0x80, byte_at, uint32, uint16, put32, put16}
use gosrt.Packet.Header.{
  is_set, unmarshal_control, unmarshal_data, unmarshal, control_words, data_words, marshal_header,
  marshal,
}
use gosrt.Packet.Header.Fields.{
  Fits, received_control, received_data, received, field, field-Word, data_byte, control_byte,
}

-- The branches of `unmarshal` on enough bytes.
as_data :
    (q : Packet) (d old : List ℕ)
    → q.payload ≡ some old
    → is_set (byte_at d 0) 0x80 ≡ false
    → ltb (length d) 16 ≡ false
    → unmarshal q d
      ≡ ok (record {
        header = record (unmarshal_data q.header d) {
          timestamp = uint32 d 8;
          destination_socket_id = uint32 d 12;
        };
        payload = some (drop 16 d);
      })
unfolding unmarshal
as_data q d old w e l = rw (l, w, e) refl

as_control :
    (q : Packet) (d old : List ℕ)
    → q.payload ≡ some old
    → is_set (byte_at d 0) 0x80 ≡ true
    → ltb (length d) 16 ≡ false
    → unmarshal q d
      ≡ ok (record {
        header = record (unmarshal_control q.header d) {
          timestamp = uint32 d 8;
          destination_socket_id = uint32 d 12;
        };
        payload = some (drop 16 d);
      })
unfolding unmarshal
as_control q d old w e l = rw (l, w, e) refl

tail : PacketHeader → List ℕ → List ℕ
tail h b = (put32 h.timestamp ++ put32 h.destination_socket_id) ++ b

data_packet :
    (h : PacketHeader) (q : Packet) (b old : List ℕ)
    → q.payload ≡ some old
    → Fits h
    → unmarshal q (data_words h ++ tail h b)
      ≡ ok (record { header = received_data q.header h; payload = some b })
unfolding data_words unmarshal_data field tail
data_packet h q b old held f =
    let w = field-Word h f in
    let v = h.packet_sequence_number in
    let s : (new (uint32 (put32 v.value) 0) 0x7fff_ffff ≡ v) =
      ap (λ t. new t 0x7fff_ffff) (omega arith) ∙ new-IsSeq v f.sequence in
    let t : (uint32 (put32 h.timestamp) 0 ≡ h.timestamp) = omega arith in
    let d : (uint32 (put32 h.destination_socket_id) 0 ≡ h.destination_socket_id) = omega arith in
    let y = data_words h ++ tail h b in
    as_data q y old held (data_byte v.value f.sequence.in_range)
      (le→ltb_false (length y) 16 (omega arith))
    ∙ (λ i. ok (record {
      header = record (q.header) {
        is_control_packet = false;
        packet_sequence_number = s i;
        packet_position_flag = w.position i;
        order_flag = w.order i;
        key_base_encryption_flag = w.encryption i;
        retransmitted_packet_flag = w.again i;
        message_number = w.number i;
        timestamp = t i;
        destination_socket_id = d i;
      };
      payload = some b;
    }))

control_packet :
    (h : PacketHeader) (q : Packet) (b old : List ℕ)
    → q.payload ≡ some old
    → Fits h
    → unmarshal q (control_words h ++ tail h b)
      ≡ ok (record { header = received_control q.header h; payload = some b })
unfolding control_words unmarshal_control tail
control_packet h q b old held f =
    let t : (uint32 (put32 h.timestamp) 0 ≡ h.timestamp) = omega arith in
    let d : (uint32 (put32 h.destination_socket_id) 0 ≡ h.destination_socket_id) = omega arith in
    let k = h.control_type in
    let n : (k / 2 ^ 8 % 2 ^ 8 < 128) = omega (arith, f.control_type_fits) in
    let o : (bit_or (k / 2 ^ 8 % 2 ^ 8) 0x80 ≡ k / 2 ^ 8 % 2 ^ 8 + 128) = set_0x80 _ n in
    let c : (bit_and (bit_or (k / 2 ^ 8 % 2 ^ 8) 0x80 * 2 ^ 8 + k % 2 ^ 8) 0x7fff ≡ k) =
      bit_and_15 (bit_or (k / 2 ^ 8 % 2 ^ 8) 0x80 * 2 ^ 8 + k % 2 ^ 8) ∙ omega arith in
    let u : (uint16 (put16 h.sub_type) 0 ≡ h.sub_type) = omega arith in
    let z : (uint32 (put32 h.type_specific) 0 ≡ h.type_specific) = omega arith in
    let y = control_words h ++ tail h b in
    as_control q y old held (control_byte (k / 2 ^ 8 % 2 ^ 8) n)
      (le→ltb_false (length y) 16 (omega arith))
    ∙ (λ i. ok (record {
      header = record (q.header) {
        is_control_packet = true;
        control_type = c i;
        sub_type = u i;
        type_specific = z i;
        timestamp = t i;
        destination_socket_id = d i;
      };
      payload = some b;
    }))

either_packet :
    (h : PacketHeader) (q : Packet) (b old : List ℕ)
    → q.payload ≡ some old
    → Fits h
    → (c : Bool)
    → unmarshal q ((if c then control_words h else data_words h) ++ tail h b)
      ≡ ok (record {
        header = if c then received_control q.header h else received_data q.header h;
        payload = some b;
      })
either_packet h q b old held f true = control_packet h q b old held f
either_packet h q b old held f false = data_packet h q b old held f

-- A packet whose fields fit the wire format is written, and reading what was written into any
-- packet that is in use gives back every field of its kind of packet, and the payload.
pub unmarshal-marshal :
    (p q : Packet) (b old : List ℕ)
    → q.payload ≡ some old
    → Fits p.header
    → p.payload ≡ some b
    → (marshal p >>= unmarshal q)
      ≡ ok (record { header = received q.header p.header; payload = some b })
unfolding marshal marshal_header tail
unmarshal-marshal p q b old held f e = rw e (
    ap (unmarshal q) (append_assoc _ _ b)
    ∙ either_packet p.header q b old held f p.header.is_control_packet)

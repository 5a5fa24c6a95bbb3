-- ===== src/Packet/Ack/RoundTrip.antt =====
-- Reading back an acknowledgement that was written.
use gosrt.Common.{ℕ, ◌≡◌, ap, ◌∙◌, arith, Bool, true, false, if◌then◌else◌, bit_and, IsU32}
use gosrt.Common.Bits.{bit_and_31}
use gosrt.Circular.{Number, new}
use gosrt.Circular.Offset.{IsSeq, new-IsSeq}
use gosrt.Packet.Wire.{ok, put32, uint32}
use gosrt.Packet.Ack.{CifAck, read_sequence_number, unmarshal, marshal}

pub record Fits (c : CifAck) : Type 0 where
  pub sequence : IsSeq c.last_ack_packet_sequence_number
  pub rtt_fits : IsU32 c.rtt
  pub rtt_var_fits : IsU32 c.rtt_var
  pub buffer_fits : IsU32 c.available_buffer_size
  pub packets_fit : IsU32 c.packets_receiving_rate
  pub capacity_fits : IsU32 c.estimated_link_capacity
  pub rate_fits : IsU32 c.receiving_rate

-- What the reader makes of an acknowledgement `c` when it had the fields of `old`: a lite one
-- carries the sequence number, a small one the first four fields, a full one all.
abbrev pub received : CifAck → CifAck → CifAck
received old c =
    let lite = record old {
      is_lite = true;
      is_small = false;
      last_ack_packet_sequence_number = c.last_ack_packet_sequence_number;
    } in
    let small = record old {
      is_lite = false;
      is_small = true;
      last_ack_packet_sequence_number = c.last_ack_packet_sequence_number;
      rtt = c.rtt;
      rtt_var = c.rtt_var;
      available_buffer_size = c.available_buffer_size;
    } in
    if c.is_lite
    then lite
    else if c.is_small
    then small
    else record c { is_lite = false; is_small = false }

pub read_written : (v : Number) → IsSeq v → read_sequence_number (put32 v.value) 0 ≡ v
read_written v s =
    let e : (bit_and (uint32 (put32 v.value) 0) 0x7fff_ffff ≡ v.value) =
      bit_and_31 (uint32 (put32 v.value) 0) ∙ omega (arith, s.in_range) in
    ap (λ t. new t 0x7fff_ffff) e ∙ new-IsSeq v s

word : (v : ℕ) → IsU32 v → uint32 (put32 v) 0 ≡ v
word v h = omega arith

lite_round_trip :
    (s : Bool) (c old : CifAck)
    → Fits c
    → unmarshal old (marshal (record c { is_lite = true; is_small = s }))
      ≡ ok (received old (record c { is_lite = true; is_small = s }))
unfolding marshal unmarshal
lite_round_trip s c old f = λ i. ok (record old {
  is_lite = true;
  is_small = false;
  last_ack_packet_sequence_number = read_written c.last_ack_packet_sequence_number f.sequence i;
})

small_round_trip :
    (c old : CifAck)
    → Fits c
    → unmarshal old (marshal (record c { is_lite = false; is_small = true }))
      ≡ ok (received old (record c { is_lite = false; is_small = true }))
unfolding marshal unmarshal
small_round_trip c old f = λ i. ok (record old {
  is_lite = false;
  is_small = true;
  last_ack_packet_sequence_number = read_written c.last_ack_packet_sequence_number f.sequence i;
  rtt = word c.rtt f.rtt_fits i;
  rtt_var = word c.rtt_var f.rtt_var_fits i;
  available_buffer_size = word c.available_buffer_size f.buffer_fits i;
})

full_round_trip :
    (c old : CifAck)
    → Fits c
    → unmarshal old (marshal (record c { is_lite = false; is_small = false }))
      ≡ ok (received old (record c { is_lite = false; is_small = false }))
unfolding marshal unmarshal
full_round_trip c old f = λ i. ok (record {
  is_lite = false;
  is_small = false;
  last_ack_packet_sequence_number = read_written c.last_ack_packet_sequence_number f.sequence i;
  rtt = word c.rtt f.rtt_fits i;
  rtt_var = word c.rtt_var f.rtt_var_fits i;
  available_buffer_size = word c.available_buffer_size f.buffer_fits i;
  packets_receiving_rate = word c.packets_receiving_rate f.packets_fit i;
  estimated_link_capacity = word c.estimated_link_capacity f.capacity_fits i;
  receiving_rate = word c.receiving_rate f.rate_fits i;
})

of_kind :
    (l s : Bool) (c old : CifAck)
    → Fits c
    → unmarshal old (marshal (record c { is_lite = l; is_small = s }))
      ≡ ok (received old (record c { is_lite = l; is_small = s }))
of_kind true s c old f = lite_round_trip s c old f
of_kind false true c old f = small_round_trip c old f
of_kind false false c old f = full_round_trip c old f

-- For an acknowledgement of any kind whose fields fit the wire format: reading what was written
-- gives back the kind and every field that the kind carries; the others keep what they were.
pub unmarshal-marshal-Ack :
    (c old : CifAck) → Fits c → unmarshal old (marshal c) ≡ ok (received old c)
unmarshal-marshal-Ack c old f = of_kind c.is_lite c.is_small c old f

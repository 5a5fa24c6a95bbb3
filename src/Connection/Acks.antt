-- ===== src/Connection/Acks.antt =====
-- connection.go: acknowledgements and loss reports, sent and received.
use gosrt.Common.{
  ℕ, ◌+◌, ◌-◌, ◌/◌, Bool, true, false, not, ◌&&◌, Option, none, some, List, [], ◌∷◌, ltb, ◌==◌,
  if◌then◌else◌, u64,
}
use gosrt.Circular.{Number, inc, new}
use gosrt.Packet.Types.{Packet, payload_data}
use gosrt.Packet.Wire.{ok, err, panics}
use gosrt.Packet.Ack
use gosrt.Packet.Ack.{CifAck}
use gosrt.Packet.Nak
use gosrt.Congestion.Float.{Float64}
use gosrt.Congestion.Receive.{Receiver, packet_rate, set_nak_interval}
use gosrt.Congestion.Send
use gosrt.Crypto.{Primitives}
use gosrt.Connection.State.{Output, recalculate, nak_interval}
use gosrt.Connection.Pop.{Conn, control_packet, pop, written, ◌>>=◌}

abbrev pub ctrltype_ack : ℕ
ctrltype_ack = 2

abbrev pub ctrltype_nak : ℕ
ctrltype_nak = 3

abbrev pub ctrltype_ackack : ℕ
ctrltype_ackack = 6

-- The map of the ACK numbers: a write replaces the entry of its key.
unfoldable pub lookup_ack : ℕ → List (ℕ × ℕ) → Option ℕ
lookup_ack n [] = none
lookup_ack n ((k, t) ∷ m) = let rest = lookup_ack n m in if k == n then some t else rest

-- `delete(m, n)`, and the loop that deletes the numbers below it.
unfoldable pub delete_ack : ℕ → List (ℕ × ℕ) → List (ℕ × ℕ)
delete_ack n [] = []
delete_ack n ((k, t) ∷ m) = let rest = delete_ack n m in if k == n then rest else (k, t) ∷ rest

unfoldable pub delete_below : ℕ → List (ℕ × ℕ) → List (ℕ × ℕ)
delete_below n [] = []
delete_below n ((k, t) ∷ m) = let rest = delete_below n m in if ltb k n then rest else (k, t) ∷ rest

abbrev empty_ack : Number → CifAck
empty_ack n = record {
  is_lite = false;
  is_small = false;
  last_ack_packet_sequence_number = n;
  rtt = 0;
  rtt_var = 0;
  available_buffer_size = 0;
  packets_receiving_rate = 0;
  estimated_link_capacity = 0;
  receiving_rate = 0;
}

-- The number after an ACK number; 0 is left out.
unfoldable pub following : Number → Number
following n = let n' = inc n in if n'.value == 0 then inc n' else n'

-- The entry of a data packet in the sender's loss list is the packet itself, which `pop` changes.
module _ (fl : Float64) (pr : Primitives) where
  open fl use {F, lit, mul_f, div_f, of_u64, to_u64, to_u32}

  abbrev pub count_invalid : Conn fl pr → Conn fl pr
  count_invalid c =
      let q = c.statistics in
      record c { statistics = record q { pkt_recv_invalid = u64 (q.pkt_recv_invalid + 1) } }

  -- `sendNAK`
  unfoldable pub send_nak : Conn fl pr → ℕ → List Number → Option (Conn fl pr × List Output)
  send_nak c clock ns = do
    payload ← written (Nak.marshal ns)
    let q = c.statistics
    pop fl pr (record c { statistics = record q { pkt_sent_nak = u64 (q.pkt_sent_nak + 1) } }) clock
        (control_packet clock ctrltype_nak 0 0 payload)

  -- The acknowledgement with the measurements, which come from the receiver as it was when its tick
  -- began: what precedes the call leaves them alone.
  unfoldable pub full_ack : Conn fl pr → Receiver fl → Number → CifAck
  full_ack c r n =
      let (pps, bps, capacity) = packet_rate fl r in
      record (empty_ack n) {
        rtt = to_u32 c.rtt.rtt;
        rtt_var = to_u32 c.rtt.rtt_var;
        available_buffer_size = c.config.fc;
        packets_receiving_rate = to_u32 pps;
        estimated_link_capacity = to_u32 capacity;
        receiving_rate = to_u32 bps;
      }

  -- A full ACK takes the next number and remembers when it was sent.
  unfoldable pub number_ack : Conn fl pr → ℕ → Conn fl pr
  number_ack c clock =
      let n = c.next_ack_number in
      record c {
        ack_numbers = (n.value, clock) ∷ delete_ack n.value c.ack_numbers;
        next_ack_number = following n;
      }

  abbrev pub count_sent_ack : Conn fl pr → Conn fl pr
  count_sent_ack c =
      let q = c.statistics in
      record c { statistics = record q { pkt_sent_ack = u64 (q.pkt_sent_ack + 1) } }

  -- `sendACK`
  unfoldable pub send_ack :
      Conn fl pr → Receiver fl → ℕ → Number → Bool → Option (Conn fl pr × List Output)
  send_ack c r clock n lite =
      if lite
      then pop fl pr (count_sent_ack c) clock (
          control_packet clock ctrltype_ack 0 0
            (Ack.marshal (record (empty_ack n) { is_lite = true })))
      else pop fl pr (count_sent_ack (number_ack c clock)) clock (
          control_packet clock ctrltype_ack 0 c.next_ack_number.value
            (Ack.marshal (full_ack c r n)))

  -- `sendACKACK`
  unfoldable pub send_ackack : Conn fl pr → ℕ → ℕ → Option (Conn fl pr × List Output)
  send_ackack c clock n =
      let q = c.statistics in
      pop fl pr
        (record c { statistics = record q { pkt_sent_ackack = u64 (q.pkt_sent_ackack + 1) } }) clock
        (control_packet clock ctrltype_ackack 0 n [])

  abbrev packets_to_mbps : ℕ → F
  packets_to_mbps n =
      div_f (div_f (mul_f (mul_f (of_u64 n) (lit 1456 1)) (lit 8 1)) (lit 1024 1)) (lit 1024 1)

  -- What `handleACK` does with the acknowledgement that it read.
  unfoldable pub accept_ack : Conn fl pr → ℕ → ℕ → CifAck → Option (Conn fl pr × List Output)
  accept_ack c clock n cif =
      let c₁ = record c { snd = Send.ack fl c.snd cif.last_ack_packet_sequence_number } in
      if not cif.is_lite && not cif.is_small
      then send_ackack
          (record c₁ {
            rtt = recalculate fl pr c₁.rtt cif.rtt;
            statistics = record (c₁.statistics) {
              mbps_link_capacity = packets_to_mbps cif.estimated_link_capacity;
            };
          })
          clock n
      else some (c₁, [])

  unfoldable pub handle_ack : Conn fl pr → ℕ → Packet → Option (Conn fl pr × List Output)
  handle_ack c clock p =
      let q = c.statistics in
      let c₁ : Conn fl pr = record c {
        statistics = record q { pkt_recv_ack = u64 (q.pkt_recv_ack + 1) };
      } in
      elim (Ack.unmarshal (empty_ack (new 0 0)) (payload_data p)) [
        | ok cif ↦ accept_ack c₁ clock p.header.type_specific cif
        | err e ↦ some (count_invalid c₁, [])
        | panics ↦ none
      ]

  -- The round trip that the answer to an acknowledgement ends, where its number waited.
  unfoldable pub end_round : Conn fl pr → ℕ → ℕ → Option ℕ → Conn fl pr
  end_round c clock n (some t) = record c {
    rtt = recalculate fl pr c.rtt ((clock - t) / 1000);
    ack_numbers = delete_ack n c.ack_numbers;
  }
  end_round c clock n none = count_invalid c

  abbrev pub count_recv_ackack : Conn fl pr → Conn fl pr
  count_recv_ackack c =
      let q = c.statistics in
      record c { statistics = record q { pkt_recv_ackack = u64 (q.pkt_recv_ackack + 1) } }

  -- `handleACKACK`; the round trip ends now, at the clock.
  unfoldable pub handle_ackack : Conn fl pr → ℕ → Packet → Conn fl pr
  handle_ackack c clock p =
      let n = p.header.type_specific in
      let c' = end_round (count_recv_ackack c) clock n (lookup_ack n c.ack_numbers) in
      record c' {
        ack_numbers = delete_below n c'.ack_numbers;
        recv = set_nak_interval fl c'.recv (to_u64 (nak_interval fl pr c'.rtt));
      }

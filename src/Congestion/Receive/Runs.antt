-- ===== src/Congestion/Receive/Runs.antt =====
-- The receiver on concrete packets.
use gosrt.Common.{ℕ, ◌^◌, ◌≤◌, ◌≡◌, ◌⊎◌, inl, refl, arith, false, some, [], ◌∷◌, ◌-◌, ◌↔◌, ◌<◌}
use gosrt.Circular.{Number, inc, dec, equals, lt, lte, gt}
use gosrt.Circular.Offset.{offset}
use gosrt.Packet.Types.{Packet}
use gosrt.Congestion.Sample.{numbers}
use gosrt.Congestion.Receive.Defs.{Receiver, send_nak, new_receiver}
use gosrt.Congestion.Receive.PushDefs.{push, accept, count_loss, count_packet, probe_step}
use gosrt.Congestion.Receive.PeriodicDefs.{periodic_ack, periodic_nak, ack_scan, ack_step}
use gosrt.Congestion.Receive.TickDefs.{deliver_all}
use gosrt.Congestion.Receive.PushInvariant.{IsWindow, IsCounted}
use gosrt.Congestion.Receive.Acks.{periodic_ack_forward, periodic_ack_covers}
use gosrt.Congestion.Receive.AckScanned.{Has, Overdue}
use gosrt.Congestion.Receive.Naks.{Reported, periodic_nak-Exact}
use gosrt.Congestion.Receive.Delivery.{Delivered, deliver_all-Delivered}
use gosrt.Congestion.Receive.Reachable.{Reachable, starts, pushes, Reachable-IsWindow}

abbrev number : ℕ → Number
number v = record { max = 2 ^ 31 - 1; threshold = 2 ^ 30 - 1; value = v }

abbrev packet : ℕ → ℕ → Packet
packet v time = record {
  header = record {
    is_control_packet = false;
    pkt_tsbpd_time = time;
    control_type = 0;
    sub_type = 0;
    type_specific = 0;
    packet_sequence_number = number v;
    packet_position_flag = 3;
    order_flag = false;
    key_base_encryption_flag = 0;
    retransmitted_packet_flag = false;
    message_number = 1;
    timestamp = 0;
    destination_socket_id = 0;
  };
  payload = some (7 ∷ []);
}

-- Packet 12 arrives after packet 10: number 11 is missing.
abbrev fresh : Receiver numbers
fresh = new_receiver numbers (number 10) 10_000 20_000

abbrev one : Receiver numbers
one = (push numbers fresh 0 (some (packet 10 1000))).0

abbrev gapped : Receiver numbers
gapped = (push numbers one 5 (some (packet 12 3000))).0

push_gap :
    (push numbers one 5 (some (packet 12 3000))).1 ≡ send_nak (number 11 ∷ number 11 ∷ []) ∷ []
unfolding push new_receiver accept count_packet probe_step inc dec equals lt lte gt count_loss
push_gap = refl

one-Reachable : Reachable one
unfolding new_receiver dec
one-Reachable =
    pushes (starts (number 10) 10_000 20_000 (omega arith)) 0 (packet 10 1000) (omega arith)
      (inl (omega arith))

gapped-Reachable : Reachable gapped
unfolding push new_receiver accept count_packet probe_step inc dec equals lt lte count_loss
gapped-Reachable = pushes one-Reachable 5 (packet 12 3000) (omega arith) (inl (omega arith))

Reachable-IsWindow_example : IsWindow gapped × IsCounted gapped
Reachable-IsWindow_example = Reachable-IsWindow gapped gapped-Reachable

deliver_all-Delivered_example :
    Delivered 30_000
      (periodic_ack numbers gapped 30_000).0
      (deliver_all numbers (periodic_ack numbers gapped 30_000).0 30_000).0
      (deliver_all numbers (periodic_ack numbers gapped 30_000).0 30_000).1
deliver_all-Delivered_example = deliver_all-Delivered (periodic_ack numbers gapped 30_000).0 30_000

-- At time 10_500 both packets are due, and the ACK passes over the missing number 11.
periodic_ack_forward_example :
    let base = gapped.last_delivered_sequence_number in
    let acked = (periodic_ack numbers gapped 10_500).0.last_ack_sequence_number in
    (number 13 ≡ inc acked)
    × (offset base gapped.last_ack_sequence_number ≤ offset base acked)
    × (offset base acked ≤ offset base gapped.max_seen_sequence_number)
unfolding push new_receiver accept count_packet probe_step inc dec equals lt lte count_loss
    periodic_ack ack_scan ack_step
periodic_ack_forward_example =
    periodic_ack_forward gapped 10_500 (number 13) false
      (Reachable-IsWindow gapped gapped-Reachable).0 refl

periodic_ack_covers_example :
    Has gapped.last_delivered_sequence_number 2 gapped.packet_list
    ⊎ Overdue gapped.last_delivered_sequence_number 10_500 2 gapped.packet_list
unfolding push new_receiver accept count_packet probe_step inc dec equals lt lte count_loss
    periodic_ack ack_scan ack_step
periodic_ack_covers_example =
    periodic_ack_covers gapped 10_500 2 (Reachable-IsWindow gapped gapped-Reachable).0 (omega arith)
      (omega arith)

periodic_nak-Exact_example :
    let base = gapped.last_delivered_sequence_number in
    Reported base 2 (periodic_nak numbers gapped 20_000).1 ↔ (
      (offset base gapped.last_ack_sequence_number < 2)
      × (2 ≤ offset base gapped.max_seen_sequence_number)
      × ¬ (Has base 2 gapped.packet_list))
unfolding push new_receiver accept count_packet probe_step inc dec equals lt lte count_loss
periodic_nak-Exact_example =
    periodic_nak-Exact gapped 20_000 2 (Reachable-IsWindow gapped gapped-Reachable).0 refl

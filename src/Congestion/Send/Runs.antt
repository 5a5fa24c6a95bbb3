-- ===== src/Congestion/Send/Runs.antt =====
-- The sender on concrete packets.
use gosrt.Common.{ℕ, ◌-◌, ◌^◌, ◌≡◌, refl, true, false, some, List, [], ◌∷◌, ◌++◌, map, length, All}
use gosrt.Circular.{Number, inc, lt}
use gosrt.Packet.Types.{Packet}
use gosrt.Congestion.Sample.{numbers}
use gosrt.Congestion.Send.Defs.{Sender, new_sender, push, stamp}
use gosrt.Congestion.Send.TickDefs.{
  seq, tick, ack, acknowledged, send_all, send_ripe, move_sent, drop_old, count_drops, release,
  expired, recent, update_rate,
}
use gosrt.Congestion.Send.NakDefs.{nak}
use gosrt.Congestion.Send.Buffer.{Ticks, BeginsUnacknowledged}
use gosrt.Congestion.Send.Tick.{tick-Ticks, ack_removes}
use gosrt.Congestion.Send.Retransmission.{resent, marked, Resends, nak-Resends}
use gosrt.Congestion.Send.Sequence.{starts, pushes, ticks, Numbered, Sent-Numbered}

abbrev number : ℕ → Number
number v = record { max = 2 ^ 31 - 1; threshold = 2 ^ 30 - 1; value = v }

abbrev packet : ℕ → ℕ → Packet
packet v time = record {
  header = record {
    is_control_packet = false;
    pkt_tsbpd_time = time;
    control_type = 0;
    sub_type = 0;
    type_specific = 0;
    packet_sequence_number = number v;
    packet_position_flag = 3;
    order_flag = false;
    key_base_encryption_flag = 0;
    retransmitted_packet_flag = false;
    message_number = 1;
    timestamp = 0;
    destination_socket_id = 0;
  };
  payload = some (7 ∷ []);
}

-- Three packets, of which two are due at time 200.
abbrev fresh : Sender numbers
fresh = new_sender numbers (number (2 ^ 31 - 2)) 1_000_000 0 25

abbrev three : Sender numbers
three =
    push numbers (push numbers (push numbers fresh (some (packet 0 100))) (some (packet 0 200)))
      (some (packet 0 300))

abbrev sent : Sender numbers
sent = (tick numbers three 200).0

abbrev one_range : List Number
one_range = number (2 ^ 31 - 1) ∷ number 0 ∷ []

sent_seqs : map seq sent.loss_list ≡ number (2 ^ 31 - 2) ∷ number (2 ^ 31 - 1) ∷ []
unfolding new_sender push stamp inc tick send_all send_ripe move_sent drop_old count_drops release
    expired recent update_rate
sent_seqs = refl

tick-Ticks_example : Ticks 200 three (tick numbers three 200).0 (tick numbers three 200).1
tick-Ticks_example = tick-Ticks three 200

ack_removes_example :
    (sent.loss_list
      ≡ acknowledged (number 0) sent.loss_list ++ (ack numbers sent (number 0)).loss_list)
    × All (λ p. lt (seq p) (number 0) ≡ true) (acknowledged (number 0) sent.loss_list)
    × BeginsUnacknowledged (number 0) (ack numbers sent (number 0)).loss_list
    × ((ack numbers sent (number 0)).packet_list ≡ sent.packet_list)
    × ((ack numbers sent (number 0)).next_sequence_number ≡ sent.next_sequence_number)
ack_removes_example = ack_removes sent (number 0)

nak-Resends_example :
    (t : Sender numbers) × (nak numbers sent one_range ≡ some (t, resent one_range sent.loss_list))
    × (t.loss_list ≡ map (marked one_range) sent.loss_list)
    × Resends (length (resent one_range sent.loss_list)) sent t
nak-Resends_example = nak-Resends sent one_range tt

Sent-Numbered_example : Numbered (number (2 ^ 31 - 2)) sent ([] ++ (tick numbers three 200).1)
Sent-Numbered_example =
    Sent-Numbered (number (2 ^ 31 - 2)) sent ([] ++ (tick numbers three 200).1) (
      ticks
        (pushes (pushes (pushes (starts 1_000_000 0 25) (packet 0 100)) (packet 0 200))
          (packet 0 300))
        200)

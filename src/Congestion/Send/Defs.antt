-- ===== src/Congestion/Send/Defs.antt =====
-- congestion/live/send.go: the state, `NewSender`, `Push`, `Flush` and `SetDropThreshold`.
use gosrt.Common.{
  ℕ, ◌+◌, ◌*◌, false, Option, none, some, List, [], ◌∷◌, ◌++◌, length, ◌==◌, if◌then◌else◌, u32,
  u64, bit_and,
}
use gosrt.Circular.{Number, inc}
use gosrt.Packet.Types.{Packet, len, max_payload_size, max_timestamp, single_packet}
use gosrt.Congestion.Float.{Float64}
use gosrt.Congestion.Stats.{SendStats}

module _ (fl : Float64) where
  open fl use {F, lit, add_f, mul_f, div_f}

  pub record Rate : Type 0 where
    pub period : ℕ
    pub last : ℕ
    pub bytes : ℕ
    pub bytes_sent : ℕ
    pub bytes_retrans : ℕ
    pub estimated_input_bw : F
    pub estimated_sent_bw : F
    pub pkt_loss_rate : F

  pub record Sender : Type 0 where
    pub next_sequence_number : Number
    pub drop_threshold : ℕ
    pub packet_list : List Packet
    pub loss_list : List Packet
    pub avg_payload_size : F
    pub pkt_snd_period : F
    pub max_bw : F
    pub input_bw : F
    pub overhead_bw : F
    pub statistics : SendStats fl
    pub probe_time : ℕ
    pub rate : Rate

  abbrev pub zero_stats : SendStats fl
  zero_stats = record {
    pkt = 0;
    byte = 0;
    pkt_unique = 0;
    byte_unique = 0;
    pkt_loss = 0;
    byte_loss = 0;
    pkt_retrans = 0;
    byte_retrans = 0;
    us_snd_duration = 0;
    pkt_drop = 0;
    byte_drop = 0;
    pkt_buf = 0;
    byte_buf = 0;
    ms_buf = 0;
    pkt_flight_size = 0;
    us_pkt_snd_period = lit 0 1;
    byte_payload = 0;
    mbps_estimated_input_bandwidth = lit 0 1;
    mbps_estimated_sent_bandwidth = lit 0 1;
    pkt_loss_rate = lit 0 1;
  }

  -- (avgPayloadSize + 16) * 1_000_000 / maxBW
  abbrev pub send_period : F → F → F
  send_period avg bw = div_f (mul_f (add_f avg (lit 16 1)) (lit 1_000_000 1)) bw

  -- `NewSender` for a configuration with its callback; the two bandwidths come as float64.
  unfoldable pub new_sender : Number → ℕ → F → F → Sender
  new_sender initial threshold input_bw overhead_bw =
      let bw = lit (128 * 1024 * 1024) 1 in
      record {
        next_sequence_number = initial;
        drop_threshold = threshold;
        packet_list = [];
        loss_list = [];
        avg_payload_size = lit max_payload_size 1;
        pkt_snd_period = send_period (lit max_payload_size 1) bw;
        max_bw = bw;
        input_bw = input_bw;
        overhead_bw = overhead_bw;
        statistics = zero_stats;
        probe_time = 0;
        rate = record {
          period = 1_000_000;
          last = 0;
          bytes = 0;
          bytes_sent = 0;
          bytes_retrans = 0;
          estimated_input_bw = lit 0 1;
          estimated_sent_bw = lit 0 1;
          pkt_loss_rate = lit 0 1;
        };
      }

  unfoldable pub flush : Sender → Sender
  flush s = record s { packet_list = []; loss_list = [] }

  unfoldable pub set_drop_threshold : Sender → ℕ → Sender
  set_drop_threshold s threshold = record s { drop_threshold = threshold }

  -- The packet with its sequence number and its timestamp. Every second packet of a probe pair (the
  -- 16th and 17th) gets the time of the first.
  unfoldable pub stamp : Sender → Packet → Packet
  stamp s p =
      let n = s.next_sequence_number in
      let time = p.header.pkt_tsbpd_time in
      record p {
        header = record (p.header) {
          packet_sequence_number = n;
          packet_position_flag = single_packet;
          order_flag = false;
          message_number = 1;
          timestamp = u32 (bit_and time max_timestamp);
          pkt_tsbpd_time = if bit_and n.value 0xf == 1 then s.probe_time else time;
        };
      }

  unfoldable pub push : Sender → Option Packet → Sender
  push s none = s
  push s (some p) =
      let n = s.next_sequence_number in
      let q = s.statistics in
      let ps = s.packet_list ++ (stamp s p ∷ []) in
      record s {
        next_sequence_number = inc n;
        packet_list = ps;
        probe_time = if bit_and n.value 0xf == 0 then p.header.pkt_tsbpd_time else s.probe_time;
        rate = record (s.rate) { bytes = u64 (s.rate.bytes + len p) };
        statistics = record q {
          pkt_buf = u64 (q.pkt_buf + 1);
          byte_buf = u64 (q.byte_buf + len p);
          pkt_flight_size = length ps;
        };
      }

-- ===== src/Connection/State.antt =====
-- connection.go: the state of a connection, the round-trip time, and `newSRTConn`.
-- Network addresses, the logger and the goroutines are left out: a call of the connection is a step
-- of this state. `clock` is the time since the start of the connection, in nanoseconds.
use gosrt.Common.{
  ℕ, ◌+◌, ◌*◌, ◌/◌, Bool, true, false, ◌&&◌, Option, none, some, List, [], max, ◌==◌, if◌then◌else◌,
  u64, sub64,
}
use gosrt.Common.Int.{ℤ, quot, to_unsigned}
use gosrt.Circular.{Number, new}
use gosrt.Packet.Types.{Packet, max_timestamp}
use gosrt.Congestion.Float.{Float64}
use gosrt.Congestion.Receive.{Receiver, new_receiver}
use gosrt.Congestion.Send.{Sender, new_sender}
use gosrt.Crypto.{Primitives, Crypto}
use gosrt.Config.{Config}

-- What a call has for the outside: a packet for the network, the timer of the idle timeout, the
-- goroutine that closes the connection, and the end of the repeated HSv4 requests.
pub data Output : Type 0 where
  on_send : Packet → Output
  resets_idle_timeout : Output
  stops_idle_timeout : Output
  closes_later : Output
  stops_hs_requests : Output
  stops_km_requests : Output
  on_shutdown : Output

module _ (fl : Float64) (pr : Primitives) where
  open fl use {F, lit, add_f, sub_f, mul_f, div_f, of_u64, to_u64, abs_f, less_f}

  pub record Rtt : Type 0 where
    pub rtt : F
    pub rtt_var : F

  -- `Recalculate` for a time in microseconds.
  unfoldable pub recalculate : Rtt → ℕ → Rtt
  recalculate r time =
      let last = of_u64 time in
      let rtt = add_f (mul_f r.rtt (lit 875 1000)) (mul_f last (lit 125 1000)) in
      record {
        rtt = rtt;
        rtt_var =
            add_f (mul_f r.rtt_var (lit 75 100)) (mul_f (abs_f (sub_f rtt last)) (lit 25 100));
      }

  unfoldable pub nak_interval : Rtt → F
  nak_interval r =
      let interval = div_f (add_f r.rtt (mul_f (lit 4 1) r.rtt_var)) (lit 2 1) in
      if less_f interval (lit 20000 1) then lit 20000 1 else interval

  pub record ConnStats : Type 0 where
    pub header_size : ℕ
    pub pkt_sent_ack : ℕ
    pub pkt_recv_ack : ℕ
    pub pkt_sent_ackack : ℕ
    pub pkt_recv_ackack : ℕ
    pub pkt_sent_nak : ℕ
    pub pkt_recv_nak : ℕ
    pub pkt_sent_km : ℕ
    pub pkt_recv_km : ℕ
    pub pkt_recv_undecrypt : ℕ
    pub byte_recv_undecrypt : ℕ
    pub pkt_recv_invalid : ℕ
    pub pkt_sent_keepalive : ℕ
    pub pkt_recv_keepalive : ℕ
    pub pkt_sent_shutdown : ℕ
    pub pkt_recv_shutdown : ℕ
    pub mbps_link_capacity : F

  -- `ack_numbers` is the map from an ACK number to the clock at its sending, and `closed` that the
  -- body of `shutdownOnce` ran, which also ends the context.
  pub record SrtConn : Type 0 where
    pub version : ℕ
    pub is_caller : Bool
    pub socket_id : ℕ
    pub peer_socket_id : ℕ
    pub config : Config
    pub crypto : Option Crypto
    pub key_base_encryption : ℕ
    pub km_pre_announce_countdown : ℕ
    pub km_refresh_countdown : ℕ
    pub km_confirmed : Bool
    pub rtt : Rtt
    pub ack_numbers : List (ℕ × ℕ)
    pub next_ack_number : Number
    pub initial_packet_sequence_number : Number
    pub tsbpd_time_base : ℕ
    pub tsbpd_wrap_period : Bool
    pub tsbpd_time_base_offset : ℕ
    pub tsbpd_delay : ℕ
    pub tsbpd_drift : ℕ
    pub peer_tsbpd_delay : ℕ
    pub drop_threshold : ℕ
    pub network_queue : List Packet
    pub write_queue : List Packet
    pub write_buffer : List ℕ
    pub write_data_size : ℕ
    pub read_queue : List Packet
    pub read_buffer : List ℕ
    pub recv : Receiver fl
    pub snd : Sender fl
    pub closed : Bool
    -- Whether the functions `stopHSRequests` and `stopKMRequests` are set.
    pub stop_hs_requests : Bool
    pub stop_km_requests : Bool
    pub statistics : ConnStats
    pub expected_rcv_packet_sequence_number : Number
    pub expected_read_packet_sequence_number : Number
    -- The state of crypto/rand.
    pub random : pr.Random

  pub record SrtConnConfig : Type 0 where
    pub version : ℕ
    pub is_caller : Bool
    pub config : Config
    pub socket_id : ℕ
    pub peer_socket_id : ℕ
    pub tsbpd_time_base : ℕ
    pub tsbpd_delay : ℕ
    pub peer_tsbpd_delay : ℕ
    pub initial_packet_sequence_number : Number
    pub crypto : Option Crypto
    pub key_base_encryption : ℕ
    -- Whether `localAddr` is an IPv6 address.
    pub local_ipv6 : Bool

  abbrev pub microseconds : ℤ → ℕ
  microseconds d = to_unsigned 64 (quot d 1000)

  -- 125 % of a delay plus the configured one, at least a second, and 20 milliseconds.
  unfoldable pub threshold_for : ℕ → Config → ℕ
  threshold_for delay config = u64 (
      max (u64 (to_u64 (mul_f (of_u64 delay) (lit 125 100)) + microseconds config.send_drop_delay))
        1_000_000
      + 20_000)

  abbrev pub zero_stats : Bool → ConnStats
  zero_stats ipv6 = record {
    header_size = 8 + 16 + (if ipv6 then 40 else 20);
    pkt_sent_ack = 0;
    pkt_recv_ack = 0;
    pkt_sent_ackack = 0;
    pkt_recv_ackack = 0;
    pkt_sent_nak = 0;
    pkt_recv_nak = 0;
    pkt_sent_km = 0;
    pkt_recv_km = 0;
    pkt_recv_undecrypt = 0;
    byte_recv_undecrypt = 0;
    pkt_recv_invalid = 0;
    pkt_sent_keepalive = 0;
    pkt_recv_keepalive = 0;
    pkt_sent_shutdown = 0;
    pkt_recv_shutdown = 0;
    mbps_link_capacity = lit 0 1;
  }

  -- The two bandwidths of the sender come as float64, as `new_sender` has them.
  unfoldable pub new_srt_conn : SrtConnConfig → F → F → pr.Random → SrtConn
  unfolding threshold_for new_receiver new_sender
  new_srt_conn config input_bw overhead_bw random =
      let c = config.config in
      let initial = config.initial_packet_sequence_number in
      let threshold = threshold_for config.peer_tsbpd_delay c in
      record {
        version = config.version;
        is_caller = config.is_caller;
        socket_id = config.socket_id;
        peer_socket_id = config.peer_socket_id;
        config = c;
        crypto = config.crypto;
        key_base_encryption = config.key_base_encryption;
        km_pre_announce_countdown = sub64 c.km_refresh_rate c.km_pre_announce;
        km_refresh_countdown = c.km_refresh_rate;
        km_confirmed = false;
        rtt = record { rtt = lit 100_000 1; rtt_var = lit 50_000 1 };
        ack_numbers = [];
        next_ack_number = new 1 max_timestamp;
        initial_packet_sequence_number = initial;
        tsbpd_time_base = config.tsbpd_time_base;
        tsbpd_wrap_period = false;
        tsbpd_time_base_offset = 0;
        tsbpd_delay = config.tsbpd_delay;
        tsbpd_drift = 0;
        peer_tsbpd_delay = config.peer_tsbpd_delay;
        drop_threshold = threshold;
        network_queue = [];
        write_queue = [];
        write_buffer = [];
        write_data_size =
            if config.version == 4 then c.payload_size / 188 * 188 else c.payload_size;
        read_queue = [];
        read_buffer = [];
        recv = new_receiver fl initial 10_000 20_000;
        snd = new_sender fl initial threshold input_bw overhead_bw;
        closed = false;
        stop_hs_requests = (config.version == 4) && config.is_caller;
        stop_km_requests =
            (config.version == 4)
            && config.is_caller
            && elim config.crypto [ none ↦ false | some cr ↦ true ];
        statistics = zero_stats config.local_ipv6;
        expected_rcv_packet_sequence_number = initial;
        expected_read_packet_sequence_number = initial;
        random = random;
      }

-- ===== src/Connection/Statistics.antt =====
-- statistics.go: `Stats` of a connection.
use gosrt.Common.{ℕ, ◌+◌, ◌*◌, ◌/◌, if◌then◌else◌, u64, sub64}
use gosrt.Common.Int.{pos, negsuc, ltb_ℤ}
use gosrt.Congestion.Float.{Float64}
use gosrt.Congestion.Stats.{SendStats, ReceiveStats}
use gosrt.Congestion.Receive
use gosrt.Congestion.Send
use gosrt.Crypto.{Primitives}
use gosrt.Connection.State.{ConnStats}
use gosrt.Connection.Pop.{Conn}
use gosrt.Connection.Report.{
  StatisticsAccumulated, StatisticsInterval, StatisticsInstantaneous, Statistics,
}

module _ (fl : Float64) where
  open fl use {F, lit, mul_f, div_f, of_u64}

  -- Bytes over a time in milliseconds, as megabits per second.
  abbrev megabits_over : ℕ → ℕ → F
  megabits_over bytes interval =
      div_f (div_f (div_f (mul_f (of_u64 bytes) (lit 8 1)) (lit 1024 1)) (lit 1024 1))
        (div_f (of_u64 interval) (lit 1000 1))

  -- Every counter since the call before.
  pub interval_stats : ℕ → StatisticsAccumulated → StatisticsAccumulated → StatisticsInterval fl
  interval_stats interval previous a = record {
    ms_interval = interval;
    pkt_sent = sub64 a.pkt_sent previous.pkt_sent;
    pkt_recv = sub64 a.pkt_recv previous.pkt_recv;
    pkt_sent_unique = sub64 a.pkt_sent_unique previous.pkt_sent_unique;
    pkt_recv_unique = sub64 a.pkt_recv_unique previous.pkt_recv_unique;
    pkt_send_loss = sub64 a.pkt_send_loss previous.pkt_send_loss;
    pkt_recv_loss = sub64 a.pkt_recv_loss previous.pkt_recv_loss;
    pkt_recv_lost = sub64 a.pkt_recv_lost previous.pkt_recv_lost;
    pkt_retrans = sub64 a.pkt_retrans previous.pkt_retrans;
    pkt_recv_retrans = sub64 a.pkt_recv_retrans previous.pkt_recv_retrans;
    pkt_sent_ack = sub64 a.pkt_sent_ack previous.pkt_sent_ack;
    pkt_recv_ack = sub64 a.pkt_recv_ack previous.pkt_recv_ack;
    pkt_sent_nak = sub64 a.pkt_sent_nak previous.pkt_sent_nak;
    pkt_recv_nak = sub64 a.pkt_recv_nak previous.pkt_recv_nak;
    mbps_send_rate = megabits_over (sub64 a.byte_sent previous.byte_sent) interval;
    mbps_recv_rate = megabits_over (sub64 a.byte_recv previous.byte_recv) interval;
    us_snd_duration = sub64 a.us_snd_duration previous.us_snd_duration;
    pkt_reorder_distance = 0;
    pkt_recv_belated = sub64 a.pkt_recv_belated previous.pkt_recv_belated;
    pkt_recv_late = sub64 a.pkt_recv_late previous.pkt_recv_late;
    pkt_snd_drop = sub64 a.pkt_send_drop previous.pkt_send_drop;
    pkt_recv_drop = sub64 a.pkt_recv_drop previous.pkt_recv_drop;
    pkt_recv_undecrypt = sub64 a.pkt_recv_undecrypt previous.pkt_recv_undecrypt;
    byte_sent = sub64 a.byte_sent previous.byte_sent;
    byte_recv = sub64 a.byte_recv previous.byte_recv;
    byte_sent_unique = sub64 a.byte_sent_unique previous.byte_sent_unique;
    byte_recv_unique = sub64 a.byte_recv_unique previous.byte_recv_unique;
    byte_recv_loss = sub64 a.byte_recv_loss previous.byte_recv_loss;
    byte_retrans = sub64 a.byte_retrans previous.byte_retrans;
    byte_recv_retrans = sub64 a.byte_recv_retrans previous.byte_recv_retrans;
    byte_recv_belated = sub64 a.byte_recv_belated previous.byte_recv_belated;
    byte_recv_late = sub64 a.byte_recv_late previous.byte_recv_late;
    byte_send_drop = sub64 a.byte_send_drop previous.byte_send_drop;
    byte_recv_drop = sub64 a.byte_recv_drop previous.byte_recv_drop;
    byte_recv_undecrypt = sub64 a.byte_recv_undecrypt previous.byte_recv_undecrypt;
  }

module _ (fl : Float64) (pr : Primitives) where
  open fl use {F, lit, div_f, of_i64, is_zero}

  pub accumulated_stats : SendStats fl → ReceiveStats fl → ConnStats fl pr → StatisticsAccumulated
  accumulated_stats send recv s =
      let with_headers : (ℕ → ℕ → ℕ) = λ bytes pkts. u64 (bytes + u64 (pkts * s.header_size)) in
      record {
        pkt_sent = send.pkt;
        pkt_recv = recv.pkt;
        pkt_sent_unique = send.pkt_unique;
        pkt_recv_unique = recv.pkt_unique;
        pkt_send_loss = send.pkt_loss;
        pkt_recv_loss = recv.pkt_loss;
        pkt_recv_lost = recv.pkt_lost;
        pkt_retrans = send.pkt_retrans;
        pkt_recv_retrans = recv.pkt_retrans;
        pkt_sent_ack = s.pkt_sent_ack;
        pkt_recv_ack = s.pkt_recv_ack;
        pkt_sent_nak = s.pkt_sent_nak;
        pkt_recv_nak = s.pkt_recv_nak;
        pkt_sent_km = s.pkt_sent_km;
        pkt_recv_km = s.pkt_recv_km;
        us_snd_duration = send.us_snd_duration;
        pkt_recv_belated = recv.pkt_belated;
        pkt_recv_late = recv.pkt_late;
        pkt_send_drop = send.pkt_drop;
        pkt_recv_drop = recv.pkt_drop;
        pkt_recv_undecrypt = s.pkt_recv_undecrypt;
        byte_sent = with_headers send.byte send.pkt;
        byte_recv = with_headers recv.byte recv.pkt;
        byte_sent_unique = with_headers send.byte_unique send.pkt_unique;
        byte_recv_unique = with_headers recv.byte_unique recv.pkt_unique;
        byte_recv_loss = with_headers recv.byte_loss recv.pkt_loss;
        byte_retrans = with_headers send.byte_retrans send.pkt_retrans;
        byte_recv_retrans = with_headers recv.byte_retrans recv.pkt_retrans;
        byte_recv_belated = with_headers recv.byte_belated recv.pkt_belated;
        byte_recv_late = with_headers recv.byte_late recv.pkt_belated;
        byte_send_drop = with_headers send.byte_drop send.pkt_drop;
        byte_recv_drop = with_headers recv.byte_drop recv.pkt_drop;
        byte_recv_undecrypt = with_headers s.byte_recv_undecrypt s.pkt_recv_undecrypt;
      }

  pub instantaneous_stats : SendStats fl → ReceiveStats fl → Conn fl pr → StatisticsInstantaneous fl
  instantaneous_stats send recv c = record {
    us_pkt_send_period = send.us_pkt_snd_period;
    pkt_flow_window = c.config.fc;
    pkt_flight_size = send.pkt_flight_size;
    ms_rtt = div_f c.rtt.rtt (lit 1000 1);
    mbps_sent_rate = send.mbps_estimated_sent_bandwidth;
    mbps_recv_rate = recv.mbps_estimated_recv_bandwidth;
    mbps_link_capacity =
        if is_zero recv.mbps_estimated_link_capacity
        then c.statistics.mbps_link_capacity
        else recv.mbps_estimated_link_capacity;
    byte_avail_send_buf = 0;
    byte_avail_recv_buf = 0;
    mbps_max_bw =
        if ltb_ℤ c.config.max_bw (pos 0)
        then of_i64 (negsuc 0)
        else div_f (div_f (of_i64 c.config.max_bw) (lit 1024 1)) (lit 1024 1);
    byte_mss = c.config.mss;
    pkt_send_buf = send.pkt_buf;
    byte_send_buf = send.byte_buf;
    ms_send_buf = send.ms_buf;
    ms_send_tsb_pd_delay = c.peer_tsbpd_delay / 1000;
    pkt_recv_buf = recv.pkt_buf;
    byte_recv_buf = recv.byte_buf;
    ms_recv_buf = recv.ms_buf;
    ms_recv_tsb_pd_delay = c.tsbpd_delay / 1000;
    pkt_reorder_tolerance = c.config.loss_max_ttl;
    pkt_recv_avg_belated_time = 0;
    pkt_send_loss_rate = send.pkt_loss_rate;
    pkt_recv_loss_rate = recv.pkt_loss_rate;
  }

  -- `Stats`, at a clock in milliseconds.
  pub stats : ℕ → Conn fl pr → Statistics fl → Conn fl pr × Statistics fl
  stats now c s =
      let (snd, send) = Send.stats fl c.snd in
      let (rcv, recv) = Receive.stats fl c.recv in
      let accumulated = accumulated_stats send recv c.statistics in
      (
        record c { snd = snd; recv = rcv },
        record {
          ms_time_stamp = now;
          accumulated = accumulated;
          interval = interval_stats fl (sub64 now s.ms_time_stamp) s.accumulated accumulated;
          instantaneous = instantaneous_stats send recv c;
        },
      )

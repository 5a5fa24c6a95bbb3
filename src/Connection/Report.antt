-- ===== src/Connection/Report.antt =====
-- statistics.go: what a connection reports.
use gosrt.Common.{ℕ}
use gosrt.Congestion.Float.{Float64}

pub record StatisticsAccumulated : Type 0 where
  pub pkt_sent : ℕ
  pub pkt_recv : ℕ
  pub pkt_sent_unique : ℕ
  pub pkt_recv_unique : ℕ
  pub pkt_send_loss : ℕ
  pub pkt_recv_loss : ℕ
  pub pkt_recv_lost : ℕ
  pub pkt_retrans : ℕ
  pub pkt_recv_retrans : ℕ
  pub pkt_sent_ack : ℕ
  pub pkt_recv_ack : ℕ
  pub pkt_sent_nak : ℕ
  pub pkt_recv_nak : ℕ
  pub pkt_sent_km : ℕ
  pub pkt_recv_km : ℕ
  pub us_snd_duration : ℕ
  pub pkt_recv_belated : ℕ
  pub pkt_recv_late : ℕ
  pub pkt_send_drop : ℕ
  pub pkt_recv_drop : ℕ
  pub pkt_recv_undecrypt : ℕ
  pub byte_sent : ℕ
  pub byte_recv : ℕ
  pub byte_sent_unique : ℕ
  pub byte_recv_unique : ℕ
  pub byte_recv_loss : ℕ
  pub byte_retrans : ℕ
  pub byte_recv_retrans : ℕ
  pub byte_recv_belated : ℕ
  pub byte_recv_late : ℕ
  pub byte_send_drop : ℕ
  pub byte_recv_drop : ℕ
  pub byte_recv_undecrypt : ℕ

module _ (fl : Float64) where
  open fl use {F}

  pub record StatisticsInterval : Type 0 where
    pub ms_interval : ℕ
    pub pkt_sent : ℕ
    pub pkt_recv : ℕ
    pub pkt_sent_unique : ℕ
    pub pkt_recv_unique : ℕ
    pub pkt_send_loss : ℕ
    pub pkt_recv_loss : ℕ
    pub pkt_recv_lost : ℕ
    pub pkt_retrans : ℕ
    pub pkt_recv_retrans : ℕ
    pub pkt_sent_ack : ℕ
    pub pkt_recv_ack : ℕ
    pub pkt_sent_nak : ℕ
    pub pkt_recv_nak : ℕ
    pub mbps_send_rate : F
    pub mbps_recv_rate : F
    pub us_snd_duration : ℕ
    pub pkt_reorder_distance : ℕ
    pub pkt_recv_belated : ℕ
    pub pkt_recv_late : ℕ
    pub pkt_snd_drop : ℕ
    pub pkt_recv_drop : ℕ
    pub pkt_recv_undecrypt : ℕ
    pub byte_sent : ℕ
    pub byte_recv : ℕ
    pub byte_sent_unique : ℕ
    pub byte_recv_unique : ℕ
    pub byte_recv_loss : ℕ
    pub byte_retrans : ℕ
    pub byte_recv_retrans : ℕ
    pub byte_recv_belated : ℕ
    pub byte_recv_late : ℕ
    pub byte_send_drop : ℕ
    pub byte_recv_drop : ℕ
    pub byte_recv_undecrypt : ℕ

  pub record StatisticsInstantaneous : Type 0 where
    pub us_pkt_send_period : F
    pub pkt_flow_window : ℕ
    pub pkt_flight_size : ℕ
    pub ms_rtt : F
    pub mbps_sent_rate : F
    pub mbps_recv_rate : F
    pub mbps_link_capacity : F
    pub byte_avail_send_buf : ℕ
    pub byte_avail_recv_buf : ℕ
    pub mbps_max_bw : F
    pub byte_mss : ℕ
    pub pkt_send_buf : ℕ
    pub byte_send_buf : ℕ
    pub ms_send_buf : ℕ
    pub ms_send_tsb_pd_delay : ℕ
    pub pkt_recv_buf : ℕ
    pub byte_recv_buf : ℕ
    pub ms_recv_buf : ℕ
    pub ms_recv_tsb_pd_delay : ℕ
    pub pkt_reorder_tolerance : ℕ
    pub pkt_recv_avg_belated_time : ℕ
    pub pkt_send_loss_rate : F
    pub pkt_recv_loss_rate : F

  pub record Statistics : Type 0 where
    pub ms_time_stamp : ℕ
    pub accumulated : StatisticsAccumulated
    pub interval : StatisticsInterval
    pub instantaneous : StatisticsInstantaneous

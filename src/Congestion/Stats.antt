-- ===== src/Congestion/Stats.antt =====
-- congestion/congestion.go: SendStats and ReceiveStats. Every counter is a uint64.
use gosrt.Common.{ℕ}
use gosrt.Congestion.Float.{Float64}

module _ (fl : Float64) where
  open fl use {F}

  pub record SendStats : Type 0 where
    pub pkt : ℕ
    pub byte : ℕ
    pub pkt_unique : ℕ
    pub byte_unique : ℕ
    pub pkt_loss : ℕ
    pub byte_loss : ℕ
    pub pkt_retrans : ℕ
    pub byte_retrans : ℕ
    pub us_snd_duration : ℕ
    pub pkt_drop : ℕ
    pub byte_drop : ℕ
    pub pkt_buf : ℕ
    pub byte_buf : ℕ
    pub ms_buf : ℕ
    pub pkt_flight_size : ℕ
    pub us_pkt_snd_period : F
    pub byte_payload : ℕ
    pub mbps_estimated_input_bandwidth : F
    pub mbps_estimated_sent_bandwidth : F
    pub pkt_loss_rate : F

  pub record ReceiveStats : Type 0 where
    pub pkt : ℕ
    pub byte : ℕ
    pub pkt_unique : ℕ
    pub byte_unique : ℕ
    pub pkt_loss : ℕ
    pub byte_loss : ℕ
    pub pkt_lost : ℕ
    pub pkt_retrans : ℕ
    pub byte_retrans : ℕ
    pub pkt_belated : ℕ
    pub byte_belated : ℕ
    pub pkt_late : ℕ
    pub byte_late : ℕ
    pub pkt_drop : ℕ
    pub byte_drop : ℕ
    pub pkt_buf : ℕ
    pub byte_buf : ℕ
    pub ms_buf : ℕ
    pub byte_payload : ℕ
    pub mbps_estimated_recv_bandwidth : F
    pub mbps_estimated_link_capacity : F
    pub pkt_loss_rate : F

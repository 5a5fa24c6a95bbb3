-- ===== src/Congestion/Receive/StatsDefs.antt =====
-- congestion/live/receive.go: `Stats` and `PacketRate`.
use gosrt.Packet.Types.{max_payload_size}
use gosrt.Congestion.Float.{Float64}
use gosrt.Congestion.Stats.{ReceiveStats}
use gosrt.Congestion.Receive.Defs.{Receiver}

module _ (fl : Float64) where
  open fl use {F, lit, mul_f, div_f, to_u64}

  -- Bytes per second as megabits per second.
  abbrev megabits : F → F
  megabits x = div_f (div_f (mul_f x (lit 8 1)) (lit 1024 1)) (lit 1024 1)

  unfoldable pub stats : Receiver fl → Receiver fl × ReceiveStats fl
  stats r =
      let q = record (r.statistics) {
        byte_payload = to_u64 r.avg_payload_size;
        mbps_estimated_recv_bandwidth = megabits r.rate.bytes_per_second;
        mbps_estimated_link_capacity =
            megabits (mul_f r.avg_link_capacity (lit max_payload_size 1));
        pkt_loss_rate = r.rate.pkt_loss_rate;
      } in
      (record r { statistics = q }, q)

  unfoldable pub packet_rate : Receiver fl → F × F × F
  packet_rate r = (r.rate.packets_per_second, r.rate.bytes_per_second, r.avg_link_capacity)

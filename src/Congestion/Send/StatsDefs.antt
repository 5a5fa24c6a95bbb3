-- ===== src/Congestion/Send/StatsDefs.antt =====
-- congestion/live/send.go: `Stats`.
use gosrt.Common.{ℕ, ◌/◌, List, [], ◌∷◌, sub64}
use gosrt.Packet.Types.{Packet}
use gosrt.Congestion.Float.{Float64}
use gosrt.Congestion.Stats.{SendStats}
use gosrt.Congestion.Send.Defs.{Sender}

abbrev last_time : Packet → List Packet → ℕ
last_time p [] = p.header.pkt_tsbpd_time
last_time p (q ∷ qs) = last_time q qs

-- The time from the front of the loss list to its back, in milliseconds.
unfoldable pub ms_in_buffer : List Packet → ℕ
ms_in_buffer [] = 0
ms_in_buffer (p ∷ ps) = sub64 (last_time p ps) p.header.pkt_tsbpd_time / 1000

module _ (fl : Float64) where
  open fl use {F, lit, mul_f, div_f, to_u64}

  -- Bytes per second as megabits per second.
  abbrev megabits : F → F
  megabits x = div_f (div_f (mul_f x (lit 8 1)) (lit 1024 1)) (lit 1024 1)

  unfoldable pub stats : Sender fl → Sender fl × SendStats fl
  unfolding ms_in_buffer
  stats s =
      let q = record (s.statistics) {
        us_pkt_snd_period = s.pkt_snd_period;
        byte_payload = to_u64 s.avg_payload_size;
        ms_buf = ms_in_buffer s.loss_list;
        mbps_estimated_input_bandwidth = megabits s.rate.estimated_input_bw;
        mbps_estimated_sent_bandwidth = megabits s.rate.estimated_sent_bw;
        pkt_loss_rate = s.rate.pkt_loss_rate;
      } in
      (record s { statistics = q }, q)

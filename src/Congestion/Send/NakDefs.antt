-- ===== src/Congestion/Send/NakDefs.antt =====
-- congestion/live/send.go: `NAK`.
use gosrt.Common.{
  ◌+◌, Bool, true, ◌&&◌, Option, none, some, List, [], ◌∷◌, ◌++◌, if◌then◌else◌, u64,
}
use gosrt.Circular.{Number, gte, lte}
use gosrt.Packet.Types.{Packet, len}
use gosrt.Congestion.Float.{Float64}
use gosrt.Congestion.Send.Defs.{Sender}
use gosrt.Congestion.Send.TickDefs.{average, seq}

infixl 5 ◌>>=◌
abbrev pub ◌>>=◌ {ℓ κ} : {A : Type ℓ} {B : Type κ} → Option A → (A → Option B) → Option B
none >>= f = none
some a >>= f = f a

abbrev pub in_range : Number → Number → Packet → Bool
in_range a b p = gte (seq p) a && lte (seq p) b

abbrev pub flag_retransmitted : Packet → Packet
flag_retransmitted p = record p { header = record (p.header) { retransmitted_packet_flag = true } }

module _ (fl : Float64) where
  abbrev pub count_retransmit : Sender fl → Packet → Sender fl
  count_retransmit s p =
      let q = s.statistics in
      record s {
        avg_payload_size = average fl s.avg_payload_size (len p);
        rate = record (s.rate) {
          bytes_sent = u64 (s.rate.bytes_sent + len p);
          bytes_retrans = u64 (s.rate.bytes_retrans + len p);
        };
        statistics = record q {
          pkt_retrans = u64 (q.pkt_retrans + 1);
          pkt = u64 (q.pkt + 1);
          pkt_loss = u64 (q.pkt_loss + 1);
          byte_retrans = u64 (q.byte_retrans + len p);
          byte = u64 (q.byte + len p);
          byte_loss = u64 (q.byte_loss + len p);
        };
      }

  -- The loop over the ranges for one packet: the sender, the packet and what is handed over. `none`
  -- is the panic of an index that is out of range, which a list of odd length can lead to.
  unfoldable pub retransmit :
      Sender fl → Packet → List Number → Option (Sender fl × Packet × List Packet)
  retransmit s p [] = some (s, p, [])
  retransmit s p (a ∷ []) = if gte (seq p) a then none else some (s, p, [])
  retransmit s p (a ∷ b ∷ ns) = do
    let hit = in_range a b p
    let p' = if hit then flag_retransmitted p else p
    (s', q, es) ← retransmit (if hit then count_retransmit s p else s) p' ns
    some (s', q, if hit then p' ∷ es else es)

  -- The loop over the loss list, from its back.
  unfoldable pub nak_loop :
      Sender fl → List Number → List Packet → Option (Sender fl × List Packet × List Packet)
  unfolding retransmit
  nak_loop s ns [] = some (s, [], [])
  nak_loop s ns (p ∷ ps) = do
    (s₁, qs, es) ← nak_loop s ns ps
    (s₂, q, fs) ← retransmit s₁ p ns
    some (s₂, q ∷ qs, es ++ fs)

  unfoldable pub nak : Sender fl → List Number → Option (Sender fl × List Packet)
  unfolding nak_loop
  nak s [] = some (s, [])
  nak s (n ∷ ns) = do
    (s', qs, es) ← nak_loop s (n ∷ ns) s.loss_list
    some (record s' { loss_list = qs }, es)

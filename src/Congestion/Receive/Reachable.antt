-- ===== src/Congestion/Receive/Reachable.antt =====
-- The receivers that a sequence of calls leads to, from a new one.
use gosrt.Common.{ℕ, refl, arith, some}
use gosrt.Circular.{Number, dec}
use gosrt.Circular.Offset.{IsSeq, dec-IsSeq, offset_self}
use gosrt.Packet.Types.{Packet}
use gosrt.Congestion.Float.{Float64}
use gosrt.Congestion.Receive.Defs.{Receiver, new_receiver, set_nak_interval, seq}
use gosrt.Congestion.Receive.PushDefs.{push}
use gosrt.Congestion.Receive.TickDefs.{tick}
use gosrt.Congestion.Receive.StatsDefs.{stats}
use gosrt.Congestion.Receive.PushInvariant.{IsWindow, IsCounted, InReach, kept-IsWindow}
use gosrt.Congestion.Receive.PushCounts.{push_keeps}
use gosrt.Congestion.Receive.TickInvariant.{tick_keeps}

module _ {fl : Float64} where
  -- Calls in any order; a packet that is pushed is in reach of the receiver.
  pub data Reachable : Receiver fl → Type 0 where
    starts :
        (n : Number) (ack_interval nak_interval : ℕ)
        → IsSeq n
        → Reachable (new_receiver fl n ack_interval nak_interval)
    pushes :
        {r : Receiver fl}
        → Reachable r
        → (clock : ℕ) (p : Packet) → IsSeq (seq p)
        → InReach r p
        → Reachable (push fl r clock (some p)).0
    ticks : {r : Receiver fl} → Reachable r → (now : ℕ) → Reachable (tick fl r now).0
    reads_stats : {r : Receiver fl} → Reachable r → Reachable (stats fl r).0
    sets_interval : {r : Receiver fl} → Reachable r → (t : ℕ) → Reachable (set_nak_interval fl r t)

  new_receiver-IsWindow : (n : Number) (a b : ℕ) → IsSeq n → IsWindow (new_receiver fl n a b)
  unfolding new_receiver
  new_receiver-IsWindow n a b v =
      let d = dec-IsSeq n v in
      let e = offset_self (dec n) d in
      record {
        delivered_seq = d;
        ack_seq = d;
        seen_seq = d;
        ack_le = omega arith;
        seen_lt = omega arith;
        rising = tt;
        newest = omega arith;
      }

  new_receiver-IsCounted : (n : Number) (a b : ℕ) → IsCounted (new_receiver fl n a b)
  unfolding new_receiver
  new_receiver-IsCounted n a b = omega arith

  -- Whatever sequence of pushes in reach, ticks, reads of the statistics and changes of the NAK
  -- interval led to a receiver: its packet list rises inside the receive window and ends in the newest packet seen, each packet
  -- received was buffered once or dropped, and the buffer counter is the length of the list.
  pub Reachable-IsWindow : (r : Receiver fl) → Reachable r → IsWindow r × IsCounted r
  unfolding set_nak_interval stats
  Reachable-IsWindow r (starts n a b v) =
      (new_receiver-IsWindow n a b v, new_receiver-IsCounted n a b)
  Reachable-IsWindow r (pushes {r = q} h clock p v reach) =
      let i = Reachable-IsWindow q h in push_keeps q clock p i.0 i.1 v reach
  Reachable-IsWindow r (ticks {r = q} h now) =
      let i = Reachable-IsWindow q h in tick_keeps q now i.0 i.1
  Reachable-IsWindow r (sets_interval {r = q} h t) =
      let i = Reachable-IsWindow q h in (kept-IsWindow q _ i.0 refl refl refl refl, omega arith)
  Reachable-IsWindow r (reads_stats {r = q} h) =
      let i = Reachable-IsWindow q h in (kept-IsWindow q _ i.0 refl refl refl refl, omega arith)

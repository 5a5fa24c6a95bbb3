-- ===== src/Connection/AckNumbers.antt =====
-- connection.go: the numbers of the acknowledgements that wait for their answer.
use mathlib.Core.Option.{none-ne-some, some-injective}
use gosrt.Common.{
  ℕ, ◌+◌, ◌-◌, ◌/◌, ◌≡◌, refl, sym, ap, ◌∙◌, arith, Option, none, some, List, [], ◌∷◌, ltb,
  if◌then◌else◌, u64,
}
use gosrt.Packet.Types.{Packet}
use gosrt.Congestion.Float.{Float64}
use gosrt.Crypto.{Primitives}
use gosrt.Connection.State.{recalculate}
use gosrt.Connection.Pop.{Conn}
use gosrt.Connection.Acks.{
  lookup_ack, delete_ack, delete_below, end_round, count_recv_ackack, handle_ackack,
}

-- The entries above a number.
abbrev pub keep_above : ℕ → List (ℕ × ℕ) → List (ℕ × ℕ)
keep_above n [] = []
keep_above n ((k, t) ∷ m) = let rest = keep_above n m in if ltb n k then (k, t) ∷ rest else rest

delete-delete_below : (n : ℕ) (m : List (ℕ × ℕ)) → delete_below n (delete_ack n m) ≡ keep_above n m
unfolding delete_below delete_ack
delete-delete_below n [] = refl
delete-delete_below n ((k, t) ∷ m) = ground (arith, delete-delete_below n m)

unknown-delete_below :
    (n : ℕ) (m : List (ℕ × ℕ)) → lookup_ack n m ≡ none → delete_below n m ≡ keep_above n m
unfolding delete_below lookup_ack
unknown-delete_below n [] h = refl
unknown-delete_below n ((k, t) ∷ m) h = ground (arith, unknown-delete_below n m)

module _ (fl : Float64) (pr : Primitives) where
  end_round_lem :
      (c : Conn fl pr) (clock n : ℕ) (o : Option ℕ)
      → lookup_ack n c.ack_numbers ≡ o
      → let d = end_round fl pr (count_recv_ackack fl pr c) clock n o in
        (delete_below n d.ack_numbers ≡ keep_above n c.ack_numbers)
        × ((t : ℕ)
            → lookup_ack n c.ack_numbers ≡ some t
            → (d.rtt ≡ recalculate fl pr c.rtt ((clock - t) / 1000))
              × (d.statistics.pkt_recv_invalid ≡ c.statistics.pkt_recv_invalid))
        × (lookup_ack n c.ack_numbers ≡ none
            → (d.rtt ≡ c.rtt)
              × (d.statistics.pkt_recv_invalid ≡ u64 (c.statistics.pkt_recv_invalid + 1)))
  unfolding end_round
  end_round_lem c clock n none e = (
    unknown-delete_below n c.ack_numbers e,
    λ t x. absurd (none-ne-some _ (sym e ∙ x)),
    λ x. (refl, refl),
  )
  end_round_lem c clock n (some t) e = (
    delete-delete_below n c.ack_numbers,
    λ s x. (
      ap (λ z. recalculate fl pr c.rtt ((clock - z) / 1000)) (some-injective _ _ (sym e ∙ x)),
      refl,
    ),
    λ x. absurd (none-ne-some _ (sym x ∙ e)),
  )

  -- An answer to an acknowledgement leaves exactly the numbers above its own to wait. Where its number
  -- waited, the round-trip time takes in the time since; where it did not, the packet counts as invalid
  -- and the round-trip time stays.
  pub handle_ackack_lem :
      (c : Conn fl pr) (clock : ℕ) (p : Packet)
      → let n = p.header.type_specific in
        let d = handle_ackack fl pr c clock p in
        (d.ack_numbers ≡ keep_above n c.ack_numbers)
        × ((t : ℕ)
            → lookup_ack n c.ack_numbers ≡ some t
            → (d.rtt ≡ recalculate fl pr c.rtt ((clock - t) / 1000))
              × (d.statistics.pkt_recv_invalid ≡ c.statistics.pkt_recv_invalid))
        × (lookup_ack n c.ack_numbers ≡ none
            → (d.rtt ≡ c.rtt)
              × (d.statistics.pkt_recv_invalid ≡ u64 (c.statistics.pkt_recv_invalid + 1)))
  unfolding handle_ackack
  handle_ackack_lem c clock p =
      let n = p.header.type_specific in end_round_lem c clock n (lookup_ack n c.ack_numbers) refl

-- ===== src/Connection/Dispatch.antt =====
-- connection.go: `handlePacket`, the ticker, and the two queue readers.
use gosrt.Common.{
  ℕ, ◌+◌, not, Option, none, some, List, [], ◌∷◌, ◌++◌, map, length, ltb, ◌&&◌, ◌==◌, if◌then◌else◌,
  u64,
}
use gosrt.Circular.{Number}
use gosrt.Packet.Types.{Packet, payload_data}
use gosrt.Packet.Wire.{ok, err, panics}
use gosrt.Packet.Nak
use gosrt.Congestion.Float.{Float64}
use gosrt.Congestion.Receive
use gosrt.Congestion.Receive.{number_eq}
use gosrt.Congestion.Send
use gosrt.Crypto.{Primitives}
use gosrt.Connection.State.{Output, on_send, resets_idle_timeout}
use gosrt.Connection.Pop.{Conn, pop_all, ctrltype_user, exttype_kmreq, get_timestamp, ◌>>=◌}
use gosrt.Connection.Close.{ctrltype_shutdown, handle_keep_alive, handle_shutdown}
use gosrt.Connection.Acks.{
  ctrltype_ack, ctrltype_nak, ctrltype_ackack, count_invalid, handle_ack, handle_ackack,
}
use gosrt.Connection.Hsv4.{exttype_hsreq, exttype_hsrsp, handle_hs_request, handle_hs_response}
use gosrt.Connection.KeyMessages.{exttype_kmrsp, handle_km_request, handle_km_response}
use gosrt.Connection.Data.{queue_size, handle_data, handle_events}

abbrev pub ctrltype_keepalive : ℕ
ctrltype_keepalive = 1

-- The sender's loss list holds the packets that `pop` changed: an entry becomes the packet of its
-- number that went out last. The sender reads the length of a payload only, which encryption with a key
-- stream keeps.
abbrev write_one : Packet → List Packet → Packet
write_one p [] = p
write_one p (q ∷ qs) =
    write_one
      (if not q.header.is_control_packet
          && number_eq q.header.packet_sequence_number p.header.packet_sequence_number
        then q
        else p)
      qs

abbrev sent_packets : List Output → List Packet
sent_packets [] = []
sent_packets (on_send p ∷ os) = p ∷ sent_packets os
sent_packets (o ∷ os) = sent_packets os

unfoldable pub write_back : List Packet → List Output → List Packet
write_back ps os = map (λ p. write_one p (sent_packets os)) ps

-- `sort` stands for sort.Slice by Lt, which the reader of a loss report calls.
module _ (fl : Float64) (pr : Primitives) (sort : List Number → List Number) where
  -- Sends what the sender handed over; the sender is the one that its call left.
  unfoldable pub send_packets :
      Conn fl pr → Send.Sender fl → ℕ → List Packet → Option (Conn fl pr × List Output)
  unfolding write_back
  send_packets c s clock ps = do
    (c₁, os) ← pop_all fl pr (record c { snd = s }) clock ps
    some (record c₁ { snd = record s { loss_list = write_back s.loss_list os } }, os)

  unfoldable pub handle_nak : Conn fl pr → ℕ → Packet → Option (Conn fl pr × List Output)
  handle_nak c clock p =
      let q = c.statistics in
      let c₁ : Conn fl pr = record c {
        statistics = record q { pkt_recv_nak = u64 (q.pkt_recv_nak + 1) };
      } in
      elim (Nak.unmarshal sort (payload_data p)) [
        | err e ↦ some (count_invalid fl pr c₁, [])
        | panics ↦ none
        | ok ns ↦ do (s, ps) ← Send.nak fl c₁.snd ns; send_packets c₁ s clock ps
      ]

  abbrev handle_user : Conn fl pr → ℕ → Packet → Option (Conn fl pr × List Output)
  handle_user c clock p =
      let t = p.header.sub_type in
      if t == exttype_hsreq
      then handle_hs_request fl pr c clock p
      else if t == exttype_hsrsp
      then handle_hs_response fl pr c clock p
      else if t == exttype_kmreq
      then handle_km_request fl pr c clock p
      else if t == exttype_kmrsp
      then handle_km_response fl pr c clock p
      else some (c, [])

  abbrev handle_control : Conn fl pr → ℕ → Packet → Option (Conn fl pr × List Output)
  handle_control c clock p =
      let t = p.header.control_type in
      if t == ctrltype_keepalive
      then handle_keep_alive fl pr c clock p
      else if t == ctrltype_shutdown
      then some (handle_shutdown fl pr c)
      else if t == ctrltype_nak
      then handle_nak c clock p
      else if t == ctrltype_ack
      then handle_ack fl pr c clock p
      else if t == ctrltype_ackack
      then some (handle_ackack fl pr c clock p, [])
      else if t == ctrltype_user
      then handle_user c clock p
      else some (c, [])

  -- `handlePacket`
  unfoldable pub handle_packet : Conn fl pr → ℕ → Option Packet → Option (Conn fl pr × List Output)
  handle_packet c clock none = some (c, [])
  handle_packet c clock (some p) = do
    (c₁, os) ←
        (if p.header.is_control_packet
          then handle_control c clock p
          else handle_data fl pr c clock p)
    some (c₁, resets_idle_timeout ∷ os)

  -- `push`: packets from the network wait in a queue, which drops what it has no room for.
  unfoldable pub push : Conn fl pr → Packet → Conn fl pr
  push c p =
      if not c.closed && ltb (length c.network_queue) queue_size
      then record c { network_queue = c.network_queue ++ (p ∷ []) }
      else c

  -- One round of `networkQueueReader`, of `writeQueueReader` and of `ticker`.
  unfoldable pub network_queue_reader : Conn fl pr → ℕ → Option (Conn fl pr × List Output)
  network_queue_reader c clock = elim c.network_queue [
    | [] ↦ some (c, [])
    | p ∷ ps ↦ handle_packet (record c { network_queue = ps }) clock (some p)
  ]

  unfoldable pub write_queue_reader : Conn fl pr → Conn fl pr
  write_queue_reader c = elim c.write_queue [
    | [] ↦ c
    | p ∷ ps ↦ record c { write_queue = ps; snd = Send.push fl c.snd (some p) }
  ]

  unfoldable pub ticker : Conn fl pr → ℕ → Option (Conn fl pr × List Output)
  ticker c clock = do
    let now = get_timestamp clock
    let (r, es) = Receive.tick fl c.recv (u64 (c.tsbpd_time_base + now))
    (c₁, os) ← handle_events fl pr (record c { recv = r }) c.recv clock es
    let (s, ps) = Send.tick fl c₁.snd now
    (c₂, qs) ← send_packets c₁ s clock ps
    some (c₂, os ++ qs)

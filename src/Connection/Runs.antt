-- ===== src/Connection/Runs.antt =====
-- Connections on concrete packets.
use gosrt.Common.{
  ℕ, ◌+◌, ◌-◌, ◌*◌, ◌/◌, ◌<◌, ◌≡◌, inl, inr, refl, arith, true, false, none, some, List, [], ◌∷◌,
  ◌++◌, length, All, replicate, u64, zero, suc, ◌^◌, lt→ltb,
}
use gosrt.Circular.{Number}
use gosrt.Packet.Types.{Packet, encryption_is_valid, opposite}
use gosrt.Packet.Handshake.{empty_key_material}
use gosrt.Packet.HandshakeExtension
use gosrt.Packet.HandshakeExtension.RoundTrip.{unmarshal-marshal-HandshakeExtension}
use gosrt.Congestion.Sample.{numbers}
use gosrt.Config.{Config, default_config}
use gosrt.Crypto.{Crypto, marshal_km, wrap_keys, calculate_kek}
use gosrt.Crypto.Keys.{HasKeys}
use gosrt.Crypto.Written.{message-written}
use gosrt.Crypto.Sample.{sample, sample-FillsBuffers, sample-Laws, keys, keys-HasKeys}
use gosrt.Connection.State.{SrtConnConfig, Output, on_send, new_srt_conn, recalculate}
use gosrt.Connection.Pop.{Conn, ctrltype_user, address, control_packet, pop_all}
use gosrt.Connection.Acks.{lookup_ack, handle_ackack}
use gosrt.Connection.AckNumbers.{keep_above, handle_ackack_lem}
use gosrt.Connection.Hsv4.{exttype_hsrsp, handle_hs_response}
use gosrt.Connection.Panics.{handle_hs_response_panics}
use gosrt.Connection.KeyMessages.{exttype_kmrsp, handle_km_request}
use gosrt.Connection.Peers.{with_announced, handle_km_request_takes}
use gosrt.Connection.Unwrapped.{computed_times, due_times, Arrivals, computed_times-due}
use gosrt.Connection.Announced.{switched, secret, IsAnnouncement, Sends}
use gosrt.Connection.Refresh.{pop_all-switches, pop_all-announces, pop_all-uses_announced}
use gosrt.Connection.Stream.{data_packet, write}
use gosrt.Connection.Chunks.{carried, IsChunk, write-Chunks}

abbrev initial : Number
initial = record { max = 2147483647; threshold = 1073741823; value = 10 }

-- A refresh after four packets, announced a packet before.
abbrev quick : Config
unfolding default_config
quick = record default_config { km_refresh_rate = 4; km_pre_announce = 1; passphrase = 1 ∷ 2 ∷ [] }

abbrev settings : SrtConnConfig numbers sample
unfolding quick
settings = record {
  version = 5;
  is_caller = true;
  config = quick;
  socket_id = 1;
  peer_socket_id = 2;
  tsbpd_time_base = 1000;
  tsbpd_delay = 120_000;
  peer_tsbpd_delay = 120_000;
  initial_packet_sequence_number = initial;
  crypto = some (keys 1);
  key_base_encryption = 1;
  local_ipv6 = false;
}

abbrev conn : Conn numbers sample
unfolding quick settings new_srt_conn
conn = new_srt_conn numbers sample settings 0 25 7

abbrev five : List Packet
unfolding data_packet
five = replicate 5 (data_packet 0 (8 ∷ 9 ∷ []))

-- Packets every 29 seconds.
abbrev every_29 : ℕ → ℕ → List ℕ
every_29 zero t = []
every_29 (suc n) t = (t + 29_000_000) ∷ every_29 n (t + 29_000_000)

every_29-Arrivals : (n t : ℕ) → t + n * 29_000_000 + 2 ^ 35 < 2 ^ 64 → Arrivals t (every_29 n t)
every_29-Arrivals zero t h = tt
every_29-Arrivals (suc n) t h =
    let next = t + 29_000_000 in
    (
      (omega arith, omega arith, omega arith),
      rw (lt→ltb t next (omega arith)) (every_29-Arrivals n next (omega arith)),
    )

-- 200 of them, over more than one wrap-around.
computed_times-due_example : computed_times conn (every_29 200 0) ≡ due_times conn (every_29 200 0)
unfolding new_srt_conn conn
computed_times-due_example =
    computed_times-due conn (every_29 200 0) refl refl (every_29-Arrivals 200 0 (omega arith))

five-data : All (λ (p : Packet). p.header.is_control_packet ≡ false) five
unfolding data_packet five
five-data = (refl, (refl, (refl, (refl, (refl, tt)))))

pop_all-switches_example :
    (d : Conn numbers sample) × (os : List Output) × (q : ℕ) × (r : ℕ) × (pop_all numbers sample
        (new_srt_conn numbers sample settings 0 25 7)
        0
        five
      ≡ some (d, os))
    × (length five ≡ q * 4 + r)
    × (r < 4)
    × (d.key_base_encryption ≡ switched q 1)
    × (d.km_refresh_countdown ≡ 4 - r)
    × (cr : Crypto) × (d.crypto ≡ some cr)
    × HasKeys cr
unfolding settings
pop_all-switches_example =
    pop_all-switches numbers sample sample-FillsBuffers sample-Laws settings 0 25 7 (inl refl)
      (omega arith) (omega arith) (omega arith) (keys 1) refl (keys-HasKeys 1) 0 five five-data

pop_all-announces_example :
    (d : Conn numbers sample) × (os : List Output) × (cr : Crypto) × (pop_all numbers sample
        (new_srt_conn numbers sample settings 0 25 7)
        0
        five
      ≡ some (d, os))
    × HasKeys cr
    × Sends (IsAnnouncement sample cr (1 ∷ 2 ∷ []) 2) os
unfolding settings five quick opposite
pop_all-announces_example =
    pop_all-announces numbers sample sample-FillsBuffers sample-Laws settings 0 25 7 (inl refl)
      (omega arith) (omega arith) (omega arith) (keys 1) refl (keys-HasKeys 1) 0 five five-data
      (omega arith)

pop_all-uses_announced_example :
    (d : Conn numbers sample) × (os : List Output) × (cr : Crypto) × (pop_all numbers sample
        (new_srt_conn numbers sample settings 0 25 7)
        0
        five
      ≡ some (d, os))
    × Sends (IsAnnouncement sample cr (1 ∷ 2 ∷ []) 2) os
    × (d.key_base_encryption ≡ 2)
    × (secret d.key_base_encryption d.crypto ≡ secret d.key_base_encryption (some cr))
unfolding settings five quick opposite
pop_all-uses_announced_example =
    pop_all-uses_announced numbers sample sample-FillsBuffers sample-Laws settings 0 25 7 (inl refl)
      (omega arith) (omega arith) (omega arith) (keys 1) refl (keys-HasKeys 1) 0 five five-data
      (omega arith) (omega arith) (omega arith)

-- The peer uses the even key, and is told the odd one.
abbrev request : List ℕ
request =
    (message-written sample sample-Laws (keys 5) (keys-HasKeys 5) (1 ∷ 2 ∷ []) 2 (inr (inl refl))).0

abbrev request_packet : Packet
unfolding control_packet
request_packet = control_packet 0 0x7fff 3 0 []

sent_odd : (marshal_km sample (keys 5) empty_key_material (1 ∷ 2 ∷ []) 2).1 ≡ none
unfolding marshal_km encryption_is_valid wrap_keys calculate_kek
sent_odd = refl

handle_km_request_takes_example :
    handle_km_request numbers sample conn 0 (record request_packet { payload = some request })
    ≡ some (
      with_announced numbers sample (keys 5) (keys 1) 2 conn,
      on_send (
            address numbers sample conn (record request_packet {
              header = record (request_packet.header) { sub_type = exttype_kmrsp };
              payload = some request;
            }))
          ∷ [],
    )
unfolding new_srt_conn control_packet conn
handle_km_request_takes_example =
    handle_km_request_takes numbers sample sample-Laws (keys 5) (keys 1) (keys-HasKeys 5)
      (keys-HasKeys 1) refl 2 (inr (inl refl)) conn refl sent_odd refl 0 request_packet request refl
      (message-written sample sample-Laws (keys 5) (keys-HasKeys 5) (1 ∷ 2 ∷ []) 2
        (inr (inl refl))).1

write-Chunks_example :
    (ps : List Packet) × (write numbers sample conn 0 (replicate 2000 7)
      ≡ some (some 2000, record conn { write_queue = conn.write_queue ++ ps; write_buffer = [] }))
    × (carried ps ≡ conn.write_buffer ++ replicate 2000 7)
    × All (IsChunk 1456 0) ps
unfolding new_srt_conn conn
write-Chunks_example =
    write-Chunks numbers sample conn 0 (replicate 2000 7) 2 refl (omega arith) (omega arith)
      (omega arith) (omega arith)

abbrev waiting : Conn numbers sample
unfolding new_srt_conn
waiting = record conn { ack_numbers = (3, 5000) ∷ (2, 4000) ∷ (1, 3000) ∷ [] }

abbrev answer : Packet
unfolding control_packet
answer = control_packet 0 6 0 2 []

handle_ackack_lem_example :
    let d = handle_ackack numbers sample waiting 9000 answer in
    (d.ack_numbers ≡ keep_above 2 waiting.ack_numbers)
    × ((t : ℕ)
        → lookup_ack 2 waiting.ack_numbers ≡ some t
        → (d.rtt ≡ recalculate numbers sample waiting.rtt ((9000 - t) / 1000))
          × (d.statistics.pkt_recv_invalid ≡ waiting.statistics.pkt_recv_invalid))
    × (lookup_ack 2 waiting.ack_numbers ≡ none
        → (d.rtt ≡ waiting.rtt)
          × (d.statistics.pkt_recv_invalid ≡ u64 (waiting.statistics.pkt_recv_invalid + 1)))
unfolding new_srt_conn control_packet conn
handle_ackack_lem_example = handle_ackack_lem numbers sample waiting 9000 answer

-- A response as `handleHSRequest` answers it.
abbrev response : HandshakeExtension.HandshakeExtension
response = record {
  srt_version = 0x010203;
  srt_flags = record {
    tsbpd_snd = false;
    tsbpd_rcv = true;
    crypt = true;
    tlpktdrop = true;
    periodic_nak = true;
    rexmit_flg = true;
    stream = false;
    packet_filter = false;
  };
  recv_tsbpd_delay = 0;
  send_tsbpd_delay = 120;
}

abbrev listening : SrtConnConfig numbers sample
unfolding settings
listening = record settings { version = 4; is_caller = false }

abbrev response_packet : Packet
unfolding control_packet
response_packet =
    control_packet 0 ctrltype_user exttype_hsrsp 0 (HandshakeExtension.marshal response)

handle_hs_response_panics_example :
    handle_hs_response numbers sample
      (new_srt_conn numbers sample listening 0 25 7)
      0
      response_packet
    ≡ none
unfolding listening settings control_packet
handle_hs_response_panics_example =
    (handle_hs_response_panics numbers sample listening 0 25 7 0 response_packet).1 (
      refl,
      refl,
      response,
      unmarshal-marshal-HandshakeExtension response
          (record { version_fits = omega arith; recv_fits = omega arith; send_fits = omega arith }),
      (omega arith, omega arith, refl, refl, refl, refl, refl, refl),
    )

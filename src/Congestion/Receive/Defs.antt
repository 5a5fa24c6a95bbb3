-- ===== src/Congestion/Receive/Defs.antt =====
-- congestion/live/receive.go: the state, `NewReceiver`, `Flush` and `SetNAKInterval`.
use gosrt.Common.{ℕ, Bool, ◌&&◌, Option, none, List, [], ◌∷◌, ◌==◌, if◌then◌else◌}
use gosrt.Circular.{Number, gt, dec}
use gosrt.Packet.Types.{Packet}
use gosrt.Congestion.Float.{Float64}
use gosrt.Congestion.Stats.{ReceiveStats}

-- What the receiver hands to its callbacks.
pub data Event : Type 0 where
  send_ack : Number → Bool → Event
  send_nak : List Number → Event
  deliver : Packet → Event

-- `==` of two Number structs.
abbrev pub number_eq : Number → Number → Bool
number_eq a b = a.max == b.max && a.threshold == b.threshold && a.value == b.value

abbrev pub seq : Packet → Number
seq p = p.header.packet_sequence_number

-- Where the search for a place ends: the packet is there already, it goes before a later one (the
-- list with the packet in it), or the list ends.
pub data Placement : Type 0 where
  duplicate : Placement
  fills : List Packet → Placement
  nowhere : Placement

abbrev pub behind : Packet → Placement → Placement
behind p duplicate = duplicate
behind p (fills ps) = fills (p ∷ ps)
behind p nowhere = nowhere

unfoldable pub place : Packet → List Packet → Placement
place pkt [] = nowhere
place pkt (p ∷ ps) =
    if number_eq (seq p) (seq pkt)
    then duplicate
    else if gt (seq p) (seq pkt)
    then fills (pkt ∷ p ∷ ps)
    else behind p (place pkt ps)

module _ (fl : Float64) where
  open fl use {F, lit, add_f, mul_f, div_f, of_u64, to_u64, is_zero}

  pub record Rate : Type 0 where
    pub last : ℕ
    pub period : ℕ
    pub packets : ℕ
    pub bytes : ℕ
    pub bytes_retrans : ℕ
    pub packets_per_second : F
    pub bytes_per_second : F
    pub pkt_loss_rate : F

  -- `probe_time` is `none` for the zero time.
  pub record Receiver : Type 0 where
    pub max_seen_sequence_number : Number
    pub last_ack_sequence_number : Number
    pub last_delivered_sequence_number : Number
    pub packet_list : List Packet
    pub n_packets : ℕ
    pub periodic_ack_interval : ℕ
    pub periodic_nak_interval : ℕ
    pub last_periodic_ack : ℕ
    pub last_periodic_nak : ℕ
    pub avg_payload_size : F
    pub avg_link_capacity : F
    pub probe_time : Option ℕ
    pub probe_next_seq : Number
    pub statistics : ReceiveStats fl
    pub rate : Rate

  abbrev pub zero_stats : ReceiveStats fl
  zero_stats = record {
    pkt = 0;
    byte = 0;
    pkt_unique = 0;
    byte_unique = 0;
    pkt_loss = 0;
    byte_loss = 0;
    pkt_lost = 0;
    pkt_retrans = 0;
    byte_retrans = 0;
    pkt_belated = 0;
    byte_belated = 0;
    pkt_late = 0;
    byte_late = 0;
    pkt_drop = 0;
    byte_drop = 0;
    pkt_buf = 0;
    byte_buf = 0;
    ms_buf = 0;
    byte_payload = 0;
    mbps_estimated_recv_bandwidth = lit 0 1;
    mbps_estimated_link_capacity = lit 0 1;
    pkt_loss_rate = lit 0 1;
  }

  -- `NewReceiver` for a configuration with its three callbacks.
  unfoldable pub new_receiver : Number → ℕ → ℕ → Receiver
  new_receiver initial ack_interval nak_interval = record {
    max_seen_sequence_number = dec initial;
    last_ack_sequence_number = dec initial;
    last_delivered_sequence_number = dec initial;
    packet_list = [];
    n_packets = 0;
    periodic_ack_interval = ack_interval;
    periodic_nak_interval = nak_interval;
    last_periodic_ack = 0;
    last_periodic_nak = 0;
    avg_payload_size = lit 1456 1;
    avg_link_capacity = lit 0 1;
    probe_time = none;
    probe_next_seq = record { max = 0; threshold = 0; value = 0 };
    statistics = zero_stats;
    rate = record {
      last = 0;
      period = 1_000_000;
      packets = 0;
      bytes = 0;
      bytes_retrans = 0;
      packets_per_second = lit 0 1;
      bytes_per_second = lit 0 1;
      pkt_loss_rate = lit 0 1;
    };
  }

  unfoldable pub flush : Receiver → Receiver
  flush r = record r { packet_list = [] }

  unfoldable pub set_nak_interval : Receiver → ℕ → Receiver
  set_nak_interval r interval = record r { periodic_nak_interval = interval }

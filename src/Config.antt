-- ===== src/Config.antt =====
-- config.go: the configuration of a connection, and its validation.
-- The logger, the control callback of the listener, and the parsing and printing of URLs are left
-- out. Durations are in nanoseconds; strings are lists of bytes.
pub mod Accepted
mod Runs
use gosrt.Common.{
  ℕ, ◌+◌, ◌/◌, ◌^◌, ◌-◌, Bool, true, false, not, ◌&&◌, ◌||◌, Option, none, some, List, [], ◌∷◌,
  length, ltb, leb, ◌==◌, if◌then◌else◌, sub32,
}
use gosrt.Common.Int.{ℤ, pos, negsuc, ltb_ℤ}

abbrev pub udp_header_size : ℕ
udp_header_size = 28

abbrev pub srt_header_size : ℕ
srt_header_size = 16

abbrev pub min_mss_size : ℕ
min_mss_size = 76

abbrev pub max_mss_size : ℕ
max_mss_size = 1500

abbrev pub min_payload_size : ℕ
min_payload_size = min_mss_size - udp_header_size - srt_header_size

abbrev pub max_payload_size : ℕ
max_payload_size = max_mss_size - udp_header_size - srt_header_size

abbrev pub min_passphrase_size : ℕ
min_passphrase_size = 10

abbrev pub max_passphrase_size : ℕ
max_passphrase_size = 80

abbrev pub max_streamid_size : ℕ
max_streamid_size = 512

abbrev pub srt_version : ℕ
srt_version = 0x010401

pub record Config : Type 0 where
  pub congestion : List ℕ
  pub connection_timeout : ℤ
  pub drift_tracer : Bool
  pub enforced_encryption : Bool
  pub fc : ℕ
  pub group_connect : Bool
  pub group_stability_timeout : ℤ
  pub input_bw : ℤ
  pub iptos : ℤ
  pub ipttl : ℤ
  pub ipv6_only : ℤ
  pub km_pre_announce : ℕ
  pub km_refresh_rate : ℕ
  pub latency : ℤ
  pub loss_max_ttl : ℕ
  pub max_bw : ℤ
  pub message_api : Bool
  pub min_input_bw : ℤ
  pub min_version : ℕ
  pub mss : ℕ
  pub nak_report : Bool
  pub overhead_bw : ℤ
  pub packet_filter : List ℕ
  pub passphrase : List ℕ
  pub payload_size : ℕ
  pub pb_keylen : ℤ
  pub peer_idle_timeout : ℤ
  pub peer_latency : ℤ
  pub receiver_buffer_size : ℕ
  pub receiver_latency : ℤ
  pub send_buffer_size : ℕ
  pub send_drop_delay : ℤ
  pub stream_id : List ℕ
  pub too_late_packet_drop : Bool
  pub transmission_type : List ℕ
  pub tsbpd_mode : Bool
  pub allow_peer_ip_change : Bool

-- "live"
abbrev pub live : List ℕ
live = 108 ∷ 105 ∷ 118 ∷ 101 ∷ []

unfoldable pub same_bytes : List ℕ → List ℕ → Bool
same_bytes [] [] = true
same_bytes [] (y ∷ ys) = false
same_bytes (x ∷ xs) [] = false
same_bytes (x ∷ xs) (y ∷ ys) = (x == y) && same_bytes xs ys

abbrev pub equals_ℤ : ℤ → ℤ → Bool
equals_ℤ a b = not (ltb_ℤ a b) && not (ltb_ℤ b a)

-- The field that a refusal names.
pub data ConfigError : Type 0 where
  bad_transmission_type bad_congestion bad_connection_timeout bad_group_connect bad_iptos bad_ipttl
        bad_ipv6_only bad_km_pre_announce bad_min_version bad_mss bad_nak_report bad_overhead_bw
        bad_packet_filter bad_passphrase bad_payload_size bad_pb_keylen bad_peer_latency
        bad_receiver_latency bad_send_drop_delay bad_stream_id bad_too_late_packet_drop
        bad_tsbpd_mode :
      ConfigError

-- The tests before the latency is copied, and those after it, in their order.
pub check_before : Config → Option ConfigError
unfolding same_bytes
check_before c =
    if not (same_bytes c.congestion live)
    then some bad_congestion
    else if not (ltb_ℤ (pos 0) c.connection_timeout)
    then some bad_connection_timeout
    else if c.group_connect
    then some bad_group_connect
    else if ltb_ℤ (pos 0) c.iptos && ltb_ℤ (pos 255) c.iptos
    then some bad_iptos
    else if ltb_ℤ (pos 0) c.ipttl && ltb_ℤ (pos 255) c.ipttl
    then some bad_ipttl
    else if ltb_ℤ (pos 0) c.ipv6_only
    then some bad_ipv6_only
    else if not (c.km_refresh_rate == 0)
        && (ltb c.km_pre_announce 1 || ltb (c.km_refresh_rate / 2) c.km_pre_announce)
    then some bad_km_pre_announce
    else none

pub check_sizes : Config → Option ConfigError
check_sizes c =
    if not (length c.passphrase == 0)
      && (ltb (length c.passphrase) min_passphrase_size
          || ltb max_passphrase_size (length c.passphrase))
    then some bad_passphrase
    else if ltb c.payload_size min_payload_size || ltb max_payload_size c.payload_size
    then some bad_payload_size
    else if ltb (sub32 c.mss (srt_header_size + udp_header_size)) c.payload_size
    then some bad_payload_size
    else if not (equals_ℤ c.pb_keylen (pos 16))
        && not (equals_ℤ c.pb_keylen (pos 24))
        && not (equals_ℤ c.pb_keylen (pos 32))
    then some bad_pb_keylen
    else if ltb_ℤ c.peer_latency (pos 0)
    then some bad_peer_latency
    else if ltb_ℤ c.receiver_latency (pos 0)
    then some bad_receiver_latency
    else if ltb_ℤ c.send_drop_delay (pos 0)
    then some bad_send_drop_delay
    else if ltb max_streamid_size (length c.stream_id)
    then some bad_stream_id
    else if not c.too_late_packet_drop
    then some bad_too_late_packet_drop
    else if not (same_bytes c.transmission_type live)
    then some bad_transmission_type
    else if not c.tsbpd_mode
    then some bad_tsbpd_mode
    else none

pub check_after : Config → Option ConfigError
check_after c =
    if not (c.min_version == srt_version)
    then some bad_min_version
    else if ltb c.mss min_mss_size || ltb max_mss_size c.mss
    then some bad_mss
    else if not c.nak_report
    then some bad_nak_report
    else if ltb_ℤ c.overhead_bw (pos 10) || ltb_ℤ (pos 100) c.overhead_bw
    then some bad_overhead_bw
    else if not (length c.packet_filter == 0)
    then some bad_packet_filter
    else check_sizes c

abbrev pub force_live : Config → Config
force_live c = record c {
  congestion = live;
  nak_report = true;
  too_late_packet_drop = true;
  tsbpd_mode = true;
}

abbrev pub copy_latency : Config → Config
copy_latency c =
    if ltb_ℤ c.latency (pos 0)
    then c
    else record c { peer_latency = c.latency; receiver_latency = c.latency }

-- The configuration is changed in place, also where an error is returned.
pub validate : Config → Config × Option ConfigError
validate c =
    if not (same_bytes c.transmission_type live)
    then (c, some bad_transmission_type)
    else let live_c = force_live c in
      elim (check_before live_c) [
        | some e ↦ (live_c, some e)
        | none ↦ (copy_latency live_c, check_after (copy_latency live_c))
      ]

unfoldable pub default_config : Config
default_config = record {
  congestion = live;
  connection_timeout = pos 3_000_000_000;
  drift_tracer = true;
  enforced_encryption = true;
  fc = 25600;
  group_connect = false;
  group_stability_timeout = pos 0;
  input_bw = pos 0;
  iptos = pos 0;
  ipttl = pos 0;
  ipv6_only = negsuc 0;
  km_pre_announce = 2 ^ 12;
  km_refresh_rate = 2 ^ 24;
  latency = negsuc 0;
  loss_max_ttl = 0;
  max_bw = negsuc 0;
  message_api = false;
  min_input_bw = pos 0;
  min_version = srt_version;
  mss = max_mss_size;
  nak_report = true;
  overhead_bw = pos 25;
  packet_filter = [];
  passphrase = [];
  payload_size = max_payload_size;
  pb_keylen = pos 16;
  peer_idle_timeout = pos 5_000_000_000;
  peer_latency = pos 120_000_000;
  receiver_buffer_size = 0;
  receiver_latency = pos 120_000_000;
  send_buffer_size = 0;
  send_drop_delay = pos 1_000_000_000;
  stream_id = [];
  too_late_packet_drop = true;
  transmission_type = live;
  tsbpd_mode = true;
  allow_peer_ip_change = false;
}

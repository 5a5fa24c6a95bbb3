-- ===== src/Connection/Pop.antt =====
-- connection.go: `pop`, by which every packet leaves the connection, with the schedule of the keys,
-- and `sendKMRequest`.
use gosrt.Common.{
  ℕ, ◌+◌, ◌/◌, ◌%◌, ◌^◌, true, false, not, ◌&&◌, Option, none, some, List, [], ◌∷◌, ◌++◌, ◌==◌,
  if◌then◌else◌, u64, sub64, bit_and,
}
use gosrt.Packet.Types.{Packet, new_packet, payload_data, opposite, max_timestamp}
use gosrt.Packet.Wire.{Result, ok, err, panics}
use gosrt.Packet.KeyMaterial.{marshal}
use gosrt.Packet.Handshake.{empty_key_material}
use gosrt.Congestion.Float.{Float64}
use gosrt.Crypto.{Primitives, Crypto, marshal_km, encrypt_or_decrypt_payload, generate_sek}
use gosrt.Connection.State.{SrtConn, Output, on_send}

abbrev pub ctrltype_user : ℕ
ctrltype_user = 0x7fff

abbrev pub exttype_kmreq : ℕ
exttype_kmreq = 3

-- `none` is a panic.
infixl 5 ◌>>=◌
abbrev pub ◌>>=◌ {ℓ κ} : {A : Type ℓ} {B : Type κ} → Option A → (A → Option B) → Option B
none >>= f = none
some a >>= f = f a

-- `getTimestamp` and `getTimestampForPacket` at a clock in nanoseconds.
abbrev pub get_timestamp : ℕ → ℕ
get_timestamp clock = u64 (clock / 1000)

abbrev pub get_timestamp_for_packet : ℕ → ℕ
get_timestamp_for_packet clock = bit_and (get_timestamp clock) max_timestamp % 2 ^ 32

-- A control packet with its type, subtype, type-specific field and payload.
unfoldable pub control_packet : ℕ → ℕ → ℕ → ℕ → List ℕ → Packet
unfolding new_packet
control_packet clock type subtype specific payload = record {
  header = record (new_packet.header) {
    is_control_packet = true;
    control_type = type;
    sub_type = subtype;
    type_specific = specific;
    timestamp = get_timestamp_for_packet clock;
  };
  payload = some payload;
}

-- What `Marshal` left in the payload: its errors are ignored.
abbrev pub written : Result (List ℕ) → Option (List ℕ)
written (ok b) = some b
written (err e) = some []
written panics = none

module _ (fl : Float64) (pr : Primitives) where
  abbrev pub Conn : Type 0
  Conn = SrtConn fl pr

  unfoldable pub address : Conn → Packet → Packet
  address c p = record p { header = record (p.header) { destination_socket_id = c.peer_socket_id } }

  -- `sendKMRequest` with the keys, if there are any; the packet goes through the branch of `pop` for
  -- control packets.
  unfoldable pub request : Conn → ℕ → ℕ → Option Crypto → Option (Conn × List Output)
  request c clock key none = some (c, [])
  request c clock key (some cr) = do
    payload ← written (marshal (marshal_km pr cr empty_key_material c.config.passphrase key).0)
    let q = c.statistics
    some (
      record c { statistics = record q { pkt_sent_km = u64 (q.pkt_sent_km + 1) } },
      on_send (address c (control_packet clock ctrltype_user exttype_kmreq 0 payload)) ∷ [],
    )

  unfoldable pub send_km_request : Conn → ℕ → ℕ → Option (Conn × List Output)
  send_km_request c clock key = request c clock key c.crypto

  -- The packet with the key in use, encrypted unless it is sent again.
  unfoldable pub seal : Conn → Crypto → Packet → Packet
  seal c cr p =
      let key = c.key_base_encryption in
      let h = p.header in
      record p {
        header = record h { key_base_encryption_flag = key };
        payload =
            if h.retransmitted_packet_flag
            then p.payload
            else some
                (encrypt_or_decrypt_payload pr cr (payload_data p) key
                  h.packet_sequence_number.value).0;
      }

  unfoldable pub count_down : Conn → Conn
  count_down c = record c {
    km_pre_announce_countdown = sub64 c.km_pre_announce_countdown 1;
    km_refresh_countdown = sub64 c.km_refresh_countdown 1;
  }

  -- The request is repeated until the peer confirms it.
  unfoldable pub announce_key : Conn → ℕ → Option (Conn × List Output)
  announce_key c clock =
      if (c.km_pre_announce_countdown == 0) && not c.km_confirmed
      then (do
        (c', os) ← send_km_request c clock (opposite c.key_base_encryption)
        some
            (record c' { km_pre_announce_countdown = u64 (c.config.km_pre_announce / 10 + 1) }, os))
      else some (c, [])

  unfoldable pub switch_key : Conn → Conn
  switch_key c =
      if c.km_refresh_countdown == 0
      then record c {
        km_pre_announce_countdown = sub64 c.config.km_refresh_rate c.config.km_pre_announce;
        km_refresh_countdown = c.config.km_refresh_rate;
        key_base_encryption = opposite c.key_base_encryption;
        km_confirmed = false;
      }
      else c

  unfoldable pub renew_key : Conn → Crypto → Conn
  renew_key c cr =
      if c.km_refresh_countdown == sub64 c.config.km_refresh_rate c.config.km_pre_announce
      then (let (cr', r, e) = generate_sek pr cr (opposite c.key_base_encryption) c.random in
          record c { crypto = some cr'; random = r })
      else c

  -- A data packet, with the keys, if there are any.
  unfoldable pub pop_data : Conn → ℕ → Packet → Option Crypto → Option (Conn × List Output)
  pop_data c clock p none = some (c, on_send p ∷ [])
  pop_data c clock p (some cr) = do
    (c₁, os) ← announce_key (count_down c) clock
    some (renew_key (switch_key c₁) cr, os ++ (on_send (seal c cr p) ∷ []))

  unfoldable pub pop : Conn → ℕ → Packet → Option (Conn × List Output)
  pop c clock p =
      if p.header.is_control_packet
      then some (c, on_send (address c p) ∷ [])
      else pop_data c clock (address c p) c.crypto

  -- The packets that the sender hands over, one after the other.
  unfoldable pub pop_all : Conn → ℕ → List Packet → Option (Conn × List Output)
  pop_all c clock [] = some (c, [])
  pop_all c clock (p ∷ ps) = do
    (c₁, os) ← pop c clock p
    (c₂, qs) ← pop_all c₁ clock ps
    some (c₂, os ++ qs)

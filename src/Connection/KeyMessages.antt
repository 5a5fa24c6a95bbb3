-- ===== src/Connection/KeyMessages.antt =====
-- connection.go: the key material messages.
use gosrt.Common.{
  ℕ, ◌+◌, Bool, true, false, not, ◌&&◌, Option, none, some, List, [], ◌∷◌, ltb, ◌==◌, if◌then◌else◌,
  u64,
}
use gosrt.Packet.Types.{Packet, payload_data, opposite}
use gosrt.Packet.Wire.{Result, ok, err, panics}
use gosrt.Packet.KeyMaterial.{KeyMaterial, unmarshal}
use gosrt.Packet.Handshake.{empty_key_material}
use gosrt.Congestion.Float.{Float64}
use gosrt.Crypto
use gosrt.Crypto.{Primitives}
use gosrt.Connection.State.{Output, stops_km_requests}
use gosrt.Connection.Pop.{Conn, pop}
use gosrt.Connection.Close.{close}
use gosrt.Connection.Acks.{count_invalid}

abbrev pub exttype_kmrsp : ℕ
exttype_kmrsp = 4

module _ (fl : Float64) (pr : Primitives) where
  abbrev pub count_recv_km : Conn fl pr → Conn fl pr
  count_recv_km c =
      let q = c.statistics in
      record c { statistics = record q { pkt_recv_km = u64 (q.pkt_recv_km + 1) } }

  abbrev pub count_sent_km : Conn fl pr → Conn fl pr
  count_sent_km c =
      let q = c.statistics in
      record c { statistics = record q { pkt_sent_km = u64 (q.pkt_sent_km + 1) } }

  -- With HSv4 the first request brings the key length; without an error there are keys afterwards.
  unfoldable pub first_keys : Conn fl pr → KeyMaterial → Conn fl pr
  first_keys c km =
      let (fresh, r) = Crypto.new pr km.klen c.random in
      elim fresh [
        | none ↦ record c { random = r }
        | some cr ↦ record c {
          crypto = some cr;
          key_base_encryption = opposite km.key_based_encryption;
          random = r;
        }
      ]

  abbrev pub absent : Option Crypto.Crypto → Bool
  absent none = true
  absent (some cr) = false

  abbrev pub lacks_keys : Conn fl pr → Bool
  lacks_keys c = (c.version == 4) && absent c.crypto

  -- What follows `UnmarshalKM`: the key is switched and the request answered, or it is counted.
  unfoldable pub switch_and_answer :
      Conn fl pr
      → ℕ
      → Packet
      → Crypto.Crypto × Option Crypto.CryptoError
      → Option (Conn fl pr × List Output)
  switch_and_answer c clock p (cr, some e) =
      some (count_invalid fl pr (record c { crypto = some cr }), [])
  switch_and_answer c clock p (cr, none) =
      pop fl pr
        (count_sent_km
          (record c { crypto = some cr; key_base_encryption = opposite c.key_base_encryption }))
        clock (record p { header = record (p.header) { sub_type = exttype_kmrsp } })

  -- A request for the key in use is refused.
  unfoldable pub take_keys :
      Conn fl pr
      → ℕ
      → Packet
      → KeyMaterial
      → Option Crypto.Crypto
      → Option (Conn fl pr × List Output)
  take_keys c clock p km none = some (c, [])
  take_keys c clock p km (some cr) =
      if km.key_based_encryption == c.key_base_encryption
      then some (count_invalid fl pr c, [])
      else switch_and_answer c clock p (Crypto.unmarshal_km pr cr km c.config.passphrase)

  unfoldable pub accept_km_request :
      Conn fl pr → ℕ → Packet → Result KeyMaterial → Option (Conn fl pr × List Output)
  accept_km_request c clock p (err e) = some (count_invalid fl pr c, [])
  accept_km_request c clock p panics = none
  accept_km_request c clock p (ok km) =
      if lacks_keys c
      then (let c' = first_keys c km in
          if lacks_keys c' then some (close fl pr c' clock) else take_keys c' clock p km c'.crypto)
      else take_keys c clock p km c.crypto

  unfoldable pub handle_km_request : Conn fl pr → ℕ → Packet → Option (Conn fl pr × List Output)
  handle_km_request c clock p =
      accept_km_request (count_recv_km c) clock p (unmarshal empty_key_material (payload_data p))

  -- `kmConfirmed`, in the time in which an announcement may be answered.
  unfoldable pub confirm : Conn fl pr → Conn fl pr
  confirm c =
      if not (ltb c.km_pre_announce_countdown c.config.km_pre_announce)
      then c
      else record c { km_confirmed = true }

  -- `stopKMRequests` is nil where no requests were started: then the call panics.
  unfoldable pub accept_km_response :
      Conn fl pr → ℕ → KeyMaterial → Option (Conn fl pr × List Output)
  accept_km_response c clock km =
      if not (c.version == 4)
      then some (confirm c, [])
      else if not c.stop_km_requests
      then none
      else if not (km.error == 0)
      then (let (c', os) = close fl pr c clock in some (c', stops_km_requests ∷ os))
      else some (confirm c, stops_km_requests ∷ [])

  unfoldable pub handle_km_response : Conn fl pr → ℕ → Packet → Option (Conn fl pr × List Output)
  handle_km_response c clock p = elim (unmarshal empty_key_material (payload_data p)) [
    | err e ↦ some (count_invalid fl pr (count_recv_km c), [])
    | panics ↦ none
    | ok km ↦ elim c.crypto [
      | none ↦ some (count_recv_km c, [])
      | some cr ↦ accept_km_response (count_recv_km c) clock km
    ]
  ]

-- ===== src/Connection/Peers.antt =====
-- connection.go: the keys that one connection announces, at its peer.
use gosrt.Common.{
  ℕ, ◌≡◌, refl, sym, ap, ◌∙◌, Bool, true, false, ◌&&◌, none, some, List, [], ◌∷◌, ◌==◌,
  if◌then◌else◌,
}
use gosrt.Packet.Types.{Packet, opposite}
use gosrt.Packet.Wire.{ok, ◌>>=◌}
use gosrt.Packet.KeyMaterial.{KeyMaterial, marshal, unmarshal}
use gosrt.Packet.Handshake.{empty_key_material}
use gosrt.Congestion.Float.{Float64}
use gosrt.Crypto.{Primitives, Crypto, marshal_km, unmarshal_km}
use gosrt.Crypto.Keys.{HasKeys}
use gosrt.Crypto.Exchange.{Laws, IsKey, with_keys_of}
use gosrt.Crypto.OverWire.{message, unmarshal_km-over_wire}
use gosrt.Connection.State.{on_send}
use gosrt.Connection.Pop.{Conn, address, pop, pop_data}
use gosrt.Connection.Close.{close}
use gosrt.Connection.KeyMessages.{
  exttype_kmrsp, count_recv_km, count_sent_km, absent, lacks_keys, first_keys, switch_and_answer,
  accept_km_request, take_keys, handle_km_request,
}

and_false : (b : Bool) → b && false ≡ false
and_false true = refl
and_false false = refl

-- The peer `d` with the keys that `c` announced, which switches its own key and counts both messages.
module _ (fl : Float64) (pr : Primitives) where
  abbrev pub with_announced : Crypto → Crypto → ℕ → Conn fl pr → Conn fl pr
  with_announced c d key peer = count_sent_km fl pr (record (count_recv_km fl pr peer) {
    crypto = some (with_keys_of d c key);
    key_base_encryption = opposite peer.key_base_encryption;
  })

module _ (fl : Float64) (pr : Primitives) (laws : Laws pr) (c d : Crypto) (hc : HasKeys c)
    (hd : HasKeys d) (same : c.key_length ≡ d.key_length) (key : ℕ) (k : IsKey key)
    (peer : Conn fl pr) (has : peer.crypto ≡ some d)
    (sent : (marshal_km pr c empty_key_material peer.config.passphrase key).1 ≡ none)
    (free : (key == peer.key_base_encryption) ≡ false) where
  answered :
      (clock : ℕ) (x : Conn fl pr) (q : Packet)
      → q.header.is_control_packet ≡ true
      → pop fl pr x clock q ≡ some (x, on_send (address fl pr x q) ∷ [])
  unfolding pop
  answered clock x q control =
      ap
        (λ b.
          if b
          then some (x, on_send (address fl pr x q) ∷ [])
          else pop_data fl pr x clock (address fl pr x q) x.crypto)
        control

  take_keys_lem :
      (clock : ℕ) (q : Packet) (m : KeyMaterial)
      → q.header.is_control_packet ≡ true
      → m.key_based_encryption ≡ key
      → unmarshal_km pr d m peer.config.passphrase ≡ (with_keys_of d c key, none)
      → take_keys fl pr (count_recv_km fl pr peer) clock q m (some d)
        ≡ some (
          with_announced fl pr c d key peer,
          on_send (
                address fl pr
                  (with_announced fl pr c d key peer)
                  (record q { header = record (q.header) { sub_type = exttype_kmrsp } }))
              ∷ [],
        )
  unfolding take_keys switch_and_answer
  take_keys_lem clock q m control flags u =
      let f : ((m.key_based_encryption == peer.key_base_encryption) ≡ false) =
        ap (λ x. x == peer.key_base_encryption) flags ∙ free in
      rw f (
        ap (switch_and_answer fl pr (count_recv_km fl pr peer) clock q) u
        ∙ answered clock (with_announced fl pr c d key peer)
            (record q { header = record (q.header) { sub_type = exttype_kmrsp } }) control)

  -- A request with wrapped keys, none of them the key in use, reaches a peer with the same passphrase
  -- and keys of the same length: the request is written, and the peer takes over the salt and the
  -- announced keys, and no other, switches its own key, and sends the request back as its response.
  pub handle_km_request_takes :
      (clock : ℕ) (p : Packet) (b : List ℕ)
      → p.header.is_control_packet ≡ true
      → marshal (message pr c peer.config.passphrase key) ≡ ok b
      → handle_km_request fl pr peer clock (record p { payload = some b })
        ≡ some (
          with_announced fl pr c d key peer,
          on_send (
                address fl pr peer (record p {
                  header = record (p.header) { sub_type = exttype_kmrsp };
                  payload = some b;
                }))
              ∷ [],
        )
  unfolding handle_km_request accept_km_request address
  handle_km_request_takes clock p b control w =
      let (m, r, flags, u) =
        unmarshal_km-over_wire pr laws c d hc hd same peer.config.passphrase key k sent
          empty_key_material in
      let read : (unmarshal empty_key_material b ≡ ok m) =
        ap (λ x. x >>= unmarshal empty_key_material) (sym w) ∙ r in
      let q = record p { payload = some b } in
      let l : (lacks_keys fl pr peer ≡ false) =
        ap (λ o. (peer.version == 4) && absent fl pr o) has ∙ and_false (peer.version == 4) in
      ap (accept_km_request fl pr (count_recv_km fl pr peer) clock q) read
      ∙ (ap
            (λ b.
              if b
              then (let c' = first_keys fl pr (count_recv_km fl pr peer) m in
                  if lacks_keys fl pr c'
                  then some (close fl pr c' clock)
                  else take_keys fl pr c' clock q m c'.crypto)
              else take_keys fl pr (count_recv_km fl pr peer) clock q m peer.crypto)
            l
          ∙ (ap (take_keys fl pr (count_recv_km fl pr peer) clock q m) has
              ∙ take_keys_lem clock q m control flags u))

-- ===== src/Connection/Panics.antt =====
-- connection.go: the HSv4 response that makes a connection panic.
use mathlib.Core.Option.{none-ne-some}
use mathlib.Core.Bool.{false≢true}
use gosrt.Common.{
  ℕ, ◌≡◌, ◌↔◌, inl, inr, refl, sym, ap, ◌∙◌, Bool, true, false, none, ◌==◌, Bool-cases, ◌≤◌, ◌<◌,
  ◌&&◌, ==_iff, arith,
}
use gosrt.Packet.Types.{Packet, payload_data}
use gosrt.Packet.Wire.{Result, ok, err, panics}
use gosrt.Packet.Quiet.{quiet}
use gosrt.Packet.HandshakeExtension.{HandshakeExtension, unmarshal}
use gosrt.Packet.HandshakeExtension.Quiet.{unmarshal-quiet}
use gosrt.Congestion.Float.{Float64}
use gosrt.Crypto.{Primitives}
use gosrt.Connection.State.{SrtConnConfig, new_srt_conn}
use gosrt.Connection.Pop.{Conn}
use gosrt.Connection.Hsv4.{accepts_response, finish_response, check_response, handle_hs_response}

-- What the handler asks of a response.
abbrev pub Listed : HandshakeExtension → Type 0
Listed cif =
    (0x010200 ≤ cif.srt_version)
    × (cif.srt_version < 0x010300)
    × (cif.srt_flags.tsbpd_rcv ≡ true)
    × (cif.srt_flags.tlpktdrop ≡ true)
    × (cif.srt_flags.crypt ≡ true)
    × (cif.srt_flags.rexmit_flg ≡ true)
    × (cif.srt_flags.stream ≡ false)
    × (cif.srt_flags.packet_filter ≡ false)

accepts-Listed : (cif : HandshakeExtension) → (accepts_response cif ≡ true) ↔ Listed cif
unfolding accepts_response
accepts-Listed cif = ground arith

and_right : (a b : Bool) → a ≡ true → (a && b) ≡ false → b ≡ false
and_right a b h e = ground arith

and_false : (a b : Bool) → b ≡ false → (a && b) ≡ false
and_false a b h = ground arith

module _ (fl : Float64) (pr : Primitives) where
  -- A response that is accepted, by a connection of version 4 that never asked for one.
  abbrev pub Unasked : Conn fl pr → Packet → Type 0
  Unasked c p =
      (cif : HandshakeExtension) × (unmarshal (payload_data p) ≡ ok cif)
      × ((c.version == 4) ≡ true)
      × (accepts_response cif ≡ true)
      × (c.stop_hs_requests ≡ false)

  finish_panics :
      (c : Conn fl pr) (cif : HandshakeExtension) (b : Bool)
      → finish_response fl pr c cif b ≡ none
      → b ≡ false
  unfolding finish_response
  finish_panics c cif false h = refl
  finish_panics c cif true h = absurd (none-ne-some _ (sym h))

  check_panics :
      (c : Conn fl pr) (clock : ℕ) (r : Result HandshakeExtension)
      → quiet r ≡ true
      → check_response fl pr c clock r ≡ none
      → (cif : HandshakeExtension) × (r ≡ ok cif)
        × ((c.version == 4) ≡ true)
        × (accepts_response cif ≡ true)
        × (c.stop_hs_requests ≡ false)
  unfolding check_response
  check_panics c clock (err e) q h = absurd (none-ne-some _ (sym h))
  check_panics c clock panics q h = absurd (false≢true q)
  check_panics c clock (ok cif) q h = elim (Bool-cases (c.version == 4)) [
    | inr t ↦ absurd (none-ne-some _ (sym (rw t at h)))
    | inl t ↦ elim (Bool-cases (accepts_response cif)) [
      | inr u ↦ absurd (none-ne-some _ (sym (rw (t, u) at h)))
      | inl u ↦ (cif, refl, t, u, finish_panics c cif c.stop_hs_requests (rw (t, u) at h))
    ]
  ]

  asked-Unasked :
      (c : Conn fl pr) (clock : ℕ) (p : Packet)
      → (handle_hs_response fl pr c clock p ≡ none) ↔ Unasked c p
  unfolding handle_hs_response check_response finish_response
  asked-Unasked c clock p = (
    check_panics c clock (unmarshal (payload_data p)) (unmarshal-quiet (payload_data p)),
    λ (cif, r, t, u, v).
        ap (check_response fl pr c clock) r
        ∙ rw (check_response, t, u) (ap (finish_response fl pr c cif) v),
  )

  -- On a new connection the handler of a response panics exactly where the connection has version 4 and
  -- is not the caller's, and the payload reads as a handshake extension with an SRT version from 1.2.0
  -- to below 1.3.0 and the flags TSBPDRCV, TLPKTDROP, CRYPT and REXMITFLG, but not STREAM or
  -- PACKET_FILTER.
  pub handle_hs_response_panics :
      (config : SrtConnConfig fl pr) (input overhead : fl.F) (random : pr.Random) (clock : ℕ)
      (p : Packet)
      → (handle_hs_response fl pr (new_srt_conn fl pr config input overhead random) clock p ≡ none)
        ↔ ((config.version ≡ 4)
            × (config.is_caller ≡ false)
            × (cif : HandshakeExtension) × (unmarshal (payload_data p) ≡ ok cif)
            × Listed cif)
  unfolding new_srt_conn
  handle_hs_response_panics config input overhead random clock p =
      let c = new_srt_conn fl pr config input overhead random in
      let both = asked-Unasked c clock p in
      (
        λ h.
            let (cif, e, four, accepted, stop) = both.0 h in
            let v = (==_iff config.version 4).0 four in
            (
              v,
              and_right (config.version == 4) config.is_caller four stop,
              cif,
              e,
              (accepts-Listed cif).0 accepted,
            ),
        λ (v, caller, cif, e, listed). both.1 (
          cif,
          e,
          (==_iff config.version 4).1 v,
          (accepts-Listed cif).1 listed,
          and_false (config.version == 4) config.is_caller caller,
        ),
      )

-- ===== src/Dial/Blocked.antt =====
-- What handshake packets do to the reader once the handshake is over.
use gosrt.Common.{
  ℕ, ◌≡◌, refl, arith, true, false, some, List, [], ◌∷◌, ◌++◌, length, ◌==◌, ltb, if◌then◌else◌,
}
use gosrt.Circular.{Number}
use gosrt.Packet.Types.{Packet}
use gosrt.Packet.Wire.{ok}
use gosrt.Packet.Handshake.{Handshake, hstype_conclusion}
use gosrt.Congestion.Float.{Float64}
use gosrt.Crypto.{Primitives}
use gosrt.Listen.State.{hstype_induction}
use gosrt.Listen.Request.{read_handshake}
use gosrt.Dial.State.{Dialer, failed, rejected, unsupported_handshake, answer, is_blocked}
use gosrt.Dial.Handshake.{is_rejection, handle_handshake}
use gosrt.Dial.Client.{is_handshake_packet, is_for, reader}

-- A handshake packet for the socket id 0, that neither opens nor concludes a handshake.
pub record Stray (p : Packet) : Type 0 where
  pub content : Handshake
  pub reads : read_handshake p ≡ some (ok content)
  pub handshake : is_handshake_packet p ≡ true
  pub addressed : p.header.destination_socket_id ≡ 0
  pub no_induction : (content.handshake_type == hstype_induction) ≡ false
  pub no_conclusion : (content.handshake_type == hstype_conclusion) ≡ false

none_waits {ℓ} : {A : Type ℓ} (l : List A) → l ≡ [] → ltb 1 (length l) ≡ false
none_waits l e = rw e refl

one_waits {ℓ} : {A : Type ℓ} (l : List A) (a : A) → l ≡ [] → ltb 1 (length (l ++ (a ∷ []))) ≡ false
one_waits l a e = rw e refl

two_wait {ℓ} :
    {A : Type ℓ} (l : List A) (a b : A)
    → l ≡ []
    → ltb 1 (length ((l ++ (a ∷ [])) ++ (b ∷ []))) ≡ true
two_wait l a b e = rw e refl

module _ (fl : Float64) (pr : Primitives) (sort : List Number → List Number) where
  open fl use {F}

  -- The dialer with the error that it reports for such a packet.
  abbrev pub reported : Dialer fl pr → Handshake → Dialer fl pr
  reported dl c =
      answer fl pr dl
        (failed (if is_rejection c.handshake_type then rejected else unsupported_handshake))

  is_for-Stray : (id : ℕ) (p : Packet) → Stray p → is_for id p ≡ true
  is_for-Stray id p s = rw (s.addressed, s.handshake) (ground arith)

  reader-Stray :
      (dl : Dialer fl pr) (clock : ℕ) (p : Packet) (s : Stray p) (ibw obw : F)
      → is_blocked fl pr dl ≡ false
      → dl.shutdown ≡ false
      → reader fl pr sort dl clock p ibw obw ≡ some (reported dl s.content, [])
  unfolding reader handle_handshake
  reader-Stray dl clock p s ibw obw b d =
      rw
        (
          reader,
          b,
          d,
          is_for-Stray dl.socket_id p s,
          s.handshake,
          handle_handshake,
          s.reads,
          s.no_induction,
          s.no_conclusion,
        )
        refl

  reader-blocked :
      (dl : Dialer fl pr) (clock : ℕ) (p : Packet) (ibw obw : F)
      → is_blocked fl pr dl ≡ true
      → reader fl pr sort dl clock p ibw obw ≡ some (dl, [])
  unfolding reader
  reader-blocked dl clock p ibw obw b = rw (reader, b) refl

  -- Two such packets, at a dialer that is not shut down and none of whose responses waits to be taken,
  -- are both taken as responses, and then the reader waits: as long as no response is taken, whatever
  -- packet comes in, and whenever, changes nothing and is not answered.
  pub reader_waits :
      (dl : Dialer fl pr) (clock later : ℕ) (p q : Packet) (s : Stray p) (t : Stray q) (time : ℕ)
      (packet : Packet) (ibw obw : F)
      → dl.conn_chan ≡ []
      → dl.shutdown ≡ false
      → (let once = reported dl s.content in
          let twice = reported once t.content in
          (reader fl pr sort dl clock p ibw obw ≡ some (once, []))
          × (reader fl pr sort once later q ibw obw ≡ some (twice, []))
          × (reader fl pr sort twice time packet ibw obw ≡ some (twice, [])))
  unfolding is_blocked answer
  reader_waits dl clock later p q s t time packet ibw obw e d = (
    reader-Stray dl clock p s ibw obw (none_waits dl.conn_chan e) d,
    reader-Stray (reported dl s.content) later q t ibw obw (one_waits dl.conn_chan _ e) d,
    reader-blocked (reported (reported dl s.content) t.content) time packet ibw obw
        (two_wait dl.conn_chan _ _ e),
  )

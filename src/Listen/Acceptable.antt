-- ===== src/Listen/Acceptable.antt =====
-- Which handshakes pass the tests of a listener.
use gosrt.Common.{
  ◌≤◌, ◌≡◌, refl, arith, true, false, not, ◌&&◌, Option, none, some, ◌==◌, Bool-cases, inl, inr,
}
use gosrt.Packet.Handshake.{Handshake}
use gosrt.Packet.HandshakeWriter.{is_live}
use gosrt.Packet.HandshakeExtension.{HandshakeExtension}
use gosrt.Config.{Config}
use gosrt.Listen.Request.{has_flags, refuse_extension, require_extension, refuse}

-- What the version and the extension of an accepted handshake are.
pub data Acceptable (config : Config) (c : Handshake) : Type 0 where
  version_4 : c.version ≡ 4 → c.encryption_field ≡ 0 → c.extension_field ≡ 2 → Acceptable config c
  version_5 :
      c.version ≡ 5
      → (x : HandshakeExtension) → c.srt_hs ≡ some x
      → config.min_version ≤ x.srt_version
      → has_flags x ≡ true
      → x.srt_flags.stream ≡ false
      → (c.has_congestion_ctl && not (is_live c.congestion_ctl)) ≡ false
      → Acceptable config c

refuse_extension-passes :
    (config : Config) (c : Handshake) (x : HandshakeExtension)
    → refuse_extension config c x ≡ none
    → (config.min_version ≤ x.srt_version)
      × (has_flags x ≡ true)
      × (x.srt_flags.stream ≡ false)
      × ((c.has_congestion_ctl && not (is_live c.congestion_ctl)) ≡ false)
unfolding refuse_extension
refuse_extension-passes config c x e = ground arith

refuse_4 :
    (config : Config) (c : Handshake)
    → (c.version == 4) ≡ true
    → refuse config c ≡ none
    → (c.version ≡ 4) × (c.encryption_field ≡ 0) × (c.extension_field ≡ 2)
unfolding refuse
refuse_4 config c v e = (ground arith, ground arith, ground arith)

refuse_5 :
    (config : Config) (c : Handshake)
    → (c.version == 4) ≡ false
    → refuse config c ≡ none
    → (c.version ≡ 5) × (require_extension config c c.srt_hs ≡ none)
unfolding refuse
refuse_5 config c v e = (ground arith, ground arith)

require_extension-Acceptable :
    (config : Config) (c : Handshake) (o : Option HandshakeExtension)
    → c.version ≡ 5
    → c.srt_hs ≡ o
    → require_extension config c o ≡ none
    → Acceptable config c
require_extension-Acceptable config c none v e h = cc
require_extension-Acceptable config c (some x) v e h =
    let (m, f, s, l) = refuse_extension-passes config c x h in version_5 v x e m f s l

pub refuse-Acceptable :
    (config : Config) (c : Handshake) → refuse config c ≡ none → Acceptable config c
refuse-Acceptable config c e = elim (Bool-cases (c.version == 4)) [
  | inl t ↦ let (v, enc, ext) = refuse_4 config c t e in version_4 v enc ext
  | inr t ↦
      let (v, h) = refuse_5 config c t e in require_extension-Acceptable config c c.srt_hs v refl h
]

-- ===== src/Dial/Induction.antt =====
-- The first half of the handshake: the dialer's induction and the listener's answer, as the two read them.
use gosrt.Common.{
  ℕ, ◌≤◌, ◌≡◌, refl, arith, true, none, some, List, [], ◌∷◌, ◌++◌, length, IsU32, IsByte,
}
use gosrt.Common.Int.{ℤ}
use gosrt.Circular.{new}
use gosrt.Circular.Offset.{IsSeq}
use gosrt.Packet.Types.{Packet, new_packet}
use gosrt.Packet.Wire.{ok, byte_at}
use gosrt.Packet.Handshake.{Handshake, unmarshal}
use gosrt.Packet.HandshakeWriter.{
  extension_bits, with_fields, fixed_part, hs_block, km_block, sid_block, congestion_block,
  extension_blocks, write, marshal,
}
use gosrt.Packet.HandshakeWriter.FixedPart.{FixedFits, set_fixed, unmarshal-fixed_part}
use gosrt.Congestion.Float.{Float64}
use gosrt.Crypto.{Primitives}
use gosrt.Config.{srt_version, max_mss_size, min_mss_size}
use gosrt.Net.Ip.{read_back, Addr, from_net_addr}
use gosrt.Net.Cookie.{calculate, get, format_int}
use gosrt.Listen.State.{
  Listener, Datagram, no_handshake, handshake_packet, microseconds_since, magic,
}
use gosrt.Listen.Request.{read_handshake, respond, induce, new_conn_request}
use gosrt.Dial.State.{Dialer, induction, send_induction, control}

-- The IP of an address in a handshake.
abbrev pub wire_ip : Addr → List ℕ
wire_ip a = from_net_addr (some a)

-- What a peer reads of a handshake packet with these bytes.
pub read-handshake_packet :
    (p : Packet) (timestamp destination : ℕ) (bytes : List ℕ) (c : Handshake)
    → p.header.is_control_packet ≡ true
    → unmarshal no_handshake bytes ≡ some (ok c)
    → read_handshake (handshake_packet p timestamp destination bytes) ≡ some (ok c)
unfolding read_handshake
read-handshake_packet p timestamp destination bytes c e u = rw (read_handshake, e) u

-- A dialer before the handshake, without a passphrase, whose numbers fit their words.
pub record Caller (fl : Float64) (pr : Primitives) (dl : Dialer fl pr) : Type 0 where
  pub fresh : dl.conn_chan ≡ []
  pub no_crypto : dl.crypto ≡ none
  pub no_passphrase : dl.config.passphrase ≡ []
  pub mss_low : min_mss_size ≤ dl.config.mss
  pub mss_high : dl.config.mss ≤ max_mss_size
  pub flow_fits : IsU32 dl.config.fc
  pub version_fits : dl.config.min_version ≤ srt_version
  pub stream_fits : length dl.config.stream_id ≤ 512
  pub socket_fits : IsU32 dl.socket_id
  pub sequence : IsSeq dl.initial_packet_sequence_number

-- A hash is made of bytes.
abbrev pub HashesToBytes : (List ℕ → List ℕ) → Type 0
HashesToBytes md5 = (s : List ℕ) (i : ℕ) → IsByte (byte_at (md5 s) i)

module _ (fl : Float64) (pr : Primitives) (md5 : List ℕ → List ℕ) where
  -- What the listener reads of the induction, and what it answers.
  abbrev pub asked : Dialer fl pr → Handshake
  asked dl = set_fixed no_handshake (induction fl pr dl)

  abbrev pub answered : Listener fl pr → ℤ → Addr → Dialer fl pr → Handshake
  answered ln counter a dl = record (asked dl) {
    version = 5;
    encryption_field = 0;
    extension_field = magic;
    syn_cookie = get md5 ln.syncookie counter a.text;
    peer_ip = wire_ip ln.addr;
  }

  -- What the dialer reads of the answer.
  abbrev pub heard : Listener fl pr → ℤ → Addr → Dialer fl pr → Handshake
  heard ln counter a dl = record (answered ln counter a dl) {
    peer_ip = read_back (wire_ip ln.addr);
  }

  pub induction-FixedFits : (dl : Dialer fl pr) → Caller fl pr dl → FixedFits (induction fl pr dl)
  unfolding induction new
  induction-FixedFits dl d = record {
    version_fits = omega arith;
    encryption_fits = omega arith;
    extension_fits = omega arith;
    sequence = omega arith;
    mtu_fits = omega (arith, d.mss_high);
    flow_fits = d.flow_fits;
    type_fits = omega arith;
    socket_fits = d.socket_fits;
    cookie_fits = omega arith;
  }

  pub cookie-IsU32 :
      HashesToBytes md5
      → (ln : Listener fl pr) (counter : ℤ) (text : List ℕ)
      → IsU32 (get md5 ln.syncookie counter text)
  unfolding get calculate
  cookie-IsU32 b ln counter text =
      let c = ln.syncookie in
      let s = c.secret1 ++ (c.daddr ++ (text ++ (c.secret2 ++ format_int counter))) in
      omega (arith, b s 0, b s 1, b s 2, b s 3)

  pub answered-FixedFits :
      HashesToBytes md5
      → (ln : Listener fl pr) (counter : ℤ) (a : Addr) (dl : Dialer fl pr) → Caller fl pr dl
      → FixedFits (answered ln counter a dl)
  unfolding induction new
  answered-FixedFits b ln counter a dl d = record {
    version_fits = omega arith;
    encryption_fits = omega arith;
    extension_fits = omega arith;
    sequence = omega arith;
    mtu_fits = omega (arith, d.mss_high);
    flow_fits = d.flow_fits;
    type_fits = omega arith;
    socket_fits = d.socket_fits;
    cookie_fits = cookie-IsU32 b ln counter a.text;
  }

  -- The dialer's first packet.
  abbrev pub opening : Dialer fl pr → ℕ → Packet
  opening dl clock =
      handshake_packet control (microseconds_since 0 clock) 0
        (fixed_part (induction fl pr dl) ++ [])

  pub send_induction-opening :
      (dl : Dialer fl pr) (clock : ℕ) → send_induction fl pr dl clock ≡ some (opening dl clock)
  unfolding send_induction induction marshal write with_fields extension_blocks hs_block km_block
      sid_block congestion_block extension_bits
  send_induction-opening dl clock = refl

  pub read-opening :
      (dl : Dialer fl pr) (clock : ℕ)
      → Caller fl pr dl
      → read_handshake (opening dl clock) ≡ some (ok (asked dl))
  unfolding induction new_packet
  read-opening dl clock d =
      read-handshake_packet control (microseconds_since 0 clock) 0 _ (asked dl) refl
        (unmarshal-fixed_part no_handshake (induction fl pr dl) (induction-FixedFits dl d) refl)

  -- The listener's answer to a packet that it reads like that.
  abbrev pub reply : Listener fl pr → ℕ → ℤ → Addr → Dialer fl pr → Packet → Packet
  reply ln clock counter a dl p =
      handshake_packet p (microseconds_since 0 clock) dl.socket_id
        (fixed_part (answered ln counter a dl) ++ [])

  pub new_conn_request-induction :
      (ln : Listener fl pr) (clock : ℕ) (counter : ℤ) (d : Datagram) (dl : Dialer fl pr)
      → read_handshake d.packet ≡ some (ok (asked dl))
      → new_conn_request fl pr md5 ln clock counter d
        ≡ some (ln, record d { packet = reply ln clock counter d.addr dl d.packet } ∷ [], none)
  unfolding new_conn_request induce respond induction marshal write with_fields extension_blocks
      hs_block km_block sid_block congestion_block extension_bits
  new_conn_request-induction ln clock counter d dl e = rw (new_conn_request, e) refl

  pub read-reply :
      HashesToBytes md5
      → (ln : Listener fl pr) (clock : ℕ) (counter : ℤ) (a : Addr) (dl : Dialer fl pr) (p : Packet)
      → Caller fl pr dl
      → p.header.is_control_packet ≡ true
      → read_handshake (reply ln clock counter a dl p) ≡ some (ok (heard ln counter a dl))
  unfolding induction
  read-reply b ln clock counter a dl p d e =
      read-handshake_packet p (microseconds_since 0 clock) dl.socket_id _ (heard ln counter a dl) e
        (unmarshal-fixed_part no_handshake (answered ln counter a dl)
          (answered-FixedFits b ln counter a dl d) refl)

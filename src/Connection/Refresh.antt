-- ===== src/Connection/Refresh.antt =====
-- connection.go: what the schedule of the keys comes to, over any number of data packets.
use gosrt.Common.{
  ℕ, ◌+◌, ◌*◌, ◌-◌, ◌/◌, ◌^◌, ◌≤◌, ◌<◌, ◌≡◌, refl, arith, some, List, length, ap, ◌∙◌, sym, subst,
}
use gosrt.Packet.Types.{Packet, opposite}
use gosrt.Congestion.Float.{Float64}
use gosrt.Crypto.{Primitives, Crypto}
use gosrt.Crypto.Keys.{HasKeys, FillsBuffers}
use gosrt.Crypto.Exchange.{Laws}
use gosrt.Connection.State.{SrtConnConfig, new_srt_conn, Output}
use gosrt.Connection.Pop.{Conn, pop_all}
use gosrt.Connection.Announced.{switched, secret, IsOne, IsAnnouncement, Sends, AllData}
use gosrt.Connection.Schedule.{At}
use gosrt.Connection.Course.{second, pop_all-Place}

module _ (fl : Float64) (pr : Primitives) (fills : FillsBuffers pr) (laws : Laws pr)
    (config : SrtConnConfig fl pr) (input overhead : fl.F) (random : pr.Random)
    (one : IsOne config.key_base_encryption) (early : 1 ≤ config.config.km_pre_announce)
    (half : config.config.km_pre_announce ≤ config.config.km_refresh_rate / 2)
    (fits : config.config.km_refresh_rate < 2 ^ 64) (cr : Crypto) (has : config.crypto ≡ some cr)
    (keys : HasKeys cr) where
  abbrev started : Conn fl pr
  started = new_srt_conn fl pr config input overhead random

  started-At :
      At fl pr fills laws config.config config.key_base_encryption one early half fits 0 0 started
  unfolding new_srt_conn
  started-At = record {
    config = refl;
    key = refl;
    refresh = omega arith;
    before = λ _. omega arith;
    unconfirmed = refl;
    crypto = cr;
    has = has;
    keys = keys;
  }

  -- A new connection with keys, whose configuration announces a key at least a packet and at most half
  -- a refresh period before its use, sends any number of data packets without a panic; with each full
  -- period of `km_refresh_rate` packets it switches the key once, between the even and the odd one, and
  -- it has keys of the right size all along.
  pub pop_all-switches :
      (clock : ℕ) (ps : List Packet)
      → AllData ps
      → (d : Conn fl pr) × (os : List Output) × (q : ℕ) × (r : ℕ) × (pop_all fl pr
            (new_srt_conn fl pr config input overhead random)
            clock
            ps
          ≡ some (d, os))
        × (length ps ≡ q * config.config.km_refresh_rate + r)
        × (r < config.config.km_refresh_rate)
        × (d.key_base_encryption ≡ switched q config.key_base_encryption)
        × (d.km_refresh_countdown ≡ config.config.km_refresh_rate - r)
        × (cr' : Crypto) × (d.crypto ≡ some cr')
        × HasKeys cr'
  pop_all-switches clock ps plain =
      let (d, os, e, (q, r, n, l, a), course) =
        pop_all-Place fl pr fills laws config.config config.key_base_encryption one early half fits
          0 0 started clock ps plain (omega arith) started-At in
      (d, os, q, r, e, omega (arith, n), l, a.key, a.refresh, a.crypto, a.has, a.keys)

  -- Under the same conditions, at the latest with the packet that is `km_pre_announce` packets before
  -- the first switch, a request goes out whose payload is the key material message, for the key that is
  -- not in use at the start, of keys of the right size.
  pub pop_all-announces :
      (clock : ℕ) (ps : List Packet)
      → AllData ps
      → config.config.km_refresh_rate - config.config.km_pre_announce ≤ length ps
      → (d : Conn fl pr) × (os : List Output) × (cr' : Crypto) × (pop_all fl pr
            (new_srt_conn fl pr config input overhead random)
            clock
            ps
          ≡ some (d, os))
        × HasKeys cr'
        × Sends
            (IsAnnouncement pr cr' config.config.passphrase (opposite config.key_base_encryption))
            os
  pop_all-announces clock ps plain enough =
      let (d, os, e, place, course) =
        pop_all-Place fl pr fills laws config.config config.key_base_encryption one early half fits
          0 0 started clock ps plain (omega arith) started-At in
      let (cr', keys', told, same) = course.announced (omega arith) (omega arith) in
      (d, os, cr', e, keys', told)

  -- Under the same conditions, where the announcement is less than half a refresh period before the
  -- switch: all through the second period the key in use is the one that was not in use at the start,
  -- and it is the one that a request announced.
  pub pop_all-uses_announced :
      (clock : ℕ) (ps : List Packet)
      → AllData ps
      → 2 * config.config.km_pre_announce < config.config.km_refresh_rate
      → config.config.km_refresh_rate ≤ length ps
      → length ps < 2 * config.config.km_refresh_rate
      → (d : Conn fl pr) × (os : List Output) × (cr' : Crypto) × (pop_all fl pr
            (new_srt_conn fl pr config input overhead random)
            clock
            ps
          ≡ some (d, os))
        × Sends
            (IsAnnouncement pr cr' config.config.passphrase (opposite config.key_base_encryption))
            os
        × (d.key_base_encryption ≡ opposite config.key_base_encryption)
        × (secret d.key_base_encryption d.crypto ≡ secret d.key_base_encryption (some cr'))
  pop_all-uses_announced clock ps plain less enough short =
      let (d, os, e, (q, r, n, l, a), course) =
        pop_all-Place fl pr fills laws config.config config.key_base_encryption one early half fits
          0 0 started clock ps plain (omega arith) started-At in
      let (cr', keys', told, same) = course.announced (omega arith) (omega arith) in
      let once : (q ≡ 1) =
        second q r (length ps) config.config.km_refresh_rate l enough short (omega (arith, n)) in
      let key : (d.key_base_encryption ≡ opposite config.key_base_encryption) =
        a.key ∙ ap (λ x. switched x config.key_base_encryption) once in
      (
        d,
        os,
        cr',
        e,
        told,
        key,
        subst (λ x. secret x d.crypto ≡ secret x (some cr')) (sym key)
            (same less (omega arith) (omega arith)),
      )

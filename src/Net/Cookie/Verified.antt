-- ===== src/Net/Cookie/Verified.antt =====
-- Which cookies are accepted.
use gosrt.Common.{ℕ, ◌≡◌, arith, true, List, ◌⊎◌, inl, inr, sym}
use gosrt.Common.Int.{ℤ}
use gosrt.Net.Cookie.{SynCookie, before, get, verify}

-- A cookie is accepted in the period of its issue and in the next one.
pub verify-get :
    (md5 : List ℕ → List ℕ) (s : SynCookie) (issued now : ℤ) (saddr : List ℕ)
    → (now ≡ issued) ⊎ (before now ≡ issued)
    → verify md5 s now (get md5 s issued saddr) saddr ≡ true
unfolding verify get
verify-get md5 s issued now saddr (inl e) = rw e (ground arith)
verify-get md5 s issued now saddr (inr e) = rw (sym e) (ground arith)

-- ===== src/Crypt/CookieUse.antt =====
-- Whose cookies the functions of DTLS.hpp accept, and whose a session's context.
use with_boost.Common.{
  ◌≡◌, ◌↔◌, refl, sym, ap, true, ◌==◌, ==-eq, ==-refl, and-split, List, [], ◌∷◌, ℕ, length, arith,
}
use with_boost.Crypt.Engine.{Engine}
use with_boost.Crypt.Cookies.{Seed, same_bytes, generate_cookie_with_peer, verify_cookie_with_peer}
use with_boost.Crypt.Dtls.{Session, set_peer, generate_cookie, verify_cookie}

same_bytes-eq : (s t : List ℕ) → length t ≡ length s → same_bytes (length s) s t ≡ true → s ≡ t
unfolding same_bytes
same_bytes-eq [] [] l h = refl
same_bytes-eq [] (b ∷ t) l h = absurd (omega (arith, l))
same_bytes-eq (a ∷ s) [] l h = absurd (omega (arith, l))
same_bytes-eq (a ∷ s) (b ∷ t) l h =
    let both = and-split (a == b) (same_bytes (length s) s t) h in
    rw (==-eq a b both.0) (ap (◌∷◌ b) (same_bytes-eq s t (omega (arith, l)) both.1))

same_bytes_refl : (s : List ℕ) → same_bytes (length s) s s ≡ true
unfolding same_bytes
same_bytes_refl [] = refl
same_bytes_refl (a ∷ s) = rw (==-refl a) (same_bytes_refl s)

module _ (hmac : List ℕ → List ℕ → List ℕ) (seed : Seed) where
  with_peer_iff :
      (peer cookie : List ℕ)
      → (verify_cookie_with_peer hmac seed peer cookie ≡ true) ↔ (hmac seed.secret peer ≡ cookie)
  unfolding verify_cookie_with_peer
  with_peer_iff peer cookie = (
    (λ h.
        let result = hmac seed.secret peer in
        let both =
          and-split (length cookie == length result) (same_bytes (length result) result cookie) h in
        same_bytes-eq result cookie (==-eq (length cookie) (length result) both.0) both.1),
    (λ e.
        rw (sym e, ==-refl (length (hmac seed.secret peer)))
          (same_bytes_refl (hmac seed.secret peer))),
  )

  -- `verify_cookie_with_peer` accepts for a peer just the cookie that `generate_cookie_with_peer` makes for it, and so the cookie made
  -- for another peer if and only if the two HMACs agree. The callbacks of a context bind no peer:
  -- with one seed, a session that was given any peer accepts just the cookie that is made for a session
  -- that was given any other.
  pub verify_cookie-generate_cookie :
      (e : Engine) (made checked : Session e) (p q cookie : List ℕ)
      → ((verify_cookie_with_peer hmac seed p cookie ≡ true)
          ↔ (generate_cookie_with_peer hmac seed p ≡ cookie))
        × ((verify_cookie_with_peer hmac seed q (generate_cookie_with_peer hmac seed p) ≡ true)
            ↔ (hmac seed.secret q ≡ hmac seed.secret p))
        × ((verify_cookie e hmac seed (set_peer e q checked) cookie ≡ true)
            ↔ (generate_cookie e hmac seed (set_peer e p made) ≡ cookie))
  unfolding verify_cookie generate_cookie generate_cookie_with_peer
  verify_cookie-generate_cookie e made checked p q cookie =
      (with_peer_iff p cookie, with_peer_iff q (hmac seed.secret p), with_peer_iff [] cookie)

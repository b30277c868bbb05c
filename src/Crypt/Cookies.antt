-- ===== src/Crypt/Cookies.antt =====
-- The cookies of DTLS.hpp. `HMAC`, `RAND_bytes` and the first content of the seed are arguments.
use with_boost.Common.{
  Bool, true, false, ◌&&◌, ◌==◌, Option, none, some, List, [], ◌∷◌, ℕ, zero, suc, ltb, length, take,
  Text, if◌then◌else◌,
}

-- `cookie_flag` and `SecretCookie`.
pub record Seed : Type 0 where
  pub drawn : Bool
  pub secret : List ℕ

-- A failure of `RAND_bytes` is logged, and the flag is set all the same.
unfoldable pub init_cookie : Option (List ℕ) → Seed → Seed
init_cookie random s =
    let fresh : List ℕ = elim random [ none ↦ s.secret | some bytes ↦ bytes ] in
    if s.drawn then s else record { drawn = true; secret = fresh }

-- Whether `memcmp` finds the first bytes, as many as it is told, the same.
unfoldable pub same_bytes : ℕ → List ℕ → List ℕ → Bool
same_bytes zero s t = true
same_bytes (suc n) [] t = false
same_bytes (suc n) (a ∷ s) [] = false
same_bytes (suc n) (a ∷ s) (b ∷ t) = (a == b) && same_bytes n s t

module _ (hmac : List ℕ → List ℕ → List ℕ) where
  unfoldable pub generate_cookie_with_peer : Seed → List ℕ → List ℕ
  generate_cookie_with_peer s peer = hmac s.secret peer

  unfoldable pub verify_cookie_with_peer : Seed → List ℕ → List ℕ → Bool
  unfolding same_bytes
  verify_cookie_with_peer s peer cookie =
      let result = hmac s.secret peer in
      (length cookie == length result) && same_bytes (length result) result cookie

-- `getCID`, its constant `CID_len` written out.
unfoldable pub get_cid : List ℕ → Text
get_cid bytes = if ltb (length bytes) 8 then [] else take 8 bytes

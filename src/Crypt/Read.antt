-- ===== src/Crypt/Read.antt =====
-- The rounds of `SSL_read` in `decrypt`: how many there are, and what they read.
use with_boost.Common.{
  ℕ, zero, suc, ◌<◌, ◌≡◌, refl, sym, ap, ◌∙◌, true, false, ◌&&◌, Option, none, some, List, [], ◌∷◌,
  ◌++◌, length, length-append, is_empty, arith, if◌then◌else◌, inl, inr, Bool-cases,
}
use with_boost.Crypt.Engine.{Engine, ReadsInOrder}
use with_boost.Crypt.Tls.{read_loop, read_ready, decrypt, advanced, buffer_size}

empty-eq : (xs : List ℕ) → is_empty xs ≡ true → xs ≡ []
empty-eq [] h = refl
empty-eq (x ∷ xs) h = cc

more-length : (xs ys zs : List ℕ) → xs ++ ys ≡ zs → is_empty xs ≡ false → length ys < length zs
more-length [] ys zs h k = cc
more-length (x ∷ xs) ys zs h k = omega (arith, ap length h, length-append xs ys)

module _ (e : Engine) (r : ReadsInOrder e) where
  open e use {Conn, ssl_read, readable, bio_write, is_init_finished}

  -- What the loop gives when it has come through with these bytes.
  pub Complete : ℕ → Conn → Type 0
  Complete fuel c = (c' : Conn) × (read_loop e fuel c ≡ some (c', readable c)) × (readable c' ≡ [])

  last_round :
      (fuel : ℕ) (c : Conn)
      → is_empty (ssl_read c buffer_size).1 ≡ true
      → read_loop e (suc fuel) c ≡ some ((ssl_read c buffer_size).0, [])
  unfolding read_loop
  last_round fuel c h = rw h refl

  next_round :
      (fuel : ℕ) (c c' : Conn) (rest : List ℕ)
      → is_empty (ssl_read c buffer_size).1 ≡ false
      → read_loop e fuel (ssl_read c buffer_size).0 ≡ some (c', rest)
      → read_loop e (suc fuel) c ≡ some (c', (ssl_read c buffer_size).1 ++ rest)
  unfolding read_loop
  next_round fuel c c' rest h k = rw (h, k) refl

  in_order :
      (c : Conn) → (ssl_read c buffer_size).1 ++ readable (ssl_read c buffer_size).0 ≡ readable c
  in_order c = r.in_order c buffer_size (omega arith)

  last-Complete :
      (fuel : ℕ) (c : Conn) → is_empty (ssl_read c buffer_size).1 ≡ true → Complete (suc fuel) c
  unfolding Complete
  last-Complete fuel c h = (
    (ssl_read c buffer_size).0,
    last_round fuel c h ∙ ap (λ xs. some ((ssl_read c buffer_size).0, xs)) (sym none_left),
    ap (◌++ readable (ssl_read c buffer_size).0) (sym (empty-eq _ h)) ∙ in_order c ∙ none_left,
  )
    where
      none_left : readable c ≡ []
      none_left = empty-eq _ (r.reads_some c buffer_size (omega arith) h)

  next-Complete :
      (fuel : ℕ) (c : Conn)
      → is_empty (ssl_read c buffer_size).1 ≡ false
      → Complete fuel (ssl_read c buffer_size).0
      → Complete (suc fuel) c
  unfolding Complete
  next-Complete fuel c h (c', run, left) =
      (c', next_round fuel c c' _ h run ∙ ap (λ xs. some (c', xs)) (in_order c), left)

  -- With more fuel than there are bytes to read, the loop of `SSL_read` ends: it has read all of the
  -- plaintext that was ready, in its order, and leaves none.
  pub read_loop-Complete : (fuel : ℕ) (c : Conn) → length (readable c) < fuel → Complete fuel c
  read_loop-Complete zero c h = absurd (omega (arith, h))
  read_loop-Complete (suc fuel) c h = elim (Bool-cases (is_empty (ssl_read c buffer_size).1)) [
    | inl k ↦ last-Complete fuel c k
    | inr k ↦ next-Complete fuel c k (
        read_loop-Complete fuel (ssl_read c buffer_size).0
          (omega (arith, h, more-length _ _ _ (in_order c) k)))
  ]

  ready-eq : (c : Conn) → (read_ready e c).1 ≡ readable c
  unfolding read_ready Complete
  ready-eq c =
      let (c', run, left) = read_loop-Complete (suc (length (readable c))) c (omega arith) in
      rw (read_ready, run) refl

  -- The plaintext `decrypt` gives of some bytes: nothing without a connection, where the read BIO takes
  -- nothing, and where the handshake is still going on after them; otherwise all that is ready, in order.
  pub plain_of : Option Conn → List ℕ → List ℕ
  plain_of none bytes = []
  plain_of (some c) bytes =
      let (fed, written) = bio_write c bytes in
      if written && is_init_finished (advanced e fed) then readable (advanced e fed) else []

  pub decrypt-plain :
      (conn : Option Conn) (bytes : List ℕ) → (decrypt e conn bytes).1 ≡ plain_of conn bytes
  unfolding decrypt plain_of
  decrypt-plain none bytes = refl
  decrypt-plain (some c) bytes = elim (Bool-cases (bio_write c bytes).1) [
    | inl w ↦ elim (Bool-cases (is_init_finished (advanced e (bio_write c bytes).0))) [
      | inl f ↦ rw (w, f) (ready-eq _)
      | inr f ↦ rw (w, f) refl
    ]
    | inr w ↦ rw w refl
  ]

-- ===== src/Network/TcpSession/Lifecycle.antt =====
-- What a session with TLS announces, over any sequence of reads and failures.
use with_boost.Common.{
  ℕ, suc, ◌+◌, ◌≤◌, ◌≡◌, refl, Bool, true, false, some, List, [], ◌∷◌, ◌++◌, arith, Option-cases,
  Bool-cases, inl, inr, ◌==◌,
}
use with_boost.Network.Protocol.{type_code, tls_handshake}
use with_boost.Network.TcpSession.Defs.{
  Tls, header, Session, Effect, writes, delivers, connected, socket_closed, disconnect_handled,
  handle_tls_output, on_header, on_body, handle_disconnect, after_handshake, deliver_message,
  handshake_frame, has_tls,
}

-- What may happen to a session: a header or a body has come, or a read or a write has failed.
pub data Event : Type 0 where
  header_read : ℕ → ℕ → Event
  body_read : ℕ → List ℕ → Event
  fails : Event

pub count_connected : List Effect → ℕ
count_connected [] = 0
count_connected (connected ∷ out) = suc (count_connected out)
count_connected (other ∷ out) = count_connected out

pub count_disconnects : List Effect → ℕ
count_disconnects [] = 0
count_disconnects (disconnect_handled ∷ out) = suc (count_disconnects out)
count_disconnects (other ∷ out) = count_disconnects out

count_connected-append :
    (xs ys : List Effect) → count_connected (xs ++ ys) ≡ count_connected xs + count_connected ys
unfolding count_connected
count_connected-append [] ys = omega arith
count_connected-append (writes b ∷ xs) ys = count_connected-append xs ys
count_connected-append (delivers m ∷ xs) ys = count_connected-append xs ys
count_connected-append (connected ∷ xs) ys = omega (arith, count_connected-append xs ys)
count_connected-append (socket_closed ∷ xs) ys = count_connected-append xs ys
count_connected-append (disconnect_handled ∷ xs) ys = count_connected-append xs ys

count_disconnects-append :
    (xs ys : List Effect)
    → count_disconnects (xs ++ ys) ≡ count_disconnects xs + count_disconnects ys
unfolding count_disconnects
count_disconnects-append [] ys = omega arith
count_disconnects-append (writes b ∷ xs) ys = count_disconnects-append xs ys
count_disconnects-append (delivers m ∷ xs) ys = count_disconnects-append xs ys
count_disconnects-append (connected ∷ xs) ys = count_disconnects-append xs ys
count_disconnects-append (socket_closed ∷ xs) ys = count_disconnects-append xs ys
count_disconnects-append (disconnect_handled ∷ xs) ys =
    omega (arith, count_disconnects-append xs ys)

abbrev pub bit : Bool → ℕ
bit true = 1
bit false = 0

bit-le : (b : Bool) → bit b ≤ 1
bit-le true = omega arith
bit-le false = omega arith

module _ (t : Tls) where
  pub step : Session t → Event → Session t × List Effect
  step s (header_read type size) = on_header t s type size
  step s (body_read type bytes) = on_body t s type bytes
  step s fails = handle_disconnect t s

  pub run : Session t → List Event → Session t × List Effect
  run s [] = (s, [])
  run s (e ∷ es) = let (s', out) = step s e in let (s'', more) = run s' es in (s'', out ++ more)

  -- The announcements of a step are paid for by the flags that it sets.
  abbrev Paid : Session t → Session t × List Effect → Type 0
  Paid s (s', out) =
      (has_tls t s'.tls ≡ true)
      × (count_connected out + bit s.handshake_completed ≤ bit s'.handshake_completed)
      × (count_disconnects out + bit s.disconnected ≤ bit s'.disconnected)

  -- What a message or a handshake frame writes announces nothing.
  quiet_frame :
      (bytes : List ℕ)
      → (count_connected (handshake_frame t bytes) ≡ 0)
        × (count_disconnects (handshake_frame t bytes) ≡ 0)
  unfolding count_connected count_disconnects handshake_frame
  quiet_frame [] = (refl, refl)
  quiet_frame (b ∷ bs) = (refl, refl)

  quiet_delivery :
      (s : Session t) (type : ℕ) (bytes : List ℕ)
      → (count_connected (deliver_message t s type bytes) ≡ 0)
        × (count_disconnects (deliver_message t s type bytes) ≡ 0)
  unfolding count_connected count_disconnects deliver_message
  quiet_delivery s type bytes = ground arith

  quiet_output :
      (s : Session t)
      → let (s', out) = handle_tls_output t s in
        (has_tls t s'.tls ≡ has_tls t s.tls)
        × (s'.handshake_completed ≡ s.handshake_completed)
        × (s'.disconnected ≡ s.disconnected)
        × (count_connected out ≡ 0)
        × (count_disconnects out ≡ 0)
  unfolding handle_tls_output count_connected count_disconnects
  quiet_output s = elim (Option-cases s.tls) [
    | inl e ↦ ground (arith, e)
    | inr (x, e) ↦ ground (arith, e, quiet_frame (t.handshake x).1)
  ]

  after_handshake-Paid : (s : Session t) → has_tls t s.tls ≡ true → Paid s (after_handshake t s)
  unfolding after_handshake count_connected count_disconnects
  after_handshake-Paid s h = ground arith

  on_header-Paid :
      (s : Session t) (type size : ℕ) → has_tls t s.tls ≡ true → Paid s (on_header t s type size)
  unfolding on_header count_connected count_disconnects
  on_header-Paid s type size h = ground (arith, quiet_output s)

  on_body-Paid :
      (s : Session t) (type : ℕ) (bytes : List ℕ) (tls : t.State)
      → s.tls ≡ some tls
      → Paid s (on_body t s type bytes)
  unfolding on_body
  on_body-Paid s type bytes tls e =
      let s' = record s { tls = some (t.decrypt tls bytes).0; phase = header } in
      let (after, out) = handle_tls_output t s' in
      let (a, b, c, d, g) = quiet_output s' in
      let (k, l, n) = after_handshake-Paid after a in
      let (p, q) = quiet_delivery after type (t.decrypt tls bytes).1 in
      rw (e, on_body)
        (elim (Bool-cases (type == type_code tls_handshake)) [
          | inl y ↦
              rw
                (
                  y,
                  count_connected-append out (after_handshake t after).1,
                  count_disconnects-append out (after_handshake t after).1,
                )
                (k, ground (arith, b, d, l), ground (arith, c, g, n))
          | inr y ↦
              rw
                (
                  y,
                  count_connected-append out (deliver_message t after type (t.decrypt tls bytes).1),
                  count_disconnects-append out
                      (deliver_message t after type (t.decrypt tls bytes).1),
                )
                (a, ground (arith, b, d, p), ground (arith, c, g, q))
        ])

  step-Paid : (s : Session t) (e : Event) → has_tls t s.tls ≡ true → Paid s (step s e)
  unfolding step handle_disconnect count_connected count_disconnects
  step-Paid s (header_read type size) h = on_header-Paid s type size h
  step-Paid s (body_read type bytes) h = elim (Option-cases s.tls) [
    | inl e ↦ absurd (ground (arith, h, e))
    | inr (tls, e) ↦ on_body-Paid s type bytes tls e
  ]
  step-Paid s fails h = ground arith

  run-Paid : (s : Session t) (es : List Event) → has_tls t s.tls ≡ true → Paid s (run s es)
  unfolding run count_connected count_disconnects
  run-Paid s [] h = (h, omega arith, omega arith)
  run-Paid s (e ∷ es) h =
      let (k, l, n) = step-Paid s e h in
      let (k', l', n') = run-Paid (step s e).0 es k in
      rw
        (
          count_connected-append (step s e).1 (run (step s e).0 es).1,
          count_disconnects-append (step s e).1 (run (step s e).0 es).1,
        )
        (k', omega arith, omega arith)

  -- A session with TLS, over any sequence of reads and failures: the connection is announced at most
  -- once, and not at all after the handshake was marked complete; the end is announced at most once,
  -- and not at all once the session is marked as disconnected.
  pub announced_once :
      (s : Session t) (es : List Event)
      → has_tls t s.tls ≡ true
      → (count_connected (run s es).1 + bit s.handshake_completed ≤ 1)
        × (count_disconnects (run s es).1 + bit s.disconnected ≤ 1)
  announced_once s es h =
      let (k, l, n) = run-Paid s es h in
      (
        omega (arith, bit-le (run s es).0.handshake_completed),
        omega (arith, bit-le (run s es).0.disconnected),
      )

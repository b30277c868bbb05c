-- ===== src/Crypt/Dtls.antt =====
-- `DTLS::Session`, whose connection is used as in `TLS::Session`, and the callbacks of its context.
use with_boost.Common.{ℕ, Bool, Option, none, some, List, [], if◌then◌else◌}
use with_boost.Crypt.Engine.{Engine}
use with_boost.Crypt.Cookies.{Seed, generate_cookie_with_peer, verify_cookie_with_peer}
use with_boost.Crypt.Tls

module _ (e : Engine) where
  open e use {Context, Conn, new_ssl, attach_bios, set_accept_state, set_connect_state}

  pub record Session : Type 0 where
    pub conn : Option Conn
    pub peer : List ℕ

  -- The state is set before the BIOs are made.
  unfoldable pub new_session : Option Context → Bool → List ℕ → Session
  new_session ctx is_server peer = record { conn = connected ctx; peer = peer }
    where
      connected : Option Context → Option Conn
      connected none = none
      connected (some c) = elim (new_ssl c) [
        | none ↦ none
        | some ssl ↦ attach_bios (if is_server then set_accept_state ssl else set_connect_state ssl)
      ]

  unfoldable pub set_peer : List ℕ → Session → Session
  set_peer peer s = record s { peer = peer }

  -- The session that is moved from keeps no connection, and none of its peer.
  unfoldable pub moved : Session → Session × Session
  moved s = (s, record { conn = none; peer = [] })

  unfoldable pub is_handshake_done : Session → Bool
  is_handshake_done s = Tls.is_handshake_done e s.conn

  unfoldable pub handshake : Session → Session × List ℕ
  handshake s = let (c, out) = Tls.handshake e s.conn in (record s { conn = c }, out)

  unfoldable pub decrypt : Session → List ℕ → Session × List ℕ
  decrypt s bytes = let (c, plain) = Tls.decrypt e s.conn bytes in (record s { conn = c }, plain)

  unfoldable pub encrypt : Session → List ℕ → Session × List ℕ
  encrypt s bytes = let (c, out) = Tls.encrypt e s.conn bytes in (record s { conn = c }, out)

  unfoldable pub get_handshake_data : Session → Session × List ℕ
  get_handshake_data s =
      let (c, out) = Tls.get_handshake_data e s.conn in (record s { conn = c }, out)

  -- The callbacks of the context: the session and its peer are not looked at.
  module _ (hmac : List ℕ → List ℕ → List ℕ) where
    unfoldable pub generate_cookie : Seed → Session → List ℕ
    unfolding generate_cookie_with_peer
    generate_cookie seed s = generate_cookie_with_peer hmac seed []

    unfoldable pub verify_cookie : Seed → Session → List ℕ → Bool
    unfolding verify_cookie_with_peer
    verify_cookie seed s cookie = verify_cookie_with_peer hmac seed [] cookie

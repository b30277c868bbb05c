-- ===== src/Crypt/Tls.antt =====
-- `TLS::Session`: no connection stands for `ssl == nullptr`.
use with_boost.Common.{
  ℕ, zero, suc, Bool, false, not, Option, none, some, List, [], ◌++◌, ltb, length, is_empty,
  if◌then◌else◌,
}
use with_boost.Crypt.Engine.{Engine}

abbrev pub buffer_size : ℕ
buffer_size = 4096

module _ (e : Engine) where
  open e use {
    Context, Conn, new_ssl, attach_bios, set_accept_state, set_connect_state, is_init_finished,
    do_handshake, bio_write, bio_pending, bio_read, ssl_read, ssl_write, readable,
  }

  unfoldable pub flush_write_bio : Conn → Conn × List ℕ
  flush_write_bio c = if ltb 0 (bio_pending c) then bio_read c (bio_pending c) else (c, [])

  unfoldable pub new_session : Option Context → Bool → Option Conn
  new_session none is_server = none
  new_session (some ctx) is_server = elim (new_ssl ctx) [
    | none ↦ none
    | some ssl ↦ elim (attach_bios ssl) [
      | none ↦ none
      | some c ↦ some (if is_server then set_accept_state c else set_connect_state c)
    ]
  ]

  unfoldable pub is_handshake_done : Option Conn → Bool
  is_handshake_done none = false
  is_handshake_done (some c) = is_init_finished c

  abbrev pub advanced : Conn → Conn
  advanced c = if is_init_finished c then c else do_handshake c

  unfoldable pub handshake : Option Conn → Option Conn × List ℕ
  unfolding flush_write_bio
  handshake none = (none, [])
  handshake (some c) = let (c', out) = flush_write_bio (advanced c) in (some c', out)

  -- The loop of `SSL_read`, on fuel for its rounds; `none` where it is not through.
  unfoldable pub read_loop : ℕ → Conn → Option (Conn × List ℕ)
  read_loop zero c = none
  read_loop (suc fuel) c =
      let (c', bytes) = ssl_read c buffer_size in
      let more : Option (Conn × List ℕ) = elim (read_loop fuel c') [
        | none ↦ none
        | some (c'', rest) ↦ some (c'', bytes ++ rest)
      ] in
      if is_empty bytes then some (c', []) else more

  -- As many rounds as there are bytes to read, and one.
  unfoldable pub read_ready : Conn → Conn × List ℕ
  unfolding read_loop
  read_ready c = elim (read_loop (suc (length (readable c))) c) [ none ↦ (c, []) | some r ↦ r ]

  unfoldable pub decrypt : Option Conn → List ℕ → Option Conn × List ℕ
  unfolding read_ready
  decrypt none bytes = (none, [])
  decrypt (some c) bytes =
      let (fed, written) = bio_write c bytes in
      let ready = advanced fed in
      let (read, plain) = read_ready ready in
      if not written
      then (some fed, [])
      else if not (is_init_finished ready)
      then (some ready, [])
      else (some read, plain)

  unfoldable pub encrypt : Option Conn → List ℕ → Option Conn × List ℕ
  unfolding flush_write_bio
  encrypt none bytes = (none, [])
  encrypt (some c) bytes =
      let (c', written) = ssl_write c bytes in
      let (flushed, out) = flush_write_bio c' in
      if not (is_init_finished c)
      then (some c, [])
      else if not written
      then (some c', [])
      else (some flushed, out)

  unfoldable pub get_handshake_data : Option Conn → Option Conn × List ℕ
  unfolding flush_write_bio
  get_handshake_data none = (none, [])
  get_handshake_data (some c) = let (c', out) = flush_write_bio c in (some c', out)

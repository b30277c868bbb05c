-- ===== src/Crypt/MediaDtls.antt =====
-- `MediaDTLS::Session`. The buffers of its callers are never null.
use with_boost.Common.{
  ℕ, Bool, false, not, Option, none, some, List, [], is_empty, Text, codes, if◌then◌else◌,
}
use with_boost.Crypt.Engine.{Engine}
use with_boost.Crypt.Tls.{flush_write_bio, advanced, read_ready}

-- Where a length is not positive nothing is given to a call of OpenSSL: here the bytes are the length.
module _ (e : Engine) where
  open e use {
    Context, Conn, new_ssl, attach_bios, set_accept_state, set_connect_state, set_link_mtu,
    is_init_finished, bio_write, ssl_write,
  }

  -- `SSL_new` has no session for a missing context. The allocation of the BIOs is not checked, so `attach`
  -- has no failure.
  unfoldable pub new_session : (Conn → Conn) → Option Context → Bool → Option Conn
  new_session attach none is_server = none
  new_session attach (some ctx) is_server = elim (new_ssl ctx) [
    | none ↦ none
    | some ssl ↦
        let c = set_link_mtu (attach ssl) 1200 in
        some (if is_server then set_accept_state c else set_connect_state c)
  ]

  unfoldable pub is_handshake_done : Option Conn → Bool
  is_handshake_done none = false
  is_handshake_done (some c) = is_init_finished c

  unfoldable pub get_negotiated_cipher : (Conn → Option Text) → Option Conn → Text
  get_negotiated_cipher current_cipher none = codes "Not Negotiated Yet"
  get_negotiated_cipher current_cipher (some c) =
      let name : Text = elim (current_cipher c) [ none ↦ codes "Unknown" | some n ↦ n ] in
      if is_init_finished c then name else codes "Not Negotiated Yet"

  unfoldable pub handshake : Option Conn → List ℕ → Option Conn × List ℕ
  unfolding flush_write_bio
  handshake none incoming = (none, [])
  handshake (some c) incoming =
      let fed : Conn = if is_empty incoming then c else (bio_write c incoming).0 in
      let (c', out) = flush_write_bio e (advanced e fed) in (some c', out)

  -- What the write BIO holds is given also where the write has failed.
  unfoldable pub encrypt : Option Conn → List ℕ → Option Conn × List ℕ
  unfolding flush_write_bio
  encrypt none bytes = (none, [])
  encrypt (some c) bytes =
      let (c', out) = flush_write_bio e (ssl_write c bytes).0 in
      if not (is_init_finished c)
      then (some c, [])
      else if is_empty bytes
      then (some c, [])
      else (some c', out)

  unfoldable pub decrypt : Option Conn → List ℕ → Option Conn × List ℕ
  unfolding read_ready
  decrypt none bytes = (none, [])
  decrypt (some c) bytes =
      let ready = advanced e (bio_write c bytes).0 in
      let (read, plain) = read_ready e ready in
      if is_empty bytes
      then (some c, [])
      else if not (is_init_finished ready)
      then (some ready, [])
      else (some read, plain)

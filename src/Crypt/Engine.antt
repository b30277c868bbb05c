-- ===== src/Crypt/Engine.antt =====
-- What the wrappers use of OpenSSL. A connection has its two memory BIOs in it; a result code that is only
-- logged is left out.
use with_boost.Common.{ℕ, ◌<◌, ◌≡◌, Bool, true, Option, List, ◌++◌, Text, is_empty}

pub data Method : Type 0 where
  tls_server tls_client dtls_server dtls_client : Method

pub data VerifyMode : Type 0 where
  verify_none verify_peer verify_peer_required : VerifyMode

pub data Setting : Type 0 where
  cookie_callbacks cookie_exchange media_cipher_suites : Setting

pub record Engine : Type 1 where
  pub Context : Type 0
  pub Conn : Type 0
  pub new_context : Method → Option Context
  pub use_certificate_file : Context → Text → Context × Bool
  pub use_private_key_file : Context → Text → Context × Bool
  pub set_verify : Context → VerifyMode → Context
  pub load_verify_locations : Context → Text → Context × Bool
  pub set : Context → Setting → Context
  -- `SSL_new`, and the two BIOs with `SSL_set_bio`: `none` where an allocation fails.
  pub new_ssl : Context → Option Conn
  pub attach_bios : Conn → Option Conn
  pub set_accept_state : Conn → Conn
  pub set_connect_state : Conn → Conn
  pub set_link_mtu : Conn → ℕ → Conn
  pub is_init_finished : Conn → Bool
  pub do_handshake : Conn → Conn
  -- `BIO_write` to the read BIO: whether something was written.
  pub bio_write : Conn → List ℕ → Conn × Bool
  -- `BIO_pending` and `BIO_read` at the write BIO: no bytes stand for a failure.
  pub bio_pending : Conn → ℕ
  pub bio_read : Conn → ℕ → Conn × List ℕ
  -- `SSL_read` of at most so many bytes: no bytes stand for a result that is not positive.
  pub ssl_read : Conn → ℕ → Conn × List ℕ
  pub ssl_write : Conn → List ℕ → Conn × Bool
  -- The plaintext that is ready to be read.
  pub readable : Conn → List ℕ

-- `SSL_read` gives a stretch of the plaintext from its front, and an empty one only where none is ready.
pub record ReadsInOrder (e : Engine) : Type 0 where
  pub in_order :
      (c : e.Conn) (n : ℕ)
      → 0 < n
      → (e.ssl_read c n).1 ++ e.readable (e.ssl_read c n).0 ≡ e.readable c
  pub reads_some :
      (c : e.Conn) (n : ℕ)
      → 0 < n
      → is_empty (e.ssl_read c n).1 ≡ true
      → is_empty (e.readable c) ≡ true

-- The verification mode of a context is the one that was set last, whatever is loaded or set besides.
pub record KeepsMode (e : Engine) : Type 0 where
  pub verify_mode : e.Context → VerifyMode
  pub mode_set : (c : e.Context) (m : VerifyMode) → verify_mode (e.set_verify c m) ≡ m
  pub mode_loaded :
      (c : e.Context) (file : Text) → verify_mode (e.load_verify_locations c file).0 ≡ verify_mode c
  pub mode_option : (c : e.Context) (s : Setting) → verify_mode (e.set c s) ≡ verify_mode c

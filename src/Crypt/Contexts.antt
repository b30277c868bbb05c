-- ===== src/Crypt/Contexts.antt =====
-- The contexts of TLS.hpp, DTLS.hpp and MediaDTLS.hpp. A file name may be missing.
use with_boost.Common.{Bool, Option, none, some, Text}
use with_boost.Crypt.Engine.{
  Engine, tls_server, tls_client, dtls_server, dtls_client, VerifyMode, verify_none, verify_peer,
  verify_peer_required, cookie_callbacks, cookie_exchange, media_cipher_suites,
}

module _ (e : Engine) where
  open e use {
    Context, new_context, use_certificate_file, use_private_key_file, set_verify,
    load_verify_locations, set,
  }

  -- A file that fails to load is logged, and the context goes on.
  unfoldable pub with_file : (Context → Text → Context × Bool) → Option Text → Context → Context
  with_file load none c = c
  with_file load (some file) c = (load c file).0

  unfoldable pub with_ca : VerifyMode → Option Text → Context → Context
  with_ca mode none c = set_verify c verify_none
  with_ca mode (some file) c = (load_verify_locations (set_verify c mode) file).0

  unfoldable pub with_identity : Option Text → Option Text → Context → Context
  unfolding with_file
  with_identity certfile keyfile c =
      with_file use_private_key_file keyfile (with_file use_certificate_file certfile c)

  unfoldable pub tls_server_context : Option Text → Option Text → Option Text → Option Context
  unfolding with_identity with_ca
  tls_server_context certfile keyfile cafile = elim (new_context tls_server) [
    | none ↦ none
    | some c ↦ some (with_ca verify_peer_required cafile (with_identity certfile keyfile c))
  ]

  unfoldable pub tls_client_context : Option Text → Option Text → Option Text → Option Context
  unfolding with_identity with_ca
  tls_client_context certfile keyfile cafile = elim (new_context tls_client) [
    | none ↦ none
    | some c ↦ some (with_ca verify_peer cafile (with_identity certfile keyfile c))
  ]

  unfoldable pub dtls_server_context : Option Text → Option Text → Option Text → Option Context
  unfolding with_identity with_ca
  dtls_server_context certfile keyfile cafile = elim (new_context dtls_server) [
    | none ↦ none
    | some c ↦
        let ready = with_ca verify_peer_required cafile (with_identity certfile keyfile c) in
        some (set (set ready cookie_callbacks) cookie_exchange)
  ]

  unfoldable pub dtls_client_context : Option Text → Option Text → Option Text → Option Context
  unfolding with_identity with_ca
  dtls_client_context certfile keyfile cafile = elim (new_context dtls_client) [
    | none ↦ none
    | some c ↦ some (with_ca verify_peer cafile (with_identity certfile keyfile c))
  ]

  unfoldable pub media_server_context : Option Text → Option Text → Option Text → Option Context
  unfolding with_identity with_ca
  media_server_context certfile keyfile cafile = elim (new_context dtls_server) [
    | none ↦ none
    | some c ↦ some (
        with_ca verify_peer_required cafile
          (with_identity certfile keyfile (set c media_cipher_suites)))
  ]

  unfoldable pub media_client_context : Option Text → Option Text → Option Text → Option Context
  unfolding with_identity with_ca
  media_client_context certfile keyfile cafile = elim (new_context dtls_client) [
    | none ↦ none
    | some c ↦
        some
          (with_ca verify_peer cafile (with_identity certfile keyfile (set c media_cipher_suites)))
  ]

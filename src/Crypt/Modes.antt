-- ===== src/Crypt/Modes.antt =====
-- Which peers the contexts verify, whatever happens to the files.
use with_boost.Common.{◌≡◌, refl, ◌∙◌, Option, none, some, Option-cases, inl, inr, Text}
use with_boost.Crypt.Engine.{
  Engine, Method, tls_server, tls_client, dtls_server, dtls_client, VerifyMode, verify_none,
  verify_peer, verify_peer_required, cookie_callbacks, cookie_exchange, KeepsMode,
}
use with_boost.Crypt.Contexts.{
  with_ca, tls_server_context, tls_client_context, dtls_server_context, dtls_client_context,
  media_server_context, media_client_context,
}

-- The mode that the presence of a CA file asks for.
pub mode_of : VerifyMode → Option Text → VerifyMode
mode_of mode none = verify_none
mode_of mode (some file) = mode

module _ (e : Engine) (k : KeepsMode e) where
  open e use {Context, new_context, set}

  with_ca-mode :
      (mode : VerifyMode) (ca : Option Text) (c : Context)
      → k.verify_mode (with_ca e mode ca c) ≡ mode_of mode ca
  unfolding with_ca mode_of
  with_ca-mode mode none c = k.mode_set c verify_none
  with_ca-mode mode (some file) c = k.mode_loaded _ file ∙ k.mode_set c mode

  -- A context that was asked for is there just where OpenSSL made one for the method, and verifies so.
  pub Verifies : Method → Option Context → VerifyMode → Type 0
  Verifies method made mode = elim (new_context method) [
    | none ↦ made ≡ none
    | some fresh ↦ (c : Context) × (made ≡ some c) × (k.verify_mode c ≡ mode)
  ]

  made_for :
      (method : Method) (mode : VerifyMode) (finish : Context → Context) (made : Option Context)
      → made ≡ elim (new_context method) [ none ↦ none | some c ↦ some (finish c) ]
      → ((c : Context) → k.verify_mode (finish c) ≡ mode)
      → Verifies method made mode
  unfolding Verifies
  made_for method mode finish made h v = elim (Option-cases (new_context method)) [
    | inl n ↦ rw (Verifies, n) (h ∙ rw n refl)
    | inr (c, s) ↦ rw (Verifies, s) (finish c, h ∙ rw s refl, v c)
  ]

  -- Each of the six contexts exists just where OpenSSL makes one for its method: a certificate, a key or a CA file
  -- that cannot be loaded changes nothing. A context verifies no peer just where no CA file is named; otherwise a
  -- server requires a certificate of its peer, and a client verifies the server's.
  pub contexts-verify :
      (cert key ca : Option Text)
      → Verifies tls_server (tls_server_context e cert key ca) (mode_of verify_peer_required ca)
        × Verifies tls_client (tls_client_context e cert key ca) (mode_of verify_peer ca)
        × Verifies dtls_server (dtls_server_context e cert key ca) (mode_of verify_peer_required ca)
        × Verifies dtls_client (dtls_client_context e cert key ca) (mode_of verify_peer ca)
        × Verifies dtls_server
            (media_server_context e cert key ca)
            (mode_of verify_peer_required ca)
        × Verifies dtls_client (media_client_context e cert key ca) (mode_of verify_peer ca)
  unfolding tls_server_context tls_client_context dtls_server_context dtls_client_context
      media_server_context media_client_context
  contexts-verify cert key ca = (
    made_for tls_server _ _ _ refl (λ c. with_ca-mode verify_peer_required ca _),
    made_for tls_client _ _ _ refl (λ c. with_ca-mode verify_peer ca _),
    made_for dtls_server _ _ _ refl (λ c.
        k.mode_option _ cookie_exchange
        ∙ k.mode_option _ cookie_callbacks
        ∙ with_ca-mode verify_peer_required ca _),
    made_for dtls_client _ _ _ refl (λ c. with_ca-mode verify_peer ca _),
    made_for dtls_server _ _ _ refl (λ c. with_ca-mode verify_peer_required ca _),
    made_for dtls_client _ _ _ refl (λ c. with_ca-mode verify_peer ca _),
  )

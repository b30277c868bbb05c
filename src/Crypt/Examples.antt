-- ===== src/Crypt/Examples.antt =====
-- A toy of OpenSSL: the handshake is done once something was written to the read BIO, and the plaintext is what was
-- written.
use with_boost.Common.{
  ℕ, zero, suc, ◌<◌, ◌≡◌, refl, true, false, Option, none, some, List, [], ◌∷◌, ◌++◌, take, drop,
  length, is_empty, arith, ltb, ap, ◌↔◌,
}
use with_boost.Crypt.Engine.{
  Engine, tls_server, VerifyMode, verify_none, verify_peer, verify_peer_required, ReadsInOrder,
  KeepsMode,
}
use with_boost.Crypt.Read.{decrypt-plain, plain_of}
use with_boost.Crypt.Modes.{contexts-verify, Verifies, mode_of}
use with_boost.Crypt.CookieUse.{verify_cookie-generate_cookie}
use with_boost.Crypt.Dtls.{Session, set_peer, verify_cookie, generate_cookie}
use with_boost.Crypt.Cookies.{Seed, generate_cookie_with_peer, verify_cookie_with_peer}
use with_boost.Crypt.Contexts.{
  tls_server_context, tls_client_context, dtls_server_context, dtls_client_context,
  media_server_context, media_client_context,
}
use with_boost.Crypt.Engine.{tls_client, dtls_server, dtls_client}
use with_boost.Crypt.Tls.{decrypt}

abbrev toy : Engine
toy = record {
  Context = VerifyMode;
  Conn = List ℕ;
  new_context = λ m. some verify_none;
  use_certificate_file = λ c f. (c, true);
  use_private_key_file = λ c f. (c, false);
  set_verify = λ c m. m;
  load_verify_locations = λ c f. (c, false);
  set = λ c s. c;
  new_ssl = λ c. some [];
  attach_bios = some;
  set_accept_state = λ c. c;
  set_connect_state = λ c. c;
  set_link_mtu = λ c n. c;
  is_init_finished = λ c. ltb 0 (length c);
  do_handshake = λ c. c;
  bio_write = λ c bytes. (c ++ bytes, ltb 0 (length bytes));
  bio_pending = λ c. 0;
  bio_read = λ c n. (c, []);
  ssl_read = λ c n. (drop n c, take n c);
  ssl_write = λ c bytes. (c, true);
  readable = λ c. c;
}

take-drop : (n : ℕ) (xs : List ℕ) → take n xs ++ drop n xs ≡ xs
take-drop zero xs = refl
take-drop (suc n) [] = refl
take-drop (suc n) (x ∷ xs) = ap (◌∷◌ x) (take-drop n xs)

take-some : (c : List ℕ) (n : ℕ) → 0 < n → is_empty (take n c) ≡ true → is_empty c ≡ true
take-some c zero l h = absurd (omega (arith, l))
take-some [] (suc n) l h = refl
take-some (x ∷ c) (suc n) l h = h

abbrev toy_reads : ReadsInOrder toy
toy_reads = record { in_order = λ c n l. take-drop n c; reads_some = take-some }

abbrev toy_modes : KeepsMode toy
toy_modes = record {
  verify_mode = λ c. c;
  mode_set = λ c m. refl;
  mode_loaded = λ c f. refl;
  mode_option = λ c s. refl;
}

decrypt-plain_example :
    (decrypt toy (some []) (104 ∷ 105 ∷ [])).1 ≡ plain_of toy toy_reads (some []) (104 ∷ 105 ∷ [])
decrypt-plain_example = decrypt-plain toy toy_reads (some []) (104 ∷ 105 ∷ [])

abbrev ca_file : Option (List ℕ)
ca_file = some (99 ∷ [])

contexts-verify_example :
    Verifies toy toy_modes tls_server
      (tls_server_context toy none ca_file ca_file)
      (mode_of verify_peer_required ca_file)
    × Verifies toy toy_modes tls_client
        (tls_client_context toy none ca_file ca_file)
        (mode_of verify_peer ca_file)
    × Verifies toy toy_modes dtls_server
        (dtls_server_context toy none ca_file ca_file)
        (mode_of verify_peer_required ca_file)
    × Verifies toy toy_modes dtls_client
        (dtls_client_context toy none ca_file ca_file)
        (mode_of verify_peer ca_file)
    × Verifies toy toy_modes dtls_server
        (media_server_context toy none ca_file ca_file)
        (mode_of verify_peer_required ca_file)
    × Verifies toy toy_modes dtls_client
        (media_client_context toy none ca_file ca_file)
        (mode_of verify_peer ca_file)
contexts-verify_example = contexts-verify toy toy_modes none ca_file ca_file

abbrev near : Session toy
near = record { conn = some []; peer = 1 ∷ [] }

abbrev far : Session toy
far = record { conn = some []; peer = 2 ∷ [] }

abbrev seed : Seed
seed = record { drawn = true; secret = 7 ∷ [] }

verify_cookie-generate_cookie_example :
    ((verify_cookie_with_peer ◌++◌ seed (1 ∷ []) (7 ∷ []) ≡ true)
      ↔ (generate_cookie_with_peer ◌++◌ seed (1 ∷ []) ≡ 7 ∷ []))
    × ((verify_cookie_with_peer ◌++◌ seed (2 ∷ []) (generate_cookie_with_peer ◌++◌ seed (1 ∷ []))
          ≡ true)
        ↔ (◌++◌ {A = ℕ} (7 ∷ []) (2 ∷ []) ≡ (7 ∷ []) ++ (1 ∷ [])))
    × ((verify_cookie toy ◌++◌ seed (set_peer toy (2 ∷ []) far) (7 ∷ []) ≡ true)
        ↔ (generate_cookie toy ◌++◌ seed (set_peer toy (1 ∷ []) near) ≡ 7 ∷ []))
verify_cookie-generate_cookie_example =
    verify_cookie-generate_cookie ◌++◌ seed toy near far (1 ∷ []) (2 ∷ []) (7 ∷ [])

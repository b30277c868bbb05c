-- ===== src/Network/TcpSession/Examples.antt =====
-- Two messages over the wire, and the life of a session with TLS.
use with_boost.Common.{
  ◌+◌, ◌≤◌, ◌≡◌, refl, Bool, true, false, none, some, List, [], ◌∷◌, ◌++◌, arith,
}
use with_boost.Network.Protocol.{Message}
use with_boost.Network.TcpSession.{Tls, Session, header, delivers, pump}
use with_boost.Network.TcpSession.Framing.{plain, sent_bytes, send_all, pump-send}
use with_boost.Network.TcpSession.Lifecycle.{
  Event, body_read, header_read, fails, run, count_connected, count_disconnects, announced_once,
}

-- A TLS session that is through with its handshake once it has read something.
abbrev toy_tls : Tls
toy_tls = record {
  State = Bool;
  is_handshake_done = λ b. b;
  handshake = λ b. (b, []);
  encrypt = λ b bytes. (b, 0 ∷ bytes);
  decrypt = λ b bytes. (true, bytes);
}

abbrev fresh : Session toy_tls
fresh = record {
  tls = none;
  phase = header;
  handshake_completed = false;
  disconnected = false;
  has_message_handler = true;
  has_connected_handler = true;
  has_disconnect_handler = true;
}

abbrev hello : Message
hello = record { type = 1; length = 2; payload = 104 ∷ 105 ∷ [] }

abbrev nothing : Message
nothing = record { type = 5; length = 0; payload = [] }

pump-send_example :
    pump toy_tls 5
      (plain toy_tls fresh)
      (sent_bytes toy_tls (send_all toy_tls (plain toy_tls fresh) (hello ∷ nothing ∷ [])) ++ 3 ∷ [])
    ≡ (plain toy_tls fresh, delivers hello ∷ delivers nothing ∷ [], 3 ∷ [])
pump-send_example =
    pump-send toy_tls fresh fresh (hello ∷ nothing ∷ []) 5 (3 ∷ [])
      (
        record { exact = refl; fits = omega arith },
        (record { exact = refl; fits = omega arith }, tt),
      )
      (omega arith) (omega arith)

abbrev secure : Session toy_tls
secure = record fresh { tls = some false }

abbrev life : List Event
life = header_read 11 2 ∷ body_read 11 (1 ∷ 2 ∷ []) ∷ body_read 11 (3 ∷ []) ∷ fails ∷ fails ∷ []

announced_once_example :
    (count_connected (run toy_tls secure life).1 + 0 ≤ 1)
    × (count_disconnects (run toy_tls secure life).1 + 0 ≤ 1)
announced_once_example = announced_once toy_tls secure life refl

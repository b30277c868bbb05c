-- ===== src/Crypt/Links.antt =====
-- The sessions of Src/Network over the wrappers: what TcpSession asks of TLS::Session, and UdpSession of
-- MediaDTLS::Session.
use with_boost.Common.{ℕ, ◌<◌, ◌≡◌, refl, false, Option, none, some, List, [], ◌∷◌, take, lt→ltb}
use with_boost.Crypt.Engine.{Engine}
use with_boost.Crypt.Tls
use with_boost.Crypt.MediaDtls
use with_boost.Network.Protocol.{Message}
use with_boost.Network.TcpSession as Tcp
use with_boost.Network.UdpSession.Packets as Udp

abbrev pub session_tls : Engine → Tcp.Tls
session_tls e = record {
  State = Option e.Conn;
  is_handshake_done = Tls.is_handshake_done e;
  handshake = Tls.handshake e;
  encrypt = Tls.encrypt e;
  decrypt = Tls.decrypt e;
}

abbrev pub session_dtls : Engine → Udp.Dtls
session_dtls e = record {
  State = Option e.Conn;
  is_handshake_done = MediaDtls.is_handshake_done e;
  handshake = MediaDtls.handshake e;
  decrypt = MediaDtls.decrypt e;
}

encrypt_early :
    (e : Engine) (conn : Option e.Conn) (bytes : List ℕ)
    → Tls.is_handshake_done e conn ≡ false
    → Tls.encrypt e conn bytes ≡ (conn, [])
unfolding Tls.encrypt Tls.is_handshake_done
encrypt_early e none bytes h = refl
encrypt_early e (some c) bytes h = rw h refl

-- A message that is sent over TLS before the handshake is done goes out as a message of its type without a payload:
-- its bytes are lost, and nothing tells the caller.
pub send_message-lost :
    (e : Engine) (s : Tcp.Session (session_tls e)) (conn : Option e.Conn) (msg : Message)
    → s.tls ≡ some conn
    → Tls.is_handshake_done e conn ≡ false
    → 0 < msg.length
    → Tcp.send_message (session_tls e) s msg
      ≡ (record s { tls = some conn }, Tcp.writes (Tcp.frame msg.type []) ∷ [])
unfolding Tcp.send_message
send_message-lost e s conn msg t h l =
    rw (t, encrypt_early e conn (take msg.length msg.payload) h, lt→ltb _ _ l) refl

-- ===== src/Network/UdpSession/Packets.antt =====
-- `doReceive` and `handlePacket`: which datagram goes where.
use with_boost.Common.{
  ℕ, Bool, List, [], ◌∷◌, ◌++◌, ltb, ◌==◌, if◌then◌else◌, length, drop, get_elem?, none, some,
}
use with_boost.Network.Protocol.{
  type_code, tls_handshake, image, le32, packet_header_size, image_header_size,
}
use with_boost.Network.UdpSession.Fragments.{
  UdpSession, Endpoint, Effect, sends_raw, handle_image_fragment,
}

-- What the session asks of its DTLS session.
pub record Dtls : Type 1 where
  pub State : Type 0
  pub is_handshake_done : State → Bool
  pub handshake : State → List ℕ → State × List ℕ
  pub decrypt : State → List ℕ → State × List ℕ

abbrev byte_at : List ℕ → ℕ → ℕ
byte_at bytes i = elim (get_elem? bytes i) [ none ↦ 0 | some b ↦ b ]

module _ (d : Dtls) where
  open d use {State, is_handshake_done, handshake, decrypt}

  abbrev pub Session : Type 0
  Session = UdpSession State

  unfoldable pub send_raw : Session → List ℕ → List Effect
  send_raw s [] = []
  send_raw s (b ∷ bs) = sends_raw (b ∷ bs) s.server_endpoint ∷ []

  wrap_handshake : List ℕ → List ℕ
  wrap_handshake [] = []
  wrap_handshake (b ∷ bs) = type_code tls_handshake ∷ le32 (length (b ∷ bs)) ++ b ∷ bs

  handle_fragment_of : Session → List ℕ → List ℕ → Session × List Effect
  handle_fragment_of s packet [] = (s, [])
  handle_fragment_of s packet (b ∷ bs) =
      handle_image_fragment s (byte_at packet 5) (byte_at packet 6) (byte_at packet 7) (b ∷ bs)

  handle_image_packet : Session → List ℕ → Session × List Effect
  unfolding handle_fragment_of
  handle_image_packet s packet =
      let (dtls, plain) = decrypt s.dtls (drop image_header_size packet) in
      if is_handshake_done s.dtls
      then handle_fragment_of (record s { dtls = dtls }) packet plain
      else (s, [])

  unfoldable pub handle_packet : Session → List ℕ → Session × List Effect
  unfolding handle_image_packet wrap_handshake send_raw
  handle_packet s packet =
      let type = byte_at packet 0 in
      let (raw, answer) = handshake s.dtls packet in
      let (wrapped, answer') = handshake s.dtls (drop packet_header_size packet) in
      if ltb (length packet) image_header_size
      then if type == type_code tls_handshake
        then (record s { dtls = raw }, send_raw s answer)
        else (s, [])
      else if type == type_code tls_handshake
      then (record s { dtls = wrapped }, send_raw s (wrap_handshake answer'))
      else if type == type_code image
      then handle_image_packet s packet
      else (s, [])

  -- A datagram that arrived from `sender`; an empty one is dropped, and the first sender stays.
  unfoldable pub receive : Session → Endpoint → List ℕ → Session × List Effect
  unfolding handle_packet
  receive s sender [] = (s, [])
  receive s sender (b ∷ bs) =
      handle_packet
        (if s.server_endpoint.port == 0 then record s { server_endpoint = sender } else s) (b ∷ bs)

  -- `setServerEndpoint`: the session says hello.
  unfoldable pub set_server_endpoint : Session → Endpoint → Session × List Effect
  unfolding send_raw
  set_server_endpoint s endpoint =
      let (dtls, hello) = handshake s.dtls [] in
      let s' = record s { server_endpoint = endpoint; dtls = dtls } in (s', send_raw s' hello)

-- ===== src/Network/TcpSession/Defs.antt =====
-- The state of a TcpSession, its reads, its writes and its end.
use with_boost.Common.{
  ℕ, zero, suc, ◌%◌, ◌^◌, Bool, true, false, ◌&&◌, not, Option, none, some, List, [], ◌∷◌, ◌++◌,
  ltb, ◌==◌, if◌then◌else◌, length, take, drop,
}
use with_boost.Network.Protocol.{
  Message, type_code, tls_handshake, le32, read_le32, packet_header_size,
}

-- What the session asks of its TLS session; `handshake` gives the bytes to send.
pub record Tls : Type 1 where
  pub State : Type 0
  pub is_handshake_done : State → Bool
  pub handshake : State → State × List ℕ
  pub encrypt : State → List ℕ → State × List ℕ
  pub decrypt : State → List ℕ → State × List ℕ

-- Which read is pending: the header, or the body of the message whose header has come.
pub data Phase : Type 0 where
  header : Phase
  body : ℕ → ℕ → Phase

pub record TcpSession (T : Type 0) : Type 0 where
  pub tls : Option T
  pub phase : Phase
  pub handshake_completed : Bool
  pub disconnected : Bool
  pub has_message_handler : Bool
  pub has_connected_handler : Bool
  pub has_disconnect_handler : Bool

pub data Effect : Type 0 where
  writes : List ℕ → Effect
  delivers : Message → Effect
  connected : Effect
  socket_closed : Effect
  disconnect_handled : Effect

abbrev pub effect_if : Bool → Effect → List Effect
effect_if true e = e ∷ []
effect_if false e = []

-- The bytes of a message on the wire: the type, the length, the payload.
unfoldable pub frame : ℕ → List ℕ → List ℕ
unfolding le32
frame type payload = type ∷ le32 (length payload % 2 ^ 32) ++ payload

module _ (t : Tls) where
  open t use {State, is_handshake_done, handshake, encrypt, decrypt}

  abbrev pub Session : Type 0
  Session = TcpSession State

  -- `sendMessage`; an empty message is not encrypted.
  unfoldable pub send_message : Session → Message → Session × List Effect
  unfolding frame
  send_message s msg = elim s.tls [
    | none ↦ (s, writes (frame msg.type msg.payload) ∷ [])
    | some tls ↦
        let (tls', cipher) = encrypt tls (take msg.length msg.payload) in
        if ltb 0 msg.length
        then (record s { tls = some tls' }, writes (frame msg.type cipher) ∷ [])
        else (s, writes (frame msg.type msg.payload) ∷ [])
  ]

  unfoldable pub handshake_frame : List ℕ → List Effect
  unfolding frame
  handshake_frame [] = []
  handshake_frame (b ∷ bs) = writes (frame (type_code tls_handshake) (b ∷ bs)) ∷ []

  unfoldable pub handle_tls_output : Session → Session × List Effect
  unfolding handshake_frame
  handle_tls_output s = elim s.tls [
    | none ↦ (s, [])
    | some tls ↦
        let (tls', response) = handshake tls in
        (record s { tls = some tls' }, handshake_frame response)
  ]

  abbrev pub has_tls : Option State → Bool
  has_tls none = false
  has_tls (some tls) = true

  unfoldable pub start : Session → Session × List Effect
  unfolding handle_tls_output
  start s =
      if has_tls s.tls
      then handle_tls_output s
      else (s, effect_if s.has_connected_handler connected)

  -- `readHeader` when the five bytes have come.
  unfoldable pub on_header : Session → ℕ → ℕ → Session × List Effect
  unfolding handle_tls_output
  on_header s type size =
      let empty : Message = record { type = type; length = 0; payload = [] } in
      if ltb 0 size
      then (record s { phase = body type size }, [])
      else if has_tls s.tls && (type == type_code tls_handshake)
      then handle_tls_output s
      else (s, effect_if s.has_message_handler (delivers empty))

  unfoldable pub deliver_message : Session → ℕ → List ℕ → List Effect
  deliver_message s type payload =
      effect_if (s.has_message_handler && ltb 0 (length payload))
        (delivers (record { type = type; length = length payload; payload = payload }))

  -- The end of a handshake message: the first one that completes the handshake is announced.
  unfoldable pub after_handshake : Session → Session × List Effect
  after_handshake s = elim s.tls [
    | none ↦ (s, [])
    | some tls ↦
        if is_handshake_done tls && not s.handshake_completed
        then (record s { handshake_completed = true }, effect_if s.has_connected_handler connected)
        else (s, [])
  ]

  -- `readBody` when the bytes of the body have come.
  unfoldable pub on_body : Session → ℕ → List ℕ → Session × List Effect
  unfolding handle_tls_output deliver_message after_handshake
  on_body s type payload = elim s.tls [
    | none ↦ (record s { phase = header }, deliver_message s type payload)
    | some tls ↦
        let (tls', plain) = decrypt tls payload in
        let (s', out) = handle_tls_output (record s { tls = some tls'; phase = header }) in
        let (s'', more) = after_handshake s' in
        if type == type_code tls_handshake
        then (s'', out ++ more)
        else (s', out ++ deliver_message s' type plain)
  ]

  -- A read that ended with an error, or a failed write.
  unfoldable pub handle_disconnect : Session → Session × List Effect
  handle_disconnect s = if s.disconnected then (s, []) else (
    record s { disconnected = true },
    socket_closed ∷ effect_if s.has_disconnect_handler disconnect_handled,
  )

  read_header : Session → List ℕ → Session × List Effect
  unfolding on_header
  read_header s (type ∷ a ∷ b ∷ c ∷ d ∷ bytes) = on_header s type (read_le32 a b c d)
  read_header s bytes = (s, [])

  abbrev pub wanted : Phase → ℕ
  wanted header = packet_header_size
  wanted (body type size) = size

  unfoldable pub read_of : Session → Phase → List ℕ → Session × List Effect
  unfolding read_header on_body
  read_of s header bytes = read_header s bytes
  read_of s (body type size) bytes = on_body s type bytes

  -- The reads that a stretch of the stream completes, on fuel for their number: the session, what it
  -- did, and the bytes that a pending read still waits with.
  unfoldable pub pump : ℕ → Session → List ℕ → Session × List Effect × List ℕ
  unfolding read_of
  pump zero s bytes = (s, [], bytes)
  pump (suc fuel) s bytes =
      let size = wanted s.phase in
      let (s', out) = read_of s s.phase (take size bytes) in
      let rest = pump fuel s' (drop size bytes) in
      if ltb (length bytes) size then (s, [], bytes) else (rest.0, out ++ rest.1, rest.2)

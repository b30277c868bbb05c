-- ===== src/Network/MessageProcessor/Dispatch.antt =====
-- Which callback a message reaches, alone and at the end of a connection.
use with_boost.Common.{
  ◌^◌, ℕ, ◌<◌, Bool, ◌&&◌, not, Option, none, some, List, [], ◌∷◌, ◌++◌, if◌then◌else◌, is_empty,
  length,
}
use with_boost.Network.Protocol.{
  Message, MessageType, type_code, login, success, fail, device, available, ai, camera, assign,
  meta, image, tls_handshake,
}
use with_boost.Network.MessageProcessor.{
  Callback, NetworkCallbacks, Call, calls, process_message, on_login_result, on_login_fail,
  on_camera_list, on_device_status, on_ai_result, on_meta_result, on_assign, on_image_meta,
}
use with_boost.Network.TcpSession.{Effect, delivers}

abbrev pub is_set : NetworkCallbacks → Callback → Bool
is_set c on_login_result = c.has_login_result
is_set c on_login_fail = c.has_login_fail
is_set c on_camera_list = c.has_camera_list
is_set c on_device_status = c.has_device_status
is_set c on_ai_result = c.has_ai_result
is_set c on_meta_result = c.has_meta_result
is_set c on_assign = c.has_assign
is_set c on_image_meta = c.has_image_meta

-- The callback of a type of message, where it has one.
abbrev pub route : MessageType → Option Callback
route login = none
route success = some on_login_result
route fail = some on_login_fail
route device = some on_device_status
route available = some on_device_status
route ai = some on_ai_result
route camera = some on_camera_list
route assign = some on_assign
route meta = some on_meta_result
route image = some on_image_meta
route tls_handshake = none

abbrev pub routed : NetworkCallbacks → Option Callback → List ℕ → List Call
routed c none payload = []
routed c (some callback) payload =
    if is_set c callback && not (is_empty payload) then calls callback payload ∷ [] else []

-- A message as a peer makes it: its length field is the length of its payload.
abbrev pub typed : MessageType × List ℕ → Message
typed m = record { type = type_code m.0; length = length m.1; payload = m.1 }

-- The calls that the messages delivered by a session lead to.
pub calls_of : NetworkCallbacks → List Effect → List Call
calls_of c [] = []
calls_of c (delivers m ∷ out) = process_message c m ++ calls_of c out
calls_of c (other ∷ out) = calls_of c out

abbrev pub routed_all : NetworkCallbacks → List (MessageType × List ℕ) → List Call
routed_all c [] = []
routed_all c (m ∷ ms) = routed c (route m.0) m.1 ++ routed_all c ms

abbrev pub Fits : MessageType × List ℕ → Type 0
Fits m = length m.1 < 2 ^ 32

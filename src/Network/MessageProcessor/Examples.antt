-- ===== src/Network/MessageProcessor/Examples.antt =====
-- Messages on their way to callbacks.
use with_boost.Common.{Bool, true, false, none, []}
use with_boost.Network.MessageProcessor.{NetworkCallbacks}
use with_boost.Network.TcpSession.{Tls, Session, header}

abbrev no_tls : Tls
no_tls = record {
  State = Bool;
  is_handshake_done = λ b. b;
  handshake = λ b. (b, []);
  encrypt = λ b bytes. (b, bytes);
  decrypt = λ b bytes. (b, bytes);
}

abbrev connection : Session no_tls
connection = record {
  tls = none;
  phase = header;
  handshake_completed = false;
  disconnected = false;
  has_message_handler = true;
  has_connected_handler = true;
  has_disconnect_handler = true;
}

abbrev all_but_cameras : NetworkCallbacks
all_but_cameras = record {
  has_login_result = true;
  has_login_fail = true;
  has_camera_list = false;
  has_device_status = true;
  has_ai_result = true;
  has_meta_result = true;
  has_assign = true;
  has_image_meta = true;
}

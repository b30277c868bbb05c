-- ===== src/Network/NetworkService/Examples.antt =====
-- A connection, a message, an image, and a disconnection.
use with_boost.Common.{◌<◌, ◌≡◌, refl, true, false, List, [], ◌∷◌, ◌++◌, Text, codes, All, arith}
use with_boost.Network.Protocol.{Message}
use with_boost.Network.MessageProcessor.{NetworkCallbacks}
use with_boost.Network.NetworkService.{
  NetworkService, idle, Event, connects, begins_disconnect, joins, runs_task, asks_to_send,
  connecting_ends, handshake_done, message_read, closes, sends, run,
}
use with_boost.Network.NetworkService.Order.{Ordered, last_mark}
use with_boost.Network.NetworkService.Marks.{marks_in, pending}
use with_boost.Network.NetworkService.Marks.Passes.{all_queued_marks, run-marks}
use with_boost.Network.NetworkService.Ends.{is_quiet, runs_tasks, run-idle}
use with_boost.Network.NetworkService.Stuck.{is_receive_failure, is_return, run-RunsOn}

abbrev no_callbacks : NetworkCallbacks
no_callbacks = record {
  has_login_result = false;
  has_login_fail = false;
  has_camera_list = false;
  has_device_status = false;
  has_ai_result = false;
  has_meta_result = false;
  has_assign = false;
  has_image_meta = false;
}

abbrev reply : Text
reply = codes "reply"

abbrev image_message : Message
image_message = record { type = 10; length = 2; payload = 123 ∷ 125 ∷ [] }

abbrev session : List (Event true no_callbacks reply)
session =
    connects
    ∷ runs_task
    ∷ asks_to_send 1 (codes "early")
    ∷ connecting_ends true
    ∷ runs_task
    ∷ handshake_done
    ∷ runs_task
    ∷ asks_to_send 1 (codes "login")
    ∷ runs_task
    ∷ message_read image_message
    ∷ runs_task
    ∷ runs_task
    ∷ begins_disconnect
    ∷ runs_task
    ∷ []

run-marks_example :
    let r = run true no_callbacks reply session idle in
    Ordered false r.1
    × (last_mark false r.1 ≡ r.0.connected)
    × (marks_in r.1 ++ pending r.0.queue ≡ all_queued_marks true no_callbacks reply session idle)
unfolding pending
run-marks_example = run-marks true no_callbacks reply session idle (λ h. (refl, refl, refl))

-- A service with a UDP session, whose disconnection waits.
abbrev waiting : NetworkService
waiting = record idle { is_running = true; queue = closes ∷ []; has_udp = true; receiving = 1 }

abbrev attempts : List (Event true no_callbacks reply)
attempts = runs_task ∷ joins ∷ joins ∷ []

run-RunsOn_example :
    let r = run true no_callbacks reply attempts waiting in
    ((r.0.is_running ≡ true) × (0 < r.0.receiving)) × All (λ e. is_return e ≡ false) r.1
unfolding is_receive_failure
run-RunsOn_example =
    run-RunsOn true no_callbacks reply attempts waiting (refl, (refl, (refl, tt))) refl
      (omega arith)

-- A service that is connected, with a message that waits.
abbrev online : NetworkService
online = record idle {
  is_running = true;
  is_guarded = true;
  queue = sends 4 (codes "body") ∷ [];
  has_session = true;
  is_reading = true;
  has_processor = true;
  connected = true;
}

run-idle_example :
    (run true no_callbacks reply
      (begins_disconnect ∷ runs_tasks true no_callbacks reply 1)
      online).0
    ≡ idle
unfolding is_quiet
run-idle_example = run-idle true no_callbacks reply online refl refl refl (refl, tt)

-- ===== src/Models/AiImageModel.antt =====
-- Qt/Back/Models/AiImageModel.hpp and AiImageModel.cpp. The maps given to QML are the events themselves.
pub mod Latest
mod Examples
use mathlib.Core.Path.{◌≡◌}
use with_boost.Common.{
  ℕ, ℤ, Bool, true, false, Option, none, some, List, [], ◌∷◌, ◌++◌, Text, text_eq, starts_with,
  if◌then◌else◌, change_at, lookup,
}
use with_boost.Domain.Device.{trim}

pub record AiImageEvent : Type 0 where
  pub camera_id : Text
  pub device_name : Text
  pub track_id : ℤ
  pub frame_index : ℤ
  pub total_frames : ℤ
  pub timestamp : ℤ
  pub base64_image : Text

pub data Signal : Type 0 where
  ai_event_received : Text → Signal

abbrev pub max_events_per_camera : ℕ
max_events_per_camera = 20

-- `eventsByCameraId_`.
abbrev pub Events : Type 0
Events = List (Text × List AiImageEvent)

abbrev pub append_event : AiImageEvent → List AiImageEvent → List AiImageEvent
append_event ev queue = trim max_events_per_camera (queue ++ ev ∷ [])

unfoldable pub on_image_received_base64 : AiImageEvent → Events → Events × List Signal
unfolding change_at trim
on_image_received_base64 ev events =
    (change_at [] ev.camera_id (append_event ev) events, ai_event_received ev.camera_id ∷ [])

unfoldable pub get_events_for_camera : Events → Text → List AiImageEvent
unfolding lookup
get_events_for_camera events camera_id = lookup [] camera_id events

unfoldable pub last_event : List AiImageEvent → Option AiImageEvent
last_event [] = none
last_event (e ∷ []) = some e
last_event (e ∷ e' ∷ es) = last_event (e' ∷ es)

-- An empty map stands for no event.
unfoldable pub get_latest_event : Events → Text → Option AiImageEvent
unfolding last_event lookup
get_latest_event events camera_id = last_event (lookup [] camera_id events)

unfoldable pub get_recent_events : Events → Text → List AiImageEvent
get_recent_events [] ip = []
get_recent_events (e ∷ es) ip =
    if starts_with e.0 ip then e.1 ++ get_recent_events es ip else get_recent_events es ip

unfoldable pub clear_all : Events → Events
clear_all events = []

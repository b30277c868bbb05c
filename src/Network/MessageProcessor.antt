-- ===== src/Network/MessageProcessor.antt =====
-- Src/Network/MessageProcessor.hpp and MessageProcessor.cpp, and the callbacks of INetworkService.hpp.
pub mod Dispatch
mod Examples
use with_boost.Common.{
  ℕ, Bool, true, false, ◌&&◌, not, List, [], ◌∷◌, ◌==◌, if◌then◌else◌, is_empty,
}
use with_boost.Network.Protocol.{
  Message, type_code, success, fail, device, available, ai, camera, assign, meta, image,
}

pub data Callback : Type 0 where
  on_login_result on_login_fail on_camera_list on_device_status on_ai_result on_meta_result
        on_assign on_image_meta :
      Callback

-- Which of the callbacks that take a text are set.
pub record NetworkCallbacks : Type 0 where
  pub has_login_result : Bool
  pub has_login_fail : Bool
  pub has_camera_list : Bool
  pub has_device_status : Bool
  pub has_ai_result : Bool
  pub has_meta_result : Bool
  pub has_assign : Bool
  pub has_image_meta : Bool

-- A callback with its argument: the payload read as a `std::string`.
pub data Call : Type 0 where
  calls : Callback → List ℕ → Call

-- The common shape of the handlers: a message without a payload is passed over.
unfoldable pub forward : Bool → Callback → Message → List Call
forward is_set callback msg =
    if is_set && not (is_empty msg.payload) then calls callback msg.payload ∷ [] else []

module _ (callbacks : NetworkCallbacks) where
  unfoldable pub handle_login_result : Message → List Call
  unfolding forward
  handle_login_result = forward callbacks.has_login_result on_login_result

  unfoldable pub handle_login_fail : Message → List Call
  unfolding forward
  handle_login_fail = forward callbacks.has_login_fail on_login_fail

  unfoldable pub handle_device_status : Message → List Call
  unfolding forward
  handle_device_status = forward callbacks.has_device_status on_device_status

  unfoldable pub handle_available : Message → List Call
  unfolding forward
  handle_available = forward callbacks.has_device_status on_device_status

  unfoldable pub handle_ai_result : Message → List Call
  unfolding forward
  handle_ai_result = forward callbacks.has_ai_result on_ai_result

  unfoldable pub handle_camera_list : Message → List Call
  unfolding forward
  handle_camera_list = forward callbacks.has_camera_list on_camera_list

  unfoldable pub handle_assign : Message → List Call
  unfolding forward
  handle_assign = forward callbacks.has_assign on_assign

  unfoldable pub handle_meta : Message → List Call
  unfolding forward
  handle_meta = forward callbacks.has_meta_result on_meta_result

  unfoldable pub handle_image : Message → List Call
  unfolding forward
  handle_image = forward callbacks.has_image_meta on_image_meta

  -- The switch over the type; every other type falls through to nothing.
  unfoldable pub process_message : Message → List Call
  unfolding type_code handle_login_result handle_login_fail handle_device_status handle_available
      handle_ai_result handle_camera_list handle_assign handle_meta handle_image
  process_message msg =
      if msg.type == type_code success
      then handle_login_result msg
      else if msg.type == type_code fail
      then handle_login_fail msg
      else if msg.type == type_code device
      then handle_device_status msg
      else if msg.type == type_code available
      then handle_available msg
      else if msg.type == type_code ai
      then handle_ai_result msg
      else if msg.type == type_code camera
      then handle_camera_list msg
      else if msg.type == type_code assign
      then handle_assign msg
      else if msg.type == type_code meta
      then handle_meta msg
      else if msg.type == type_code image
      then handle_image msg
      else []

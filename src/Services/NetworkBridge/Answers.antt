-- ===== src/Services/NetworkBridge/Answers.antt =====
-- What the callbacks of `connectToServer` emit, once their queued call runs.
use with_boost.Common.{ℕ, Bool, not, List, [], ◌∷◌, Text, codes, text_eq, is_empty, if◌then◌else◌}
use with_boost.Network.MessageProcessor.{
  Callback, on_login_result, on_login_fail, on_camera_list, on_device_status, on_ai_result,
  on_meta_result, on_assign, on_image_meta,
}

-- What the bridge uses of QJsonDocument. A member that is missing or of another type reads as "" or false.
-- The value of a text that is no object has no members.
pub record QJson : Type 1 where
  pub Value : Type 0
  pub from_json : Text → Value
  pub is_object : Value → Bool
  pub contains : Value → Text → Bool
  pub to_bool : Value → Text → Bool
  pub to_string : Value → Text → Text
  pub empty_object : Value

pub data Signal : Type 0 where
  connected_for_login connected_for_signup : Signal
  login_success : Text → Text → Signal
  login_failed signup_failed : Text → Signal
  camera_list_received device_status_received ai_result_received : Text → Signal
  meta_result_received image_meta_received pending_list_received : Text → Signal
  image_data_received : List ℕ → Text → Signal

module _ (j : QJson) (from_std : Text → Text) where
  open j use {Value, from_json, is_object, contains, to_bool, to_string, empty_object}

  unfoldable pub connected_signals : Text → List Signal
  connected_signals purpose =
      if text_eq purpose (codes "login")
      then connected_for_login ∷ []
      else if text_eq purpose (codes "signup")
      then connected_for_signup ∷ []
      else []

  unfoldable pub login_result_signals : Text → List Signal
  login_result_signals s =
      let obj = from_json (from_std s) in
      let success =
        login_success (to_string obj (codes "state")) (to_string obj (codes "username")) in
      if not (is_object obj)
      then []
      else if to_bool obj (codes "success")
      then success ∷ []
      else login_failed (to_string obj (codes "message")) ∷ []

  unfoldable pub login_fail_signals : Text → Text → List Signal
  login_fail_signals purpose s =
      let doc = from_json (from_std s) in
      let obj = if is_object doc then doc else empty_object in
      let found =
        if contains obj (codes "error")
        then to_string obj (codes "error")
        else to_string obj (codes "message") in
      let msg = if is_empty found then from_std s else found in
      let ctx = to_string obj (codes "context") in
      if text_eq ctx (codes "login")
      then login_failed msg ∷ []
      else if text_eq ctx (codes "signup")
      then signup_failed msg ∷ []
      else if text_eq purpose (codes "login")
      then login_failed msg ∷ []
      else signup_failed msg ∷ []

  -- All the callbacks that take a text.
  unfoldable pub callback_signals : Text → Callback → Text → List Signal
  unfolding login_result_signals login_fail_signals
  callback_signals purpose on_login_result s = login_result_signals s
  callback_signals purpose on_login_fail s = login_fail_signals purpose s
  callback_signals purpose on_camera_list s = camera_list_received (from_std s) ∷ []
  callback_signals purpose on_device_status s = device_status_received (from_std s) ∷ []
  callback_signals purpose on_ai_result s = ai_result_received (from_std s) ∷ []
  callback_signals purpose on_meta_result s = meta_result_received (from_std s) ∷ []
  callback_signals purpose on_assign s = pending_list_received (from_std s) ∷ []
  callback_signals purpose on_image_meta s = image_meta_received (from_std s) ∷ []

  unfoldable pub image_data_signals : List ℕ → Text → List Signal
  image_data_signals bytes meta = image_data_received bytes (from_std meta) ∷ []

-- ===== src/Services/NetworkBridge/Device.antt =====
-- Device commands: actions go out at once, the states to be kept are sent when the debounce timer ends.
use with_boost.Common.{
  Bool, ◌&&◌, ◌||◌, not, List, [], ◌∷◌, ◌++◌, Text, codes, text_eq, is_empty, if◌then◌else◌,
  change_at,
}
use with_boost.Network.Protocol.{type_code, device}
use with_boost.Services.NetworkBridge.Body.{Effect, sends, timer_started, build_json}

pub record DeviceState : Type 0 where
  pub motor : Text
  pub ir : Text
  pub heater : Text

abbrev pub blank : DeviceState
blank = record { motor = []; ir = []; heater = [] }

abbrev pub Pending : Type 0
Pending = List (Text × DeviceState)

abbrev pub is_status : Text → Bool
is_status motor = text_eq motor (codes "auto") || text_eq motor (codes "unauto")

abbrev pub is_switch : Text → Bool
is_switch t = text_eq t (codes "on") || text_eq t (codes "off")

unfoldable pub is_action : Text → Text → Text → Bool
is_action motor ir heater =
    (not (is_empty motor) && not (is_status motor)) || (is_switch ir || is_switch heater)

-- A movement leaves the state of the motor.
unfoldable pub set_states : Text → Text → Text → DeviceState → DeviceState
set_states motor ir heater st = record {
  motor = if not (is_empty motor) && is_status motor then motor else st.motor;
  ir = if is_empty ir then st.ir else ir;
  heater = if is_empty heater then st.heater else heater;
}

unfoldable pub is_updated : Text → Text → Text → Bool
is_updated motor ir heater =
    (not (is_empty motor) && is_status motor) || (not (is_empty ir) || not (is_empty heater))

abbrev pub is_blank : DeviceState → Bool
is_blank st = is_empty st.motor && (is_empty st.ir && is_empty st.heater)

module _ (to_std : Text → Text) where
  unfoldable pub device_body : Text → DeviceState → Effect
  unfolding build_json type_code
  device_body ip st = sends (type_code device) (
      build_json (
        (codes "device", to_std ip)
        ∷ (codes "motor", to_std st.motor)
        ∷ (codes "ir", to_std st.ir)
        ∷ (codes "heater", to_std st.heater)
        ∷ []))

  unfoldable pub send_device : Text → Text → Text → Text → Pending → Pending × List Effect
  unfolding is_action set_states is_updated device_body
  send_device ip motor ir heater pending =
      let action = device_body ip (record { motor = motor; ir = ir; heater = heater }) in
      if is_empty ip then (pending, []) else (
        change_at blank ip (set_states motor ir heater) pending,
        (if is_action motor ir heater then action ∷ [] else [])
            ++ (if is_updated motor ir heater then timer_started ∷ [] else []),
      )

  unfoldable pub pending_bodies : Pending → List Effect
  unfolding device_body
  pending_bodies [] = []
  pending_bodies (e ∷ es) =
      if is_blank e.1 then pending_bodies es else device_body e.0 e.1 ∷ pending_bodies es

  unfoldable pub process_pending_states : Pending → Pending × List Effect
  unfolding pending_bodies
  process_pending_states pending = ([], pending_bodies pending)

-- ===== src/Core/Handlers.antt =====
-- The handlers of META, AI and IMAGE, as the thread pool runs them. What is posted to the GUI thread is a list;
-- an exception ends a handler, and nothing is written before its last read.
use with_boost.Common.{
  ℤ, Option, none, some, List, [], ◌∷◌, ◌++◌, Text, codes, is_empty, starts_with, map,
  if◌then◌else◌,
}
use with_boost.Domain.Json.{Json, ◌>>=◌}
use with_boost.Domain.Camera.{DeviceInfo, CameraData}
use with_boost.Domain.Camera.{CameraStore, snapshot, update_device_info, update_ai_info}
use with_boost.Models.AiImageModel.{AiImageEvent}

-- `cam.cameraId.rfind(ip, 0) == 0` over a snapshot.
unfoldable pub matching : {R : Type 0} → Text → List (CameraData R) → List Text
matching ip [] = []
matching ip (cam ∷ cams) =
    if starts_with cam.camera_id ip then cam.camera_id ∷ matching ip cams else matching ip cams

abbrev pub last_value : {V : Type 0} → List V → Option V
last_value [] = none
last_value (v ∷ []) = some v
last_value (v ∷ w ∷ vs) = last_value (w ∷ vs)

module _ (j : Json) where
  open j use {
    Value, Real, real_zero, parse, is_array, is_object, elements, member, value_text, value_int,
    value_real,
  }

  abbrev pub Store : Type 0
  Store = CameraStore Real

  abbrev pub as_array : Option Value → List Value
  as_array none = []
  as_array (some v) = if is_array v then elements v else []

  -- The IP of a message that is an object and has one: a read that throws ends the handler likewise.
  unfoldable pub ip_of : Value → Option Text
  ip_of v =
      let found : Option Text = elim (value_text v (codes "ip")) [
        | none ↦ none
        | some ip ↦ if is_empty ip then none else some ip
      ] in
      if is_object v then found else none

  -- The sensor data of the last entry of a batch.
  unfoldable pub sensor_info : Value → Option (DeviceInfo Real)
  sensor_info v = last_value (as_array (member v (codes "sensor_batch"))) >>= λ latest.
      value_real latest (codes "hum") >>= λ hum. value_real latest (codes "light") >>= λ light.
      value_real latest (codes "tilt") >>= λ tilt. value_real latest (codes "tmp") >>= λ tmp.
      some (record { hum = hum; light = light; tilt = tilt; tmp = tmp })

  unfoldable pub update_all : DeviceInfo Real → List Text → Store → Store
  unfolding update_device_info
  update_all info [] s = s
  update_all info (id ∷ ids) s = update_all info ids (update_device_info real_zero id info s)

  -- For META: the cameras whose rows `updateSensorInfo` is posted for, and the data posted.
  unfoldable pub on_meta : Store → Text → Store × List (Text × DeviceInfo Real)
  unfolding ip_of sensor_info matching update_all snapshot
  on_meta s json = elim (ip_of (parse json)) [
    | none ↦ (s, [])
    | some ip ↦ elim (sensor_info (parse json)) [
      | none ↦ (s, [])
      | some info ↦
          let ids = matching ip (snapshot s) in (update_all info ids s, map (λ id. (id, info)) ids)
    ]
  ]

  unfoldable pub count_all : ℤ → List Text → Store → Store
  unfolding update_ai_info
  count_all count [] s = s
  count_all count (id ∷ ids) s =
      count_all count ids
        (update_ai_info real_zero id (record { img = []; person_count = count ∷ [] }) s)

  -- For AI, its second task: the number of persons.
  unfoldable pub on_ai : Store → Text → Store
  unfolding ip_of matching count_all snapshot
  on_ai s json = elim (ip_of (parse json)) [
    | none ↦ s
    | some ip ↦ elim (member (parse json) (codes "person_count")) [
      | none ↦ s
      | some present ↦ elim (value_int (parse json) (codes "person_count")) [
        | none ↦ s
        | some count ↦ count_all count (matching ip (snapshot s)) s
      ]
    ]
  ]

  -- `value_long` is `value` for a `long long`, `from_std` is `QString::fromStdString`, and `to_base64` is
  -- `QByteArray::toBase64`.
  module _ (value_long : Value → Text → Option ℤ) (from_std : Text → Text)
      (to_base64 : Text → Text) where
    -- The event of an image without its camera and its data.
    unfoldable pub described : Value → Option AiImageEvent
    described v = value_text v (codes "device_id") >>= λ device.
        value_int v (codes "track_id") >>= λ track. value_int v (codes "frame_index") >>= λ frame.
        value_int v (codes "total_frames") >>= λ total.
        value_long v (codes "timestamp_ms") >>= λ timestamp. some (record {
          camera_id = [];
          device_name = from_std device;
          track_id = track;
          frame_index = frame;
          total_frames = total;
          timestamp = timestamp;
          base64_image = [];
        })

    -- `b64 = std::move(base64)` inside the loop: a moved-from `QString` is null, so empty.
    unfoldable pub image_posts : AiImageEvent → Text → List Text → List AiImageEvent
    image_posts ev base64 [] = []
    image_posts ev base64 (id ∷ ids) =
        record ev { camera_id = from_std id; base64_image = base64 } ∷ image_posts ev [] ids

    abbrev pub or_first : Text → List Text → List Text
    or_first ip ids = if is_empty ids then (ip ++ codes "/0") ∷ [] else ids

    -- For IMAGE: the calls of `onImageReceivedBase64` that are posted.
    unfoldable pub on_image : Store → Text → Text → List AiImageEvent
    unfolding ip_of described matching image_posts snapshot
    on_image s jpeg json = elim (ip_of (parse json)) [
      | none ↦ []
      | some ip ↦ elim (described (parse json)) [
        | none ↦ []
        | some ev ↦
            image_posts ev (codes "data:image/jpeg;base64," ++ to_base64 jpeg)
              (or_first ip (matching ip (snapshot s)))
      ]
    ]

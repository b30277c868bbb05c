-- ===== src/Core/Examples.antt =====
-- Two cameras whose IPs begin alike.
use with_boost.Common.{
  ℕ, ℤ, pos, ◌≡◌, refl, true, ◌&&◌, Option, none, some, [], ◌∷◌, ◌++◌, Text, codes, text_eq, ◌==◌,
  if◌then◌else◌, starts_with, map, take, drop, is_empty, All,
}
use with_boost.Domain.Json.{Json}
use with_boost.Domain.Camera.{DeviceInfo, CameraData, no_reading, snapshot}
use with_boost.Models.AiImageModel.{AiImageEvent}
use with_boost.Core.{Store, on_meta, on_image, ip_of, sensor_info, described, matching}
use with_boost.Core.ByIp.{data_of, is_listed, on_meta-data}
use with_boost.Core.Images.{on_image-first}

-- Values as numbers: 1 is an object with a batch, whose only entry is 3, and 2 the batch.
abbrev sample : Json
sample = record {
  Value = ℕ;
  Real = ℕ;
  real_zero = 0;
  parse = λ t. 1;
  is_array = λ v. v == 2;
  is_object = λ v. v == 1;
  elements = λ v. if v == 2 then 3 ∷ [] else [];
  member = λ v key. if text_eq key (codes "sensor_batch") then some 2 else none;
  value_text = λ v key. some (if text_eq key (codes "ip") then codes "10.0.0.1" else []);
  value_bool = λ v key. some true;
  value_int = λ v key. some (pos 5);
  value_real = λ v key. some 9;
}

abbrev row : Text → CameraData ℕ
row id = record {
  title = [];
  camera_type = [];
  is_online = true;
  camera_id = id;
  device_info = no_reading 0;
}

abbrev two_cameras : Store sample
two_cameras = record {
  data_ = row (codes "10.0.0.1/1") ∷ row (codes "10.0.0.12/1") ∷ [];
  table = [];
}

abbrev nines : DeviceInfo ℕ
nines = record { hum = 9; light = 9; tilt = 9; tmp = 9 }

on_meta-data_example : data_of sample (on_meta sample two_cameras []).0 (codes "10.0.0.12/1") ≡ (
    if is_listed (codes "10.0.0.12/1") (snapshot two_cameras)
      && starts_with (codes "10.0.0.12/1") (codes "10.0.0.1")
    then nines
    else data_of sample two_cameras (codes "10.0.0.12/1"))
unfolding ip_of sensor_info text_eq
on_meta-data_example =
    on_meta-data sample two_cameras [] (codes "10.0.0.1") nines refl refl (codes "10.0.0.12/1")

abbrev five : ℕ → Text → Option ℤ
five v key = some (pos 5)

abbrev event : AiImageEvent
event = record {
  camera_id = [];
  device_name = [];
  track_id = pos 5;
  frame_index = pos 5;
  total_frames = pos 5;
  timestamp = pos 5;
  base64_image = [];
}

on_image-first_example :
    let posts = on_image sample five (λ t. t) (λ t. t) two_cameras (255 ∷ []) [] in
    (map (λ e. e.camera_id) posts ≡ map (λ t. t) (codes "10.0.0.1/1" ∷ codes "10.0.0.12/1" ∷ []))
    × (map (λ e. e.base64_image) (take 1 posts)
        ≡ (codes "data:image/jpeg;base64," ++ 255 ∷ []) ∷ [])
    × All (λ e. is_empty e.base64_image ≡ true) (drop 1 posts)
unfolding ip_of described text_eq matching starts_with snapshot
on_image-first_example =
    on_image-first sample five (λ t. t) (λ t. t) two_cameras (255 ∷ []) [] (codes "10.0.0.1")
      (codes "10.0.0.1/1") (codes "10.0.0.12/1" ∷ []) event refl refl refl

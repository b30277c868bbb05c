-- ===== src/Domain/Device/Examples.antt =====
-- Packets of two devices.
use mathlib.Core.Option
use with_boost.Common.{
  index_of, ℕ, pos, ◌≡◌, refl, Bool, true, false, none, some, List, [], ◌∷◌, ◌++◌, Text, codes,
  text_eq, ◌==◌, if◌then◌else◌,
}
use with_boost.Domain.Json.{Json}
use with_boost.Domain.Device.{
  DeviceIntegrated, new_device, find_device, camera_devices, camera_id_of, update_items,
  update_from_camera_json, done,
}
use with_boost.Domain.Device.CameraId.{camera_id_of_lem, stream_url}
use with_boost.Domain.Device.View.{or_else, set_offline, update_from_camera_json_lem}
use with_boost.Domain.Device.Available.{packet_meaning, update_items-view, view}
use with_boost.Domain.Device.Bounded.{camera, available, run, run-HasBounds}
use with_boost.Domain.Device.Bounds.{HasBounds}

camera_id_of_lem_example :
    camera_id_of
      (codes "10.0.0.5")
      (stream_url (codes "rtsp://") (codes "10.0.0.5") (codes ":8554") (codes "1") (codes "main"))
    ≡ codes "10.0.0.5/1"
unfolding index_of
camera_id_of_lem_example =
    camera_id_of_lem (codes "rtsp://") (codes "10.0.0.5") (codes ":8554") (codes "1") (codes "main")
      refl refl refl

abbrev door : Text
door = codes "10.0.0.5"

abbrev yard : Text
yard = codes "10.0.0.6"

-- Values as numbers: 0 stands for a bad text, 1 for an array of the items 3 and 4, and 2 for an object
-- whose member "devices" is that array. A read of "temp" throws at the item 4.
abbrev sample : Json
sample = record {
  Value = ℕ;
  Real = ℕ;
  real_zero = 0;
  parse =
      λ t. if text_eq t (codes "cameras") then 1 else if text_eq t (codes "devices") then 2 else 0;
  is_array = λ v. v == 1;
  is_object = λ v. if v == 0 then false else if v == 1 then false else true;
  elements = λ v. if v == 1 then 3 ∷ 4 ∷ [] else [];
  member = λ v key. if v == 2 then some 1 else none;
  value_text = λ v key.
      if text_eq key (codes "ip")
      then some (if v == 3 then door else yard)
      else if text_eq key (codes "type")
      then some (codes "SUB_PI")
      else some [];
  value_bool = λ v key. some (v == 3);
  value_int = λ v key. some (pos 5);
  value_real =
      λ v key. if v == 4 then if text_eq key (codes "temp") then none else some 8 else some 9;
}

abbrev old_device : DeviceIntegrated ℕ
old_device = record (new_device 0 (codes "10.0.0.7")) { is_online = true }

abbrev camera_device_of : Text → Bool → DeviceIntegrated ℕ
camera_device_of ip online = record (new_device 0 ip) {
  camera_id = ip ++ codes "/0";
  type = codes "SUB_PI";
  is_online = online;
}

abbrev from_packet : List (DeviceIntegrated ℕ)
from_packet = camera_device_of door true ∷ camera_device_of yard false ∷ []

abbrev stored : List (DeviceIntegrated ℕ)
stored = from_packet ++ set_offline old_device ∷ []

from_packet-camera_devices : camera_devices sample (old_device ∷ []) (3 ∷ 4 ∷ []) ≡ some from_packet
unfolding camera_devices text_eq
from_packet-camera_devices = refl

update_from_camera_json_lem_example :
    let (after, ending) = update_from_camera_json sample (old_device ∷ []) (codes "cameras") in
    (ending ≡ done after)
    × (find_device (codes "10.0.0.7") after
        ≡ or_else
            (find_device (codes "10.0.0.7") from_packet)
            (Option.map set_offline (find_device (codes "10.0.0.7") (old_device ∷ []))))
unfolding text_eq
update_from_camera_json_lem_example =
    update_from_camera_json_lem sample (old_device ∷ []) from_packet (codes "cameras")
      (codes "10.0.0.7") refl from_packet-camera_devices

update_items-view_example :
    let (ds, ok) = update_items sample (pos 100) stored (3 ∷ 4 ∷ []) in
    (view sample ds, ok) ≡ packet_meaning sample (pos 100) (view sample stored) (3 ∷ 4 ∷ [])
update_items-view_example = update_items-view sample (pos 100) stored (3 ∷ 4 ∷ [])

run-HasBounds_example :
    HasBounds sample
      (run sample [] (camera (codes "cameras") ∷ available (pos 100) (codes "devices") ∷ []))
run-HasBounds_example =
    run-HasBounds sample [] (camera (codes "cameras") ∷ available (pos 100) (codes "devices") ∷ [])
      tt

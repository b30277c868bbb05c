-- ===== src/Domain/Device/Packets.antt =====
-- The CAMERA and AVAILABLE packets of a DeviceStore.
use mathlib.Core.Option
use with_boost.Common.{
  ◌+◌, ◌-◌, ℤ, Bool, true, false, not, Option, none, some, List, [], ◌∷◌, ◌++◌, Text, codes,
  text_eq, ltb, if◌then◌else◌, length, is_empty, find_from, substr,
}
use with_boost.Domain.Json.{Json, ◌>>=◌}
use with_boost.Domain.Device.Data.{
  DeviceIntegrated, DeviceSnapshot, new_device, add_snapshot, find_device, has_device,
}

-- The part of the URL between the first two slashes behind the IP, appended to the IP; empty where
-- there is no such part.
unfoldable pub stream_id : Text → Text → Text
unfolding find_from
stream_id ip url =
    let found : Option Text = find_from ip 0 url >>= λ at.
    find_from (codes "/") (at + length ip) url >>= λ slash.
    if ltb (slash + 1) (length url)
    then Option.map (λ next. ip ++ codes "/" ++ substr url (slash + 1) (next - slash - 1))
        (find_from (codes "/") (slash + 1) url)
    else none in
    if is_empty url then [] else elim found [ none ↦ [] | some id ↦ id ]

unfoldable pub camera_id_of : Text → Text → Text
unfolding stream_id
camera_id_of ip url = let id = stream_id ip url in if is_empty id then ip ++ codes "/0" else id

-- What a packet does: it is dropped, it ends with the call of the callback, or an exception leaves the
-- operation.
pub data Ending (A : Type 0) : Type 0 where
  dropped : Ending A
  done : A → Ending A
  threw : Ending A

module _ (j : Json) where
  open j use {
    Value, Real, real_zero, parse, is_array, is_object, elements, member, value_text, value_bool,
    value_int, value_real,
  }

  abbrev pub Devices : Type 0
  Devices = List (DeviceIntegrated Real)

  abbrev pub known_device : Devices → Text → DeviceIntegrated Real
  known_device devices ip = elim (find_device ip devices) [
    | none ↦ new_device real_zero ip
    | some d ↦ d
  ]

  -- The device that an item of a CAMERA packet describes: outside `none` is an exception, inside it an
  -- item that is passed over.
  unfoldable pub camera_device : Devices → Value → Option (Option (DeviceIntegrated Real))
  unfolding find_device camera_id_of
  camera_device devices item =
      let described : Text → Option (Option (DeviceIntegrated Real)) = λ ip. do
        url ← value_text item (codes "source_url")
        type ← value_text item (codes "type")
        online ← value_bool item (codes "is_online")
        some (
            some (record (known_device devices ip) {
              camera_id = camera_id_of ip url;
              type = type;
              is_online = online;
              has_motor = text_eq type (codes "SUB_PI");
              has_ir = false;
              has_heater = false;
            }))
      in let read : Option (Option (DeviceIntegrated Real)) =
          value_text item (codes "ip") >>= λ ip. if is_empty ip then some none else described ip in
        if not (is_object item) then some none else read

  abbrev pub push_some : Option (DeviceIntegrated Real) → Devices → Devices
  push_some none ds = ds
  push_some (some d) ds = d ∷ ds

  unfoldable pub camera_devices : Devices → List Value → Option Devices
  unfolding camera_device
  camera_devices devices [] = some []
  camera_devices devices (item ∷ items) = do
    found ← camera_device devices item
    rest ← camera_devices devices items
    some (push_some found rest)

  -- The devices that the packet does not name are set offline and kept behind the others.
  unfoldable pub keep_absent : Devices → Devices → Devices
  unfolding has_device
  keep_absent merged [] = merged
  keep_absent merged (old ∷ olds) =
      let kept = merged ++ record old { is_online = false } ∷ [] in
      keep_absent (if has_device merged old.ip then merged else kept) olds

  -- The devices after the packet, and how it ended.
  unfoldable pub update_from_camera_json : Devices → Text → Devices × Ending Devices
  unfolding camera_devices keep_absent
  update_from_camera_json devices json =
      let merge : Devices × Ending Devices = elim (camera_devices devices (elements (parse json))) [
        | none ↦ (devices, threw)
        | some merged ↦ let all = keep_absent merged devices in (all, done all)
      ] in
      if not (is_array (parse json)) then (devices, dropped) else merge

  -- The readings of an item are written one by one: an exception leaves the earlier ones written.
  unfoldable pub read_into : ℤ → Value → DeviceIntegrated Real → DeviceIntegrated Real × Bool
  unfolding add_snapshot
  read_into now item d = elim (value_real item (codes "cpu")) [
    | none ↦ (d, false)
    | some cpu ↦ elim (value_real item (codes "memory")) [
      | none ↦ (record d { cpu = cpu }, false)
      | some memory ↦ elim (value_real item (codes "temp")) [
        | none ↦ (record d { cpu = cpu; memory = memory }, false)
        | some temp ↦ elim (value_int item (codes "uptime")) [
          | none ↦ (record d { cpu = cpu; memory = memory; temp = temp }, false)
          | some uptime ↦
              let snap : DeviceSnapshot Real = record {
                timestamp = now;
                cpu = cpu;
                memory = memory;
                temp = temp;
                uptime = uptime;
              } in
              let read = record d {
                cpu = cpu;
                memory = memory;
                temp = temp;
                uptime = uptime;
                last_update = now;
              } in
              (add_snapshot read snap, true)
        ]
      ]
    ]
  ]

  -- The first device with the IP is changed in place; where there is none, a new one is put at the end.
  unfoldable pub update_device :
      Text → (DeviceIntegrated Real → DeviceIntegrated Real × Bool) → Devices → Devices × Bool
  update_device ip change [] = let (d, ok) = change (new_device real_zero ip) in (d ∷ [], ok)
  update_device ip change (d ∷ ds) =
      let (d', ok) = change d in
      let (ds', ok') = update_device ip change ds in
      if text_eq d.ip ip then (d' ∷ ds, ok) else (d ∷ ds', ok')

  unfoldable pub update_item : ℤ → Devices → Value → Devices × Bool
  unfolding read_into update_device
  update_item now devices item =
      let named : Devices × Bool = elim (value_text item (codes "ip")) [
        | none ↦ (devices, false)
        | some ip ↦
            if is_empty ip then (devices, true) else update_device ip (read_into now item) devices
      ] in
      if not (is_object item) then (devices, true) else named

  unfoldable pub update_items : ℤ → Devices → List Value → Devices × Bool
  unfolding update_item
  update_items now devices [] = (devices, true)
  update_items now devices (item ∷ items) =
      let (devices', ok) = update_item now devices item in
      let rest = update_items now devices' items in if ok then rest else (devices', false)

  -- The member "devices", where it is an array.
  abbrev pub listed : Option Value → List Value
  listed none = []
  listed (some v) = if is_array v then elements v else []

  unfoldable pub update_from_available_json : ℤ → Devices → Text → Devices × Ending Devices
  unfolding update_items
  update_from_available_json now devices json =
      let value = parse json in
      let (devices', ok) = update_items now devices (listed (member value (codes "devices"))) in
      if not (is_object value)
      then (devices, dropped)
      else (devices', if ok then done devices' else threw)

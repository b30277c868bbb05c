-- ===== src/Models/DeviceModel.antt =====
-- Qt/Back/Models/DeviceModel.hpp and DeviceModel.cpp. A row has the members of `DeviceIntegrated`, its texts converted by
-- `from_std`, which is `QString::fromStdString`.
pub mod Rows
mod Examples
use with_boost.Common.{
  ℕ, zero, suc, Bool, true, false, Option, none, some, List, [], ◌∷◌, ◌++◌, Text, text_eq, length,
  modify, get_elem?, if◌then◌else◌,
}
use with_boost.Domain.Device.{DeviceIntegrated, DeviceSnapshot}

-- `byIp_` has the newest entry of a key first.
pub record DeviceModel (R : Type 0) : Type 0 where
  pub devices : List (DeviceIntegrated R)
  pub by_ip : List (Text × ℕ)

pub data Signal : Type 0 where
  data_changed : ℕ → Signal
  row_inserted : ℕ → Signal
  history_updated : Text → Signal

unfoldable pub find_index_by_ip : List (Text × ℕ) → Text → Option ℕ
find_index_by_ip [] ip = none
find_index_by_ip (e ∷ es) ip = if text_eq e.0 ip then some e.1 else find_index_by_ip es ip

module _ {R : Type 0} where
  unfoldable pub entry_of : (Text → Text) → DeviceIntegrated R → DeviceIntegrated R
  entry_of from_std snap = record snap {
    ip = from_std snap.ip;
    camera_id = from_std snap.camera_id;
    type = from_std snap.type;
  }

  -- All but the IP of a row is written.
  unfoldable pub updated :
      (Text → Text) → DeviceIntegrated R → DeviceIntegrated R → DeviceIntegrated R
  unfolding entry_of
  updated from_std snap row = record (entry_of from_std snap) { ip = row.ip }

  -- One device of a snapshot; the index is that from before the snapshot.
  unfoldable pub update_row :
      (Text → Text)
      → List (Text × ℕ)
      → DeviceIntegrated R
      → List (DeviceIntegrated R)
      → List (DeviceIntegrated R) × List Signal
  unfolding find_index_by_ip updated
  update_row from_std by_ip snap rows = elim (find_index_by_ip by_ip (from_std snap.ip)) [
    | none ↦ (
      rows ++ entry_of from_std snap ∷ [],
      row_inserted (length rows) ∷ history_updated (from_std snap.ip) ∷ [],
    )
    | some i ↦ (
      modify i (updated from_std snap) rows,
      data_changed i ∷ history_updated (from_std snap.ip) ∷ [],
    )
  ]

  unfoldable pub update_rows :
      (Text → Text)
      → List (Text × ℕ)
      → List (DeviceIntegrated R)
      → List (DeviceIntegrated R)
      → List (DeviceIntegrated R) × List Signal
  unfolding update_row
  update_rows from_std by_ip [] rows = (rows, [])
  update_rows from_std by_ip (snap ∷ snaps) rows =
      let (rows', out) = update_row from_std by_ip snap rows in
      let (rows'', more) = update_rows from_std by_ip snaps rows' in (rows'', out ++ more)

  -- The loop that fills the index, from a row number on.
  unfoldable pub index_rows : ℕ → List (DeviceIntegrated R) → List (Text × ℕ) → List (Text × ℕ)
  index_rows i [] by_ip = by_ip
  index_rows i (row ∷ rows) by_ip = index_rows (suc i) rows ((row.ip, i) ∷ by_ip)

  unfoldable pub on_store_updated :
      (Text → Text) → List (DeviceIntegrated R) → DeviceModel R → DeviceModel R × List Signal
  unfolding update_rows index_rows
  on_store_updated from_std snapshot m =
      let (rows, out) = update_rows from_std m.by_ip snapshot m.devices in
      (record { devices = rows; by_ip = index_rows 0 rows [] }, out)

  abbrev pub row_at : List (DeviceIntegrated R) → Option ℕ → Option (DeviceIntegrated R)
  row_at rows none = none
  row_at rows (some i) = get_elem? rows i

  -- The row that the index has for an IP.
  unfoldable pub row_by_ip : DeviceModel R → Text → Option (DeviceIntegrated R)
  unfolding find_index_by_ip
  row_by_ip m ip = row_at m.devices (find_index_by_ip m.by_ip ip)

  unfoldable pub has_device : DeviceModel R → Text → Bool
  unfolding find_index_by_ip
  has_device m ip = elim (find_index_by_ip m.by_ip ip) [ none ↦ false | some i ↦ true ]

  unfoldable pub camera_id : DeviceModel R → Text → Text
  unfolding row_by_ip
  camera_id m ip = elim (row_by_ip m ip) [ none ↦ [] | some d ↦ d.camera_id ]

  unfoldable pub cpu : R → DeviceModel R → Text → R
  unfolding row_by_ip
  cpu z m ip = elim (row_by_ip m ip) [ none ↦ z | some d ↦ d.cpu ]

  unfoldable pub memory : R → DeviceModel R → Text → R
  unfolding row_by_ip
  memory z m ip = elim (row_by_ip m ip) [ none ↦ z | some d ↦ d.memory ]

  unfoldable pub temp : R → DeviceModel R → Text → R
  unfolding row_by_ip
  temp z m ip = elim (row_by_ip m ip) [ none ↦ z | some d ↦ d.temp ]

  unfoldable pub get_history : DeviceModel R → Text → List (DeviceSnapshot R)
  unfolding row_by_ip
  get_history m ip = elim (row_by_ip m ip) [ none ↦ [] | some d ↦ d.history ]

  -- The first row with the identifier.
  unfoldable pub row_by_camera_id : List (DeviceIntegrated R) → Text → Option (DeviceIntegrated R)
  row_by_camera_id [] id = none
  row_by_camera_id (row ∷ rows) id =
      if text_eq row.camera_id id then some row else row_by_camera_id rows id

  unfoldable pub device_ip : DeviceModel R → Text → Text
  unfolding row_by_camera_id
  device_ip m id = elim (row_by_camera_id m.devices id) [ none ↦ [] | some d ↦ d.ip ]

  unfoldable pub has_motor : DeviceModel R → Text → Bool
  unfolding row_by_camera_id
  has_motor m id = elim (row_by_camera_id m.devices id) [ none ↦ false | some d ↦ d.has_motor ]

  unfoldable pub has_ir : DeviceModel R → Text → Bool
  unfolding row_by_camera_id
  has_ir m id = elim (row_by_camera_id m.devices id) [ none ↦ false | some d ↦ d.has_ir ]

  unfoldable pub has_heater : DeviceModel R → Text → Bool
  unfolding row_by_camera_id
  has_heater m id = elim (row_by_camera_id m.devices id) [ none ↦ false | some d ↦ d.has_heater ]

  unfoldable pub has_device_by_camera_id : DeviceModel R → Text → Bool
  unfolding row_by_camera_id
  has_device_by_camera_id m id = elim (row_by_camera_id m.devices id) [
    | none ↦ false
    | some d ↦ true
  ]

  unfoldable pub clear_all : DeviceModel R → DeviceModel R
  clear_all m = record { devices = []; by_ip = [] }

-- ===== src/Models/CameraModel/Store.antt =====
-- `onStoreUpdated` as a whole: refresh, new rows, automatic splits.
use with_boost.Common.{
  ℕ, zero, suc, ◌+◌, ◌-◌, negsuc, Bool, true, false, ◌&&◌, ◌||◌, Option, none, some, List, [], ◌∷◌,
  ◌++◌, map, Text, text_eq, ◌==◌, if◌then◌else◌, length,
}
use with_boost.Domain.Camera.{CameraData, DeviceInfo, SplitDirection, no_reading}
use with_boost.Models.CameraModel.Entry.{
  CameraEntry, CameraModel, Signal, rows_inserted, sensor_data_updated, full_frame,
  emit_slots_updated, has_text,
}
use with_boost.Models.CameraModel.Update.{snapshot_by_cid, find, refresh, refresh_signals}
use with_boost.Models.CameraModel.AutoSplit.{Env, apply_auto_split_for_slot}

abbrev is_known {ℓ} : {A : Type ℓ} → Option A → Bool
is_known none = false
is_known (some a) = true

inserted_signal : ℕ → ℕ → List Signal
inserted_signal at zero = []
inserted_signal at (suc n) = rows_inserted at (at + n) ∷ []

module _ {R : Type 0} where
  -- `representedCids`: the cameras of the snapshot that have a row.
  unfoldable pub represented_cids : List (Text × CameraData R) → List (CameraEntry R) → List Text
  unfolding find
  represented_cids by_cid [] = []
  represented_cids by_cid (e ∷ es) =
      let rest = represented_cids by_cid es in
      if is_known (find e.camera_id by_cid) then e.camera_id ∷ rest else rest

  unfoldable pub new_entry : Env R → ℕ → Text → CameraData R → CameraEntry R
  new_entry v slot_id cid snap = record {
    slot_id = slot_id;
    title = v.from_std snap.title;
    camera_id = cid;
    is_online = snap.is_online;
    camera_type = v.from_std snap.camera_type;
    split_count = 1;
    split_direction = SplitDirection.none;
    crop_rect = full_frame;
    split_group_id = negsuc 0;
    split_index = 0;
    description = [];
    width = 320;
    height = 240;
    device_info = no_reading v.zero_real;
  }

  -- The rows for the cameras that have none, with the slot ids from `next` on.
  unfoldable pub new_entries :
      Env R → List Text → ℕ → List (Text × CameraData R) → List (CameraEntry R)
  unfolding new_entry
  new_entries v known next [] = []
  new_entries v known next ((cid, snap) ∷ more) =
      let skip = new_entries v known next more in
      let made = new_entry v next cid snap ∷ new_entries v known (suc next) more in
      if has_text cid known then skip else made

  -- The rows that may be split automatically.
  unfoldable pub candidate_slots : List (CameraEntry R) → List ℕ
  candidate_slots [] = []
  candidate_slots (e ∷ es) =
      let rest = candidate_slots es in
      if (e.split_count == 1) && e.is_online then e.slot_id ∷ rest else rest

  unfoldable pub auto_split_all : Env R → List ℕ → CameraModel R → CameraModel R × List Signal
  unfolding apply_auto_split_for_slot
  auto_split_all v [] m = (m, [])
  auto_split_all v (slot_id ∷ slot_ids) m =
      let (done, m', out) = apply_auto_split_for_slot v m slot_id in
      let (m'', more) = auto_split_all v slot_ids m' in (m'', out ++ more)

  -- The model with every row refreshed and the new rows appended.
  unfoldable pub synchronised : Env R → CameraModel R → List (CameraData R) → CameraModel R
  unfolding refresh new_entries represented_cids snapshot_by_cid
  synchronised v m snapshot =
      let by_cid = snapshot_by_cid v.from_std snapshot [] in
      let fresh =
        new_entries v (represented_cids by_cid m.cameras) m.next_slot_id (v.hash_order by_cid) in
      record m {
        next_slot_id = m.next_slot_id + length fresh;
        cameras = map (refresh v.from_std by_cid) m.cameras ++ fresh;
      }

  unfoldable pub on_store_updated :
      Env R → CameraModel R → List (CameraData R) → CameraModel R × List Signal
  unfolding synchronised auto_split_all candidate_slots refresh_signals inserted_signal
  on_store_updated v m snapshot =
      let by_cid = snapshot_by_cid v.from_std snapshot [] in
      let m' = synchronised v m snapshot in
      let (m'', out) = auto_split_all v (candidate_slots m'.cameras) m' in
      (
        m'',
        refresh_signals v.from_std by_cid 0 m.cameras
            ++ (inserted_signal (length m.cameras) (length m'.cameras - length m.cameras)
                ++ (emit_slots_updated m' ++ out)),
      )

  -- The sensor data of every row of the camera.
  unfoldable pub with_sensors : Text → DeviceInfo R → CameraEntry R → CameraEntry R
  with_sensors cid info e = if text_eq e.camera_id cid then record e { device_info = info } else e

  any_camera : Text → List (CameraEntry R) → Bool
  any_camera cid [] = false
  any_camera cid (e ∷ es) = text_eq e.camera_id cid || any_camera cid es

  unfoldable pub update_sensor_info :
      CameraModel R → Text → DeviceInfo R → CameraModel R × List Signal
  unfolding with_sensors any_camera
  update_sensor_info m cid info = (
    record m { cameras = map (with_sensors cid info) m.cameras },
    if any_camera cid m.cameras then sensor_data_updated cid ∷ [] else [],
  )

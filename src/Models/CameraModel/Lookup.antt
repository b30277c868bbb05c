-- ===== src/Models/CameraModel/Lookup.antt =====
-- The lookups by slot id and by camera id.
use with_boost.Common.{
  ℕ, ℤ, pos, negsuc, Bool, true, false, Option, none, some, List, [], ◌∷◌, Text, text_eq, ltb,
  if◌then◌else◌, get_elem?,
}
use with_boost.Domain.Camera.{DeviceInfo}
use with_boost.Models.CameraModel.Entry.{CameraEntry, CameraModel, CropRect, full_frame}
use with_boost.Models.CameraModel.AutoSplit.{index_by_slot_id}

module _ {R : Type 0} where
  -- The row of a slot.
  unfoldable pub entry_of_slot : CameraModel R → ℕ → Option (CameraEntry R)
  unfolding index_by_slot_id
  entry_of_slot m slot_id = elim (index_by_slot_id m slot_id) [
    | none ↦ none
    | some i ↦ get_elem? m.cameras i
  ]

  unfoldable pub is_slot_split : CameraModel R → ℕ → Bool
  unfolding entry_of_slot
  is_slot_split m slot_id = elim (entry_of_slot m slot_id) [
    | none ↦ false
    | some e ↦ ltb 1 e.split_count
  ]

  unfoldable pub row_for_slot : CameraModel R → ℕ → ℤ
  unfolding index_by_slot_id
  row_for_slot m slot_id = elim (index_by_slot_id m slot_id) [ none ↦ negsuc 0 | some i ↦ pos i ]

  unfoldable pub has_slot : CameraModel R → ℕ → Bool
  unfolding index_by_slot_id
  has_slot m slot_id = elim (index_by_slot_id m slot_id) [ none ↦ false | some i ↦ true ]

  unfoldable pub title_for_slot : CameraModel R → ℕ → Text
  unfolding entry_of_slot
  title_for_slot m slot_id = elim (entry_of_slot m slot_id) [ none ↦ [] | some e ↦ e.title ]

  unfoldable pub is_online_for_slot : CameraModel R → ℕ → Bool
  unfolding entry_of_slot
  is_online_for_slot m slot_id = elim (entry_of_slot m slot_id) [
    | none ↦ false
    | some e ↦ e.is_online
  ]

  unfoldable pub crop_rect_for_slot : CameraModel R → ℕ → CropRect
  unfolding entry_of_slot
  crop_rect_for_slot m slot_id = elim (entry_of_slot m slot_id) [
    | none ↦ full_frame
    | some e ↦ e.crop_rect
  ]

  unfoldable pub camera_id_for_slot : CameraModel R → ℕ → Text
  unfolding entry_of_slot
  camera_id_for_slot m slot_id = elim (entry_of_slot m slot_id) [ none ↦ [] | some e ↦ e.camera_id ]

  -- The sensor data of the first row of the camera.
  unfoldable pub sensor_info_for : Text → List (CameraEntry R) → Option (DeviceInfo R)
  sensor_info_for cid [] = none
  sensor_info_for cid (e ∷ es) =
      if text_eq e.camera_id cid then some e.device_info else sensor_info_for cid es

  -- `none` is the empty object.
  unfoldable pub sensor_info_for_camera_id : CameraModel R → Text → Option (DeviceInfo R)
  unfolding sensor_info_for
  sensor_info_for_camera_id m cid = sensor_info_for cid m.cameras

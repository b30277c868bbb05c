-- ===== src/Models/CameraModel/Entry.antt =====
-- The rows and the state of CameraModel, its signals, and `_emitSlotsUpdated`.
use with_boost.Common.{
  ℕ, ℤ, Bool, true, false, ◌&&◌, not, List, [], ◌∷◌, map, Text, text_eq, is_empty, if◌then◌else◌,
}
use with_boost.Domain.Camera.{DeviceInfo, SplitDirection}

-- `1.0` in the unit in which the doubles of a crop rectangle are counted, which is 2 to the -54th: the last place of a
-- double between a quarter and a half, such as a third.
abbrev pub one : ℕ
one = 18014398509481984

-- A `QRectF` in the unit square, its coordinates counted in that unit.
pub record CropRect : Type 0 where
  pub x : ℕ
  pub y : ℕ
  pub width : ℕ
  pub height : ℕ

-- `{0, 0, 1, 1}`.
abbrev pub full_frame : CropRect
full_frame = record { x = 0; y = 0; width = one; height = one }

pub record CameraEntry (R : Type 0) : Type 0 where
  pub slot_id : ℕ
  pub title : Text
  pub camera_id : Text
  pub is_online : Bool
  pub camera_type : Text
  pub split_count : ℕ
  pub split_direction : SplitDirection
  pub crop_rect : CropRect
  pub split_group_id : ℤ
  pub split_index : ℕ
  pub description : Text
  pub width : ℕ
  pub height : ℕ
  pub device_info : DeviceInfo R

pub record SlotInfo : Type 0 where
  pub slot_id : ℕ
  pub camera_id : Text

pub record CameraModel (R : Type 0) : Type 0 where
  pub next_slot_id : ℕ
  pub next_split_group_id : ℕ
  pub cameras : List (CameraEntry R)
  pub auto_split_applied_slot_ids : List ℕ

pub data Role : Type 0 where
  slot_id_role title_role is_online_role description_role card_width_role : Role
  card_height_role camera_type_role split_count_role crop_rect_role : Role
  split_direction_role camera_id_role : Role

-- What the model emits; `data_changed` with no role speaks of every role.
pub data Signal : Type 0 where
  data_changed : ℕ → List Role → Signal
  rows_removed : ℕ → ℕ → Signal
  rows_inserted : ℕ → ℕ → Signal
  model_reset : Signal
  slots_updated : List SlotInfo → Signal
  camera_ids_updated : List Text → Signal
  camera_online : Text → Signal
  sensor_data_updated : Text → Signal

-- `QSet<QString>::contains`.
abbrev pub has_text : Text → List Text → Bool
has_text t [] = false
has_text t (s ∷ ss) = if text_eq t s then true else has_text t ss

module _ {R : Type 0} where
  -- A default-constructed model.
  abbrev pub empty_model : CameraModel R
  empty_model = record {
    next_slot_id = 0;
    next_split_group_id = 1;
    cameras = [];
    auto_split_applied_slot_ids = [];
  }

  abbrev pub slot_info : CameraEntry R → SlotInfo
  slot_info e = record { slot_id = e.slot_id; camera_id = e.camera_id }

  -- The camera ids in row order, each once, the empty one left out.
  unfoldable pub unseen_cids : List Text → List (CameraEntry R) → List Text
  unseen_cids seen [] = []
  unseen_cids seen (e ∷ es) =
      let rest = unseen_cids (e.camera_id ∷ seen) es in
      let skip = unseen_cids seen es in
      if not (is_empty e.camera_id) && not (has_text e.camera_id seen)
      then e.camera_id ∷ rest
      else skip

  unfoldable pub emit_slots_updated : CameraModel R → List Signal
  unfolding unseen_cids
  emit_slots_updated m =
      slots_updated (map slot_info m.cameras) ∷ camera_ids_updated (unseen_cids [] m.cameras) ∷ []

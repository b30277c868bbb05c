-- ===== src/Models/CameraModel/RowData.antt =====
-- What a view reads of a row: `data` and `roleNames`.
use with_boost.Common.{ℕ, Bool, Option, none, some, List, [], ◌∷◌, Text, codes, get_elem?}
use with_boost.Domain.Camera.{direction_code}
use with_boost.Models.CameraModel.Entry.{
  CameraEntry, CameraModel, CropRect, Role, slot_id_role, title_role, is_online_role,
  description_role, card_width_role, card_height_role, camera_type_role, split_count_role,
  crop_rect_role, split_direction_role, camera_id_role,
}

-- A `QVariant` of a role.
pub data Variant : Type 0 where
  number : ℕ → Variant
  text_value : Text → Variant
  truth : Bool → Variant
  rect : CropRect → Variant

module _ {R : Type 0} where
  unfoldable pub role_value : Role → CameraEntry R → Variant
  role_value slot_id_role cam = number cam.slot_id
  role_value title_role cam = text_value cam.title
  role_value is_online_role cam = truth cam.is_online
  role_value description_role cam = text_value cam.description
  role_value card_width_role cam = number cam.width
  role_value card_height_role cam = number cam.height
  role_value camera_type_role cam = text_value cam.camera_type
  role_value split_count_role cam = number cam.split_count
  role_value crop_rect_role cam = rect cam.crop_rect
  role_value split_direction_role cam = number (direction_code cam.split_direction)
  role_value camera_id_role cam = text_value cam.camera_id

  -- An invalid `QVariant` where there is no such row.
  unfoldable pub row_data : CameraModel R → ℕ → Role → Option Variant
  unfolding role_value
  row_data m row role = elim (get_elem? m.cameras row) [
    | none ↦ none
    | some cam ↦ some (role_value role cam)
  ]

abbrev pub role_names : List (Role × Text)
role_names =
    (slot_id_role, codes "slotId")
    ∷ (title_role, codes "title")
    ∷ (is_online_role, codes "isOnline")
    ∷ (description_role, codes "description")
    ∷ (card_width_role, codes "cardWidth")
    ∷ (card_height_role, codes "cardHeight")
    ∷ (camera_type_role, codes "cameraType")
    ∷ (split_count_role, codes "splitCount")
    ∷ (crop_rect_role, codes "cropRect")
    ∷ (split_direction_role, codes "splitDirection")
    ∷ (camera_id_role, codes "cameraId")
    ∷ []

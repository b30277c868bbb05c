-- ===== src/Models/CameraModel/Merge.antt =====
-- Merging a group of tiles: `_mergeGroupByIndex`; `swapSlots`, `setOnline` and `clearAll`.
use with_boost.Common.{
  ℕ, suc, ℤ, negsuc, int_eq, is_neg, Bool, true, ◌&&◌, ◌||◌, Option, none, some, List, [], ◌∷◌,
  ◌++◌, Text, codes, last_index_of, ends_with, ltb, leb, ◌==◌, if◌then◌else◌, get_elem?, set,
  remove_at, modify, take, remove,
}
use with_boost.Domain.Camera.{SplitDirection}
use with_boost.Models.CameraModel.Entry.{
  CameraEntry, CameraModel, Signal, data_changed, rows_removed, model_reset, full_frame,
  emit_slots_updated, Role, title_role, is_online_role, description_role, camera_type_role,
  split_count_role, crop_rect_role, split_direction_role, camera_id_role, empty_model,
}
use with_boost.Models.CameraModel.Split.{row_entry, Outcome, refused}

-- The title without the mark of a tile.
unfoldable pub cut_mark : Text → Text
unfolding last_index_of ends_with
cut_mark title = elim (last_index_of (codes " [") title) [
  | none ↦ title
  | some marker ↦ if ltb 0 marker && ends_with title b']' then take marker title else title
]

removal_signals : List ℕ → List Signal
removal_signals [] = []
removal_signals (place ∷ places) = removal_signals places ++ rows_removed place place ∷ []

abbrev swapped_roles : List Role
swapped_roles =
    title_role ∷ is_online_role ∷ description_role ∷ camera_type_role ∷ crop_rect_role
    ∷ split_count_role ∷ split_direction_role ∷ camera_id_role ∷ []

-- A value for `setData`, by its role.
pub data Edit : Type 0 where
  edit_title : Text → Edit
  edit_online : Bool → Edit
  edit_camera_type : Text → Edit
  edit_other : Role → Edit

abbrev pub edit_role : Edit → Role
edit_role (edit_title t) = title_role
edit_role (edit_online b) = is_online_role
edit_role (edit_camera_type t) = camera_type_role
edit_role (edit_other role) = role

module _ {R : Type 0} where
  -- The rows from `i` on whose group is `group`.
  unfoldable pub group_indices : ℤ → ℕ → List (CameraEntry R) → List ℕ
  group_indices group i [] = []
  group_indices group i (e ∷ es) =
      let rest = group_indices group (suc i) es in
      if int_eq e.split_group_id group then i ∷ rest else rest

  unfoldable pub remove_tile : ℕ → CameraModel R → CameraModel R
  remove_tile place m = record m {
    cameras = remove_at place m.cameras;
    auto_split_applied_slot_ids = elim (get_elem? m.cameras place) [
      | none ↦ m.auto_split_applied_slot_ids
      | some e ↦ remove e.slot_id m.auto_split_applied_slot_ids
    ];
  }

  -- The tiles are removed from the last one back.
  unfoldable pub remove_tiles : List ℕ → CameraModel R → CameraModel R
  unfolding remove_tile
  remove_tiles [] m = m
  remove_tiles (place ∷ places) m = remove_tile place (remove_tiles places m)

  -- The first tile becomes the card again, under its own slot id.
  unfoldable pub merged : CameraEntry R → CameraEntry R
  unfolding cut_mark
  merged e = record e {
    title = cut_mark e.title;
    split_count = 1;
    crop_rect = full_frame;
    split_group_id = negsuc 0;
    split_index = 0;
    split_direction = SplitDirection.col;
  }

  unfoldable pub merge_rows : CameraModel R → List ℕ → Outcome R
  unfolding remove_tiles removal_signals merged emit_slots_updated
  merge_rows m [] = refused m
  merge_rows m (first ∷ []) = refused m
  merge_rows m (first ∷ second ∷ places) =
      let kept = remove_tiles (second ∷ places) m in
      let done = record kept { cameras = modify first merged kept.cameras } in
      (
        true,
        done,
        removal_signals (second ∷ places) ++ (data_changed first [] ∷ emit_slots_updated done),
      )

  unfoldable pub merge_group_by_index : CameraModel R → ℤ → Outcome R
  unfolding merge_rows group_indices
  merge_group_by_index m any_tile = elim (row_entry m.cameras any_tile) [
    | none ↦ refused m
    | some (place, target) ↦
        if leb target.split_count 1 || is_neg target.split_group_id
        then refused m
        else merge_rows m (group_indices target.split_group_id 0 m.cameras)
  ]

  -- The second argument is ignored.
  unfoldable pub merge_slots : CameraModel R → ℤ → ℤ → CameraModel R × List Signal
  unfolding merge_group_by_index
  merge_slots m any_tile tile_count =
      let (done, m', out) = merge_group_by_index m any_tile in (m', out)

  -- The entry `a` with every field that `swapSlots` exchanges taken from `b`.
  unfoldable pub with_content : CameraEntry R → CameraEntry R → CameraEntry R
  with_content a b = record b { slot_id = a.slot_id; device_info = a.device_info }

  unfoldable pub swap_rows :
      CameraModel R
      → Option (ℕ × CameraEntry R)
      → Option (ℕ × CameraEntry R)
      → CameraModel R × List Signal
  unfolding with_content emit_slots_updated
  swap_rows m none b = (m, [])
  swap_rows m (some a) none = (m, [])
  swap_rows m (some (i, a)) (some (j, b)) =
      let done = record m {
        cameras = set (set m.cameras i (with_content a b)) j (with_content b a);
      } in
      if i == j then (m, []) else (
        done,
        emit_slots_updated done
            ++ (data_changed i swapped_roles ∷ data_changed j swapped_roles ∷ []),
      )

  unfoldable pub swap_slots : CameraModel R → ℤ → ℤ → CameraModel R × List Signal
  unfolding swap_rows
  swap_slots m index_a index_b =
      swap_rows m (row_entry m.cameras index_a) (row_entry m.cameras index_b)

  unfoldable pub set_online : CameraModel R → ℤ → Bool → CameraModel R × List Signal
  set_online m index online = elim (row_entry m.cameras index) [
    | none ↦ (m, [])
    | some (i, e) ↦ (
      record m { cameras = set m.cameras i (record e { is_online = online }) },
      data_changed i (is_online_role ∷ []) ∷ [],
    )
  ]

  unfoldable pub clear_all : CameraModel R → CameraModel R × List Signal
  unfolding emit_slots_updated
  clear_all m = (empty_model, model_reset ∷ emit_slots_updated {R = R} empty_model)

  -- `setData`: the value as its role reads it; any other role is refused.
  unfoldable pub edited : Edit → CameraEntry R → Option (CameraEntry R)
  edited (edit_title t) e = some (record e { title = t })
  edited (edit_online b) e = some (record e { is_online = b })
  edited (edit_camera_type t) e = some (record e { camera_type = t })
  edited (edit_other role) e = none

  unfoldable pub set_data : CameraModel R → ℕ → Edit → Outcome R
  unfolding edited
  set_data m row edit = elim (get_elem? m.cameras row) [
    | none ↦ refused m
    | some e ↦ elim (edited edit e) [
      | none ↦ refused m
      | some e' ↦ (
        true,
        record m { cameras = set m.cameras row e' },
        data_changed row (edit_role edit ∷ []) ∷ [],
      )
    ]
  ]

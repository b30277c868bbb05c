-- ===== src/Models/CameraModel/Examples.antt =====
-- Runs of a CameraModel on small inputs.
use with_boost.Common.{
  ℕ, ◌+◌, ◌≡◌, refl, pos, negsuc, true, false, some, [], ◌∷◌, ◌++◌, codes, arith, ◌⊎◌, get_elem?,
  rounds,
}
use with_boost.Domain.Camera.{SplitDirection, no_reading, CameraData}
use with_boost.Models.CameraModel.Entry.{CameraEntry, CameraModel, full_frame}
use with_boost.Models.CameraModel.CropRect.{valid_count}
use with_boost.Models.CameraModel.Tiling.{IsCoveredOnce, tiles_partition}
use with_boost.Models.CameraModel.Split.{split_slot_at_index, row_entry, refused}
use with_boost.Models.CameraModel.Merge.{merge_group_by_index, swap_slots}
use with_boost.Models.CameraModel.AutoSplit.{Env}
use with_boost.Models.CameraModel.Commands.{splits, merges, run}
use with_boost.Models.CameraModel.SlotIds.{IsWellFormed}
use with_boost.Models.CameraModel.WellFormed.{run-IsWellFormed}
use with_boost.Models.CameraModel.SplitResult.{
  IsSplittable, tiles_of, split_slot_at_index_lem, split_or_refused,
}
use with_boost.Models.CameraModel.MergeResult.{split-merge, restored}
use with_boost.Models.CameraModel.Swap.{swap_slots_lem}
use with_boost.Models.CameraModel.Entry.{title_role, data_changed}
use with_boost.Models.CameraModel.Merge.{set_data, edit_title}
use with_boost.Models.CameraModel.RowData.{row_data, text_value}
use with_boost.Models.CameraModel.Edited.{row_data-set_data}

abbrev door : CameraEntry ℕ
door = record {
  slot_id = 0;
  title = codes "10.0.0.5 (HANWHA)";
  camera_id = codes "10.0.0.5/1";
  is_online = true;
  camera_type = codes "HANWHA";
  split_count = 1;
  split_direction = SplitDirection.none;
  crop_rect = full_frame;
  split_group_id = negsuc 0;
  split_index = 0;
  description = [];
  width = 320;
  height = 240;
  device_info = no_reading 0;
}

abbrev yard : CameraEntry ℕ
yard = record door { slot_id = 1; camera_id = codes "10.0.0.6/1"; device_info = no_reading 7 }

abbrev two_cameras : CameraModel ℕ
two_cameras = record {
  next_slot_id = 2;
  next_split_group_id = 1;
  cameras = door ∷ yard ∷ [];
  auto_split_applied_slot_ids = [];
}

two_cameras-IsWellFormed : IsWellFormed two_cameras
two_cameras-IsWellFormed = record { slots = ground arith; groups = (tt, (tt, tt)) }

door-IsSplittable : IsSplittable door 3 SplitDirection.col
unfolding valid_count
door-IsSplittable = record { count_ok = refl; whole = refl; online = refl }

abbrev env : Env ℕ
env = record {
  from_std = λ t. t;
  to_std = λ t. t;
  hash_order = λ es. es;
  zero_real = 0;
  table = [];
}

abbrev front_door : CameraData ℕ
front_door = record {
  title = codes "10.0.0.5 (HANWHA)";
  camera_type = codes "HANWHA";
  is_online = true;
  camera_id = codes "10.0.0.5/1";
  device_info = no_reading 0;
}

run-IsWellFormed_example :
    IsWellFormed
      (run env two_cameras (splits (pos 0) (pos 3) (pos 0) ∷ merges (pos 1) (pos 3) ∷ []))
run-IsWellFormed_example =
    run-IsWellFormed env two_cameras (splits (pos 0) (pos 3) (pos 0) ∷ merges (pos 1) (pos 3) ∷ [])
      two_cameras-IsWellFormed

split-merge_example :
    let (split, m', out) =
      split_slot_at_index 0 two_cameras (pos 0) (pos 3) SplitDirection.col false in
    let (merged, m'', out') = merge_group_by_index m' (pos (0 + 2)) in
    (split ≡ true) × (merged ≡ true) × (m''.cameras ≡ restored 0 door 2 ∷ yard ∷ [])
split-merge_example =
    split-merge 0 two_cameras [] door (yard ∷ []) 3 2 SplitDirection.col false
      two_cameras-IsWellFormed refl door-IsSplittable (omega arith) (omega arith)

split_slot_at_index_lem_example :
    let (done, m', out) =
      split_slot_at_index 0 two_cameras (pos 0) (pos 3) SplitDirection.col false in
    (done ≡ true)
    × (m'.cameras ≡ tiles_of 0 two_cameras door 3 SplitDirection.col ++ yard ∷ [])
    × (m'.next_split_group_id ≡ 2)
split_slot_at_index_lem_example =
    split_slot_at_index_lem 0 two_cameras [] door (yard ∷ []) 3 SplitDirection.col false refl
      door-IsSplittable

split_or_refused_example :
    ((place : ℕ) × (original : CameraEntry ℕ) × (row_entry two_cameras.cameras (pos 5)
        ≡ some (place, original))
      × IsSplittable original (rounds (pos 2)) SplitDirection.row)
    ⊎ (split_slot_at_index 0 two_cameras (pos 5) (pos 2) SplitDirection.row false
        ≡ refused two_cameras)
split_or_refused_example = split_or_refused 0 two_cameras (pos 5) (pos 2) SplitDirection.row false

-- The last column of a third of the frame.
tiles_partition_example : IsCoveredOnce SplitDirection.col 3 18014398509481983 3 2
unfolding valid_count
tiles_partition_example =
    tiles_partition SplitDirection.col 3 18014398509481983 3 2 refl (omega arith) (omega arith)
      (omega arith)

swap_slots_lem_example :
    get_elem? (swap_slots two_cameras (pos 0) (pos 1)).0.cameras 1
    ≡ some (record door { slot_id = 1; device_info = no_reading 7 })
swap_slots_lem_example = swap_slots_lem two_cameras 0 1 1 door yard refl refl (omega arith)

-- A split in three shows its titles.
split_titles : (split_slot_at_index 0 two_cameras (pos 1) (pos 2) SplitDirection.row false).0 ≡ true
unfolding split_slot_at_index
split_titles = refl

row_data-set_data_example :
    let (accepted, m', out) = set_data two_cameras 0 (edit_title (codes "gate")) in
    (accepted ≡ true)
    × (row_data m' 0 title_role ≡ some (text_value (codes "gate")))
    × (out ≡ data_changed 0 (title_role ∷ []) ∷ [])
row_data-set_data_example = row_data-set_data two_cameras 0 (edit_title (codes "gate")) 0 title_role

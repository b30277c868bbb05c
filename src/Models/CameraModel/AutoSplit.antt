-- ===== src/Models/CameraModel/AutoSplit.antt =====
-- The automatic split of a camera by the table of Src/Config.hpp.
use with_boost.Common.{
  ℕ, suc, ℤ, pos, true, ◌||◌, not, Option, none, some, List, [], ◌∷◌, Text, text_eq, ◌==◌,
  if◌then◌else◌, get_elem?, contains,
}
use with_boost.Domain.Camera.{CameraData, SplitDirection}
use with_boost.Models.CameraModel.Entry.{CameraEntry, CameraModel}
use with_boost.Models.CameraModel.Split.{Outcome, refused, split_slot_at_index}

-- Src/Config.hpp: the rows of the table of automatic splits, and the table as it is shipped.
pub record AutoSplitEntry : Type 0 where
  pub camera_id : Text
  pub tile_count : ℤ

abbrev pub auto_split_camera_id_tile_map : List AutoSplitEntry
auto_split_camera_id_tile_map = []

unfoldable pub auto_split_tile_count_for_camera_id : List AutoSplitEntry → Text → ℤ
auto_split_tile_count_for_camera_id [] camera_id = pos 1
auto_split_tile_count_for_camera_id (entry ∷ table) camera_id =
    if text_eq entry.camera_id camera_id
    then entry.tile_count
    else auto_split_tile_count_for_camera_id table camera_id

-- What the model takes from Qt and from the deployment: the conversions of text, the order in which
-- a `QHash` is iterated, the zero of `double`, and the table of automatic splits.
pub record Env (R : Type 0) : Type 0 where
  pub from_std : Text → Text
  pub to_std : Text → Text
  pub hash_order : List (Text × CameraData R) → List (Text × CameraData R)
  pub zero_real : R
  pub table : List AutoSplitEntry

module _ {R : Type 0} where
  -- The first row with the slot id, from row `i` on.
  unfoldable pub index_from : ℕ → ℕ → List (CameraEntry R) → Option ℕ
  index_from i slot_id [] = none
  index_from i slot_id (e ∷ es) =
      let rest = index_from (suc i) slot_id es in if e.slot_id == slot_id then some i else rest

  unfoldable pub index_by_slot_id : CameraModel R → ℕ → Option ℕ
  unfolding index_from
  index_by_slot_id m slot_id = index_from 0 slot_id m.cameras

  -- `_autoSplitForIndex`; `none` is the index -1.
  unfoldable pub auto_split_for_index : Env R → CameraModel R → Option ℕ → Outcome R
  unfolding auto_split_tile_count_for_camera_id
  auto_split_for_index v m none = refused m
  auto_split_for_index v m (some row) = elim (get_elem? m.cameras row) [
    | none ↦ refused m
    | some entry ↦
        if not entry.is_online || not (entry.split_count == 1)
        then refused m
        else if contains entry.slot_id m.auto_split_applied_slot_ids
        then refused m
        else split_slot_at_index v.zero_real m (pos row)
            (auto_split_tile_count_for_camera_id v.table (v.to_std entry.camera_id))
            SplitDirection.col true
  ]

  unfoldable pub apply_auto_split_for_slot : Env R → CameraModel R → ℕ → Outcome R
  unfolding auto_split_for_index index_by_slot_id
  apply_auto_split_for_slot v m slot_id = auto_split_for_index v m (index_by_slot_id m slot_id)

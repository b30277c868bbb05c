-- ===== src/Models/CameraModel/Commands.antt =====
-- The calls that change a CameraModel, as commands, and the runs of them.
use with_boost.Common.{ℕ, ℤ, Bool, List, [], ◌∷◌, Text}
use with_boost.Domain.Camera.{CameraData, DeviceInfo}
use with_boost.Models.CameraModel.Entry.{CameraModel}
use with_boost.Models.CameraModel.Split.{split_slot}
use with_boost.Models.CameraModel.Merge.{
  merge_slots, swap_slots, set_online, clear_all, set_data, Edit,
}
use with_boost.Models.CameraModel.AutoSplit.{Env, apply_auto_split_for_slot}
use with_boost.Models.CameraModel.Store.{on_store_updated, update_sensor_info}

pub data Command (R : Type 0) : Type 0 where
  swaps : ℤ → ℤ → Command R
  sets_online : ℤ → Bool → Command R
  splits : ℤ → ℤ → ℤ → Command R
  merges : ℤ → ℤ → Command R
  applies_auto_split : ℕ → Command R
  clears : Command R
  stores : List (CameraData R) → Command R
  senses : Text → DeviceInfo R → Command R
  edits : ℕ → Edit → Command R

module _ {R : Type 0} where
  unfoldable pub step : Env R → CameraModel R → Command R → CameraModel R
  step v m (swaps a b) = (swap_slots m a b).0
  step v m (sets_online i b) = (set_online m i b).0
  step v m (splits i n d) = (split_slot v.zero_real m i n d).0
  step v m (merges i n) = (merge_slots m i n).0
  step v m (applies_auto_split s) = (apply_auto_split_for_slot v m s).1
  step v m clears = (clear_all m).0
  step v m (stores snapshot) = (on_store_updated v m snapshot).0
  step v m (senses cid info) = (update_sensor_info m cid info).0
  step v m (edits row edit) = (set_data m row edit).1

  unfoldable pub run : Env R → CameraModel R → List (Command R) → CameraModel R
  run v m [] = m
  run v m (c ∷ cs) = run v (step v m c) cs

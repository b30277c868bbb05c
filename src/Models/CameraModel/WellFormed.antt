-- ===== src/Models/CameraModel/WellFormed.antt =====
-- Every command keeps a CameraModel well formed.
mod Rows
use with_boost.Common.{
  ℕ, suc, ◌≡◌, refl, sym, ap, ◌∙◌, ℤ, pos, Bool, Option, none, some, List, [], ◌∷◌, map, true,
  false, ◌≢◌, ◌==◌, get_elem?-set_other, map-map_keep, Text, arith, length, get_elem?, set,
  All-append, All-get_elem?, All-set, All-remove_at, All-modify, All-map, map-remove_at, map-modify,
  map-set, subst, Fresh-remove_at, Fresh-append, range_from, Option-cases, Bool-cases, inl, inr,
  set,
}
use mathlib.Core.List.{map-append}
use with_boost.Domain.Camera.{SplitDirection, CameraData, DeviceInfo}
use with_boost.Models.CameraModel.Entry.{CameraEntry, CameraModel, has_text}
use with_boost.Models.CameraModel.Split.{row_entry, row_entry-get, split_slot, direction_of}
use with_boost.Models.CameraModel.Merge.{
  remove_tiles, merged, merge_rows, merge_group_by_index, merge_slots, group_indices, with_content,
  swap_rows, swap_slots, set_online, clear_all, Edit, edited, set_data,
}
use with_boost.Models.CameraModel.AutoSplit.{
  Env, auto_split_for_index, auto_split_tile_count_for_camera_id, apply_auto_split_for_slot,
  index_by_slot_id,
}
use with_boost.Models.CameraModel.Update.{refresh, snapshot_by_cid}
use with_boost.Models.CameraModel.Store.{
  represented_cids, new_entries, candidate_slots, auto_split_all, synchronised, on_store_updated,
  with_sensors, update_sensor_info,
}
use with_boost.Models.CameraModel.SlotIds.{
  GroupBelow, slot_ids, GroupsBelow, IsWellFormed, IsWellFormed-keep,
  split_slot_at_index-IsWellFormed,
}
use with_boost.Models.CameraModel.Commands.{
  Command, swaps, sets_online, splits, merges, applies_auto_split, clears, stores, senses, edits,
  step, run,
}
use with_boost.Models.CameraModel.WellFormed.Rows.{
  merge_group_by_index-IsWellFormed, swap_slots-IsWellFormed, set_online-IsWellFormed,
  edited-IsWellFormed, update_sensor_info-IsWellFormed,
}

module _ {R : Type 0} where
  auto_split_for_index-IsWellFormed :
      (v : Env R) (m : CameraModel R) (row : Option ℕ)
      → IsWellFormed m
      → IsWellFormed (auto_split_for_index v m row).1
  unfolding auto_split_for_index
  auto_split_for_index-IsWellFormed v m none w = w
  auto_split_for_index-IsWellFormed v m (some row) w =
      elim (Option-cases (get_elem? m.cameras row)) [
        | inl e ↦ rw (e, auto_split_for_index) w
        | inr (a, e) ↦
            rw (e, auto_split_for_index)
              (ground (
                arith,
                split_slot_at_index-IsWellFormed v.zero_real m (pos row)
                    (auto_split_tile_count_for_camera_id v.table (v.to_std a.camera_id))
                    SplitDirection.col true w,
              ))
      ]

  auto_split_all-IsWellFormed :
      (v : Env R) (slots : List ℕ) (m : CameraModel R)
      → IsWellFormed m
      → IsWellFormed (auto_split_all v slots m).0
  unfolding auto_split_all apply_auto_split_for_slot
  auto_split_all-IsWellFormed v [] m w = w
  auto_split_all-IsWellFormed v (s ∷ ss) m w =
      auto_split_all-IsWellFormed v ss (apply_auto_split_for_slot v m s).1
        (auto_split_for_index-IsWellFormed v m (index_by_slot_id m s) w)

  slot_ids-new_entries :
      (v : Env R) (known : List Text) (next : ℕ) (more : List (Text × CameraData R))
      → slot_ids (new_entries v known next more)
        ≡ range_from next (length (new_entries v known next more))
  unfolding new_entries
  slot_ids-new_entries v known next [] = refl
  slot_ids-new_entries v known next ((cid, snap) ∷ more) = elim (Bool-cases (has_text cid known)) [
    | inl old ↦ rw old (slot_ids-new_entries v known next more)
    | inr new ↦ rw new (ap (◌∷◌ next) (slot_ids-new_entries v known (suc next) more))
  ]

  new_entries-GroupsBelow :
      (v : Env R) (known : List Text) (next n : ℕ) (more : List (Text × CameraData R))
      → GroupsBelow n (new_entries v known next more)
  unfolding new_entries
  new_entries-GroupsBelow v known next n [] = tt
  new_entries-GroupsBelow v known next n ((cid, snap) ∷ more) =
      elim (Bool-cases (has_text cid known)) [
        | inl old ↦ rw old (new_entries-GroupsBelow v known next n more)
        | inr new ↦ rw new (tt, new_entries-GroupsBelow v known (suc next) n more)
      ]

  -- A refresh keeps the slot and the group of a row.
  pub refresh_keeps :
      (from_std : Text → Text) (by_cid : List (Text × CameraData R)) (e : CameraEntry R)
      → ((refresh from_std by_cid e).slot_id ≡ e.slot_id)
        × ((refresh from_std by_cid e).split_group_id ≡ e.split_group_id)
  unfolding refresh
  refresh_keeps from_std by_cid e = ground arith

  synchronised-IsWellFormed :
      (v : Env R) (m : CameraModel R) (snapshot : List (CameraData R))
      → IsWellFormed m
      → IsWellFormed (synchronised v m snapshot)
  unfolding synchronised
  synchronised-IsWellFormed v m snapshot w =
      let by_cid = snapshot_by_cid v.from_std snapshot [] in
      let known = represented_cids by_cid m.cameras in
      let fresh = new_entries v known m.next_slot_id (v.hash_order by_cid) in
      let ids : slot_ids (map (refresh v.from_std by_cid) m.cameras) ≡ slot_ids m.cameras =
        map-map_keep (λ (x : CameraEntry R). x.slot_id) (refresh v.from_std by_cid) m.cameras
          (λ e. (refresh_keeps v.from_std by_cid e).0) in
      record {
        slots =
            rw
              (
                map-append (λ (x : CameraEntry R). x.slot_id)
                    (map (refresh v.from_std by_cid) m.cameras) fresh,
                ids,
                slot_ids-new_entries v known m.next_slot_id (v.hash_order by_cid),
              )
              (Fresh-append m.next_slot_id (length fresh) (slot_ids m.cameras) w.slots);
        groups =
            All-append _ (map (refresh v.from_std by_cid) m.cameras) fresh
              (All-map _ (refresh v.from_std by_cid) m.cameras
                (λ e g.
                  subst (GroupBelow m.next_split_group_id)
                    (sym (refresh_keeps v.from_std by_cid e).1) g)
                w.groups)
              (new_entries-GroupsBelow v known m.next_slot_id m.next_split_group_id
                (v.hash_order by_cid));
      }

  step-IsWellFormed :
      (v : Env R) (m : CameraModel R) (c : Command R) → IsWellFormed m → IsWellFormed (step v m c)
  unfolding step merge_slots split_slot clear_all apply_auto_split_for_slot on_store_updated
  step-IsWellFormed v m (swaps a b) w = swap_slots-IsWellFormed m a b w
  step-IsWellFormed v m (sets_online i b) w = set_online-IsWellFormed m i b w
  step-IsWellFormed v m (splits i n d) w =
      split_slot_at_index-IsWellFormed v.zero_real m i n (direction_of d) false w
  step-IsWellFormed v m (merges i n) w = merge_group_by_index-IsWellFormed m i w
  step-IsWellFormed v m (applies_auto_split s) w =
      auto_split_for_index-IsWellFormed v m (index_by_slot_id m s) w
  step-IsWellFormed v m clears w = record { slots = tt; groups = tt }
  step-IsWellFormed v m (stores snapshot) w =
      auto_split_all-IsWellFormed v (candidate_slots (synchronised v m snapshot).cameras)
        (synchronised v m snapshot) (synchronised-IsWellFormed v m snapshot w)
  step-IsWellFormed v m (senses cid info) w = update_sensor_info-IsWellFormed m cid info w
  step-IsWellFormed v m (edits row edit) w = edited-IsWellFormed m row edit w

  -- In a model that is well formed, and after any sequence of commands from it, no two rows have the
  -- same slot id, every slot id is below the counter of slot ids, and every split group below the
  -- counter of groups.
  pub run-IsWellFormed :
      (v : Env R) (m : CameraModel R) (cs : List (Command R))
      → IsWellFormed m
      → IsWellFormed (run v m cs)
  unfolding run
  run-IsWellFormed v m [] w = w
  run-IsWellFormed v m (c ∷ cs) w = run-IsWellFormed v (step v m c) cs (step-IsWellFormed v m c w)

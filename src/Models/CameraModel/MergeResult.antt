-- ===== src/Models/CameraModel/MergeResult.antt =====
-- What a merge leaves, and that it undoes a split.
mod Tiles
use mathlib.Core.List.{append_assoc, append-nil}
use native.Mathlib.Nat.{zero-add, suc-add, add-zero, add-suc}
use with_boost.Common.{
  ℕ, zero, suc, ◌+◌, ◌<◌, ◌≡◌, refl, sym, ap, subst, ◌∙◌, ℤ, pos, negsuc, int_eq, Bool, true, false,
  some, List, [], ◌∷◌, ◌++◌, Text, codes, number, last_index_of, ends_with, arith, length,
  get_elem?, remove_at-append, modify-append, get_elem?-append_right, take-append, length-append,
  range_from, lt→ltb, ==-refl, Bool-cases, inl, inr, leb,
}
use with_boost.Domain.Camera.{SplitDirection, no_reading}
use with_boost.Models.CameraModel.Entry.{CameraEntry, CameraModel, full_frame}
use with_boost.Models.CameraModel.CropRect.{valid_count_range}
use with_boost.Models.CameraModel.Split.{row_entry, tile, split_slot_at_index}
use with_boost.Models.CameraModel.Merge.{
  cut_mark, group_indices, remove_tile, remove_tiles, merged, merge_rows, merge_group_by_index,
}
use with_boost.Models.CameraModel.SlotIds.{GroupBelow, GroupsBelow, IsWellFormed}
use with_boost.Models.CameraModel.SplitResult.{tiles_from, IsSplittable, split_slot_at_index_lem}
use with_boost.Models.CameraModel.MergeResult.Tiles.{
  cut_mark-append, remove_tiles-cameras, length-tiles_from, get_elem?-tiles_from, group_rows,
}

module _ {R : Type 0} where
  merge_rows_lem :
      (m : CameraModel R) (front : List (CameraEntry R)) (t s : CameraEntry R)
      (ts back : List (CameraEntry R))
      → m.cameras ≡ front ++ (t ∷ s ∷ ts ++ back)
      → let (done, m', out) = merge_rows m (range_from (length front) (suc (suc (length ts)))) in
        (done ≡ true) × (m'.cameras ≡ front ++ merged t ∷ back)
  unfolding merge_rows
  merge_rows_lem m front t s ts back e =
      let one : length (front ++ t ∷ []) ≡ suc (length front) =
        omega (arith, length-append front (t ∷ [])) in
      let kept : (remove_tiles (range_from (suc (length front)) (suc (length ts))) m).cameras
          ≡ (front ++ t ∷ []) ++ back =
        subst
          (λ n.
            (remove_tiles (range_from n (suc (length ts))) m).cameras ≡ (front ++ t ∷ []) ++ back)
          one
          (remove_tiles-cameras (s ∷ ts) (front ++ t ∷ []) back m
            (e ∙ sym (append_assoc front (t ∷ []) (s ∷ ts ++ back)))) in
      (refl, rw (kept, append_assoc front (t ∷ []) back) (modify-append front merged t back))

  -- A tile of a group of at least two that stand side by side, in a model with no other row of the
  -- group: a merge there leaves the first of them, made whole, in the place of all.
  merge_group_lem :
      (m : CameraModel R) (g : ℕ) (make : ℕ → ℕ → CameraEntry R) (n id k : ℕ)
      (front back : List (CameraEntry R))
      → m.cameras ≡ front ++ (tiles_from make (suc (suc n)) 0 id ++ back)
      → ((id index : ℕ) → (make id index).split_group_id ≡ pos g)
      → ((id index : ℕ) → (make id index).split_count ≡ suc (suc n))
      → GroupsBelow g front
      → GroupsBelow g back
      → k < suc (suc n)
      → let (done, m', out) = merge_group_by_index m (pos (length front + k)) in
        (done ≡ true) × (m'.cameras ≡ front ++ merged (make id 0) ∷ back)
  unfolding merge_group_by_index
  merge_group_lem m g make n id k front back e h c f b lt =
      let target = make (id + k) (0 + k) in
      let found : row_entry m.cameras (pos (length front + k)) ≡ some (length front + k, target) =
        rw
          (
            e,
            get_elem?-append_right front (tiles_from make (suc (suc n)) 0 id ++ back) k,
            get_elem?-tiles_from make (suc (suc n)) 0 id k back lt,
          )
          refl in
      let rest = tiles_from make n 2 (suc (suc id)) in
      let rows : group_indices (pos g) 0 m.cameras
          ≡ range_from (length front) (suc (suc (length rest))) =
        rw (e, length-tiles_from make n 2 (suc (suc id)))
          (group_rows g make (suc (suc n)) id front back h f b) in
      let two : leb (suc (suc n)) 1 ≡ false = ground arith in
      rw (found, merge_group_by_index)
        (rw (c (id + k) (0 + k), two, h (id + k) (0 + k), rows)
          (merge_rows_lem m front (make id 0) (make (suc id) 1) rest back e))

  -- What a split and a merge make of an entry.
  abbrev pub restored : R → CameraEntry R → ℕ → CameraEntry R
  restored z original slot_id = record original {
    slot_id = slot_id;
    split_count = 1;
    split_direction = SplitDirection.col;
    crop_rect = full_frame;
    split_group_id = negsuc 0;
    split_index = 0;
    width = 320;
    height = 240;
    device_info = no_reading z;
  }

  merged-tile :
      (z : R) (original : CameraEntry R) (n : ℕ) (direction : SplitDirection) (g id : ℕ)
      → 0 < length original.title
      → n < 3
      → merged (tile z original (suc (suc n)) direction g id 0) ≡ restored z original id
  unfolding merged tile number last_index_of ends_with
  merged-tile z original zero direction g id h lt =
      rw (cut_mark-append original.title 32 (codes "[1/2]") h refl refl)
  merged-tile z original (suc zero) direction g id h lt =
      rw (cut_mark-append original.title 32 (codes "[1/3]") h refl refl)
  merged-tile z original (suc (suc zero)) direction g id h lt =
      rw (cut_mark-append original.title 32 (codes "[1/4]") h refl refl)
  merged-tile z original (suc (suc (suc n))) direction g id h lt = absurd (omega arith)

  GroupsBelow-parts :
      (n : ℕ) (front : List (CameraEntry R)) (a : CameraEntry R) (back : List (CameraEntry R))
      → GroupsBelow n (front ++ a ∷ back)
      → GroupsBelow n front × GroupsBelow n back
  GroupsBelow-parts n [] a back h = (tt, h.1)
  GroupsBelow-parts n (x ∷ front) a back h =
      let (f, b) = GroupsBelow-parts n front a back h.1 in ((h.0, f), b)

  -- In a well-formed model, a row with a title that is not empty is split in its tiles and any of
  -- them is merged: both calls succeed, and the row is back in its place with its camera, its title,
  -- its type and its description, under the first slot id that the split gave out, with the size and
  -- the sensor data of a new row; the other rows are as they were.
  pub split-merge :
      (z : R) (m : CameraModel R) (front : List (CameraEntry R)) (original : CameraEntry R)
      (back : List (CameraEntry R)) (count k : ℕ) (direction : SplitDirection) (auto : Bool)
      → IsWellFormed m
      → m.cameras ≡ front ++ original ∷ back
      → IsSplittable original count direction
      → 0 < length original.title
      → k < count
      → let (split, m', out) =
          split_slot_at_index z m (pos (length front)) (pos count) direction auto in
        let (merged, m'', out') = merge_group_by_index m' (pos (length front + k)) in
        (split ≡ true)
        × (merged ≡ true)
        × (m''.cameras ≡ front ++ restored z original m.next_slot_id ∷ back)
  split-merge z m front original back zero k direction auto w e s h lt = absurd (omega arith)
  split-merge z m front original back (suc zero) k direction auto w e s h lt =
      absurd (omega (arith, valid_count_range direction 1 s.count_ok))
  split-merge z m front original back (suc (suc n)) k direction auto w e s h lt =
      let count = suc (suc n) in
      let g = m.next_split_group_id in
      let (split, rows, group) =
        split_slot_at_index_lem z m front original back count direction auto e s in
      let m' = (split_slot_at_index z m (pos (length front)) (pos count) direction auto).1 in
      let (f, b) = GroupsBelow-parts g front original back (subst (GroupsBelow g) e w.groups) in
      let (merged, rest) =
        merge_group_lem m' g (tile z original count direction g) n m.next_slot_id k front back rows
          (λ id i. unfold tile in refl) (λ id i. unfold tile in refl) f b lt in
      (
        split,
        merged,
        rest
            ∙ ap (λ x. front ++ x ∷ back)
                (merged-tile z original n direction g m.next_slot_id h
                  (omega (arith, valid_count_range direction count s.count_ok))),
      )

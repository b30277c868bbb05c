-- ===== src/Models/CameraModel/Split.antt =====
-- Splitting a row into tiles: `_splitSlotAtIndex` and `splitSlot`.
use mathlib.Core.Option
use with_boost.Common.{
  ℕ, zero, suc, ◌+◌, ◌-◌, ℤ, pos, negsuc, rounds, Bool, true, false, not, Option, none, some,
  Option-cases, inl, inr, ◌≡◌, arith, List, [], ◌∷◌, ◌++◌, codes, number, ◌==◌, if◌then◌else◌,
  get_elem?, remove_at, insert_at, remove,
}
use with_boost.Domain.Camera.{SplitDirection, no_reading}
use with_boost.Models.CameraModel.CropRect.{compute_crop_rect, valid_count}
use with_boost.Models.CameraModel.Entry.{
  CameraEntry, CameraModel, Signal, rows_removed, rows_inserted, emit_slots_updated,
}

-- The row that a signed index names and its entry, if there is one.
abbrev pub row_entry {ℓ} : {A : Type ℓ} → List A → ℤ → Option (ℕ × A)
row_entry xs (negsuc n) = none
row_entry xs (pos i) = Option.map (λ e. (i, e)) (get_elem? xs i)

-- Whether the operation did its work, the model after it, and what it emitted.
abbrev pub Outcome : Type 0 → Type 0
Outcome R = Bool × CameraModel R × List Signal

-- The direction that QML's number names.
abbrev pub direction_of : ℤ → SplitDirection
direction_of (pos n) =
    if n == 1
    then SplitDirection.row
    else if n == 2
    then SplitDirection.grid
    else SplitDirection.col
direction_of (negsuc n) = SplitDirection.col

module _ {R : Type 0} where
  abbrev pub refused : CameraModel R → Outcome R
  refused m = (false, m, [])

  -- The tile `index` of `count`. The width, the height and the sensor data are the defaults.
  unfoldable pub tile : R → CameraEntry R → ℕ → SplitDirection → ℕ → ℕ → ℕ → CameraEntry R
  tile z original count direction group slot_id index = record {
    slot_id = slot_id;
    title =
        original.title
        ++ (codes " [" ++ (number (suc index) ++ (codes "/" ++ (number count ++ codes "]"))));
    camera_id = original.camera_id;
    is_online = original.is_online;
    camera_type = original.camera_type;
    split_count = count;
    split_direction = direction;
    crop_rect = compute_crop_rect index count direction;
    split_group_id = pos group;
    split_index = index;
    description = original.description;
    width = 320;
    height = 240;
    device_info = no_reading z;
  }

  -- One round of the loop that inserts the tiles: `make` gives the tile for a slot id.
  unfoldable pub insert_tile : (ℕ → CameraEntry R) → Bool → ℕ → CameraModel R → CameraModel R
  insert_tile make auto place m = record m {
    next_slot_id = suc m.next_slot_id;
    cameras = insert_at place (make m.next_slot_id) m.cameras;
    auto_split_applied_slot_ids =
        if auto
        then m.next_slot_id ∷ m.auto_split_applied_slot_ids
        else m.auto_split_applied_slot_ids;
  }

  -- The rounds `index`, `index + 1`, … that are left of it.
  unfoldable pub insert_tiles :
      (ℕ → ℕ → CameraEntry R) → Bool → ℕ → ℕ → ℕ → CameraModel R → CameraModel R
  unfolding insert_tile
  insert_tiles make auto place zero index m = m
  insert_tiles make auto place (suc left) index m =
      insert_tiles make auto place left (suc index)
        (insert_tile (λ slot_id. make slot_id index) auto (place + index) m)

  -- `_splitSlotAtIndex` past its guards.
  unfoldable pub replace_by_tiles :
      R → CameraModel R → ℕ → CameraEntry R → ℕ → SplitDirection → Bool → CameraModel R
  unfolding insert_tiles tile
  replace_by_tiles z m place original count direction auto =
      let group = m.next_split_group_id in
      let opened = record m {
        next_split_group_id = suc group;
        cameras = remove_at place m.cameras;
      } in
      let tiled = insert_tiles (tile z original count direction group) auto place count 0 opened in
      record tiled {
        auto_split_applied_slot_ids = remove original.slot_id tiled.auto_split_applied_slot_ids;
      }

  unfoldable pub split_row :
      R → CameraModel R → ℕ → CameraEntry R → ℕ → SplitDirection → Bool → Outcome R
  unfolding replace_by_tiles emit_slots_updated valid_count
  split_row z m place original count direction auto =
      let done = replace_by_tiles z m place original count direction auto in
      if not (valid_count direction count)
      then refused m
      else if not (original.split_count == 1)
      then refused m
      else if not original.is_online
      then refused m
      else (
        true,
        done,
        rows_removed place place
            ∷ rows_inserted place (place + count - 1)
            ∷ emit_slots_updated done,
      )

  -- A negative count makes no round, and no direction admits 0 tiles.
  unfoldable pub split_slot_at_index : R → CameraModel R → ℤ → ℤ → SplitDirection → Bool → Outcome R
  unfolding split_row
  split_slot_at_index z m row_index tile_count direction auto =
      elim (row_entry m.cameras row_index) [
        | none ↦ refused m
        | some (place, original) ↦ split_row z m place original (rounds tile_count) direction auto
      ]

  unfoldable pub split_slot : R → CameraModel R → ℤ → ℤ → ℤ → CameraModel R × List Signal
  unfolding split_slot_at_index
  split_slot z m row_index tile_count direction =
      let (done, m', out) =
        split_slot_at_index z m row_index tile_count (direction_of direction) false in
      (m', out)

-- An entry that a row index names stands at that position.
pub row_entry-get {ℓ} :
    {A : Type ℓ} (xs : List A) (row : ℤ) (i : ℕ) (a : A)
    → row_entry xs row ≡ some (i, a)
    → get_elem? xs i ≡ some a
row_entry-get xs (negsuc n) i a e = cc
row_entry-get xs (pos k) i a e = elim (Option-cases (get_elem? xs k)) [
  | inl q ↦ ground (arith, e, q)
  | inr (b, q) ↦ ground (arith, e, q)
]

-- ===== src/Models/CameraModel/SlotIds.antt =====
-- Slot ids and split groups stay distinct and below their counters.
use with_boost.Common.{
  ℕ, zero, suc, ◌+◌, ◌<◌, ◌≤◌, ◌≡◌, refl, sym, subst, ℤ, pos, negsuc, Bool, List, map, arith, All,
  All-mono, All-insert_at, All-remove_at, map-insert_at, map-remove_at, Fresh, Fresh-insert_at,
  Fresh-remove_at, Option-cases, inl, inr, rounds, remove_at,
}
use with_boost.Domain.Camera.{SplitDirection}
use with_boost.Models.CameraModel.Entry.{CameraEntry, CameraModel}
use with_boost.Models.CameraModel.Split.{
  row_entry, tile, insert_tile, insert_tiles, replace_by_tiles, split_row, split_slot_at_index,
}

-- A group number is one that the counter has handed out.
abbrev pub GroupBelow : ℕ → ℤ → Type 0
GroupBelow n (pos g) = g < n
GroupBelow n (negsuc g) = Unit {0}

GroupBelow-mono : {m n : ℕ} (g : ℤ) → m ≤ n → GroupBelow m g → GroupBelow n g
GroupBelow-mono (pos g) h b = omega arith
GroupBelow-mono (negsuc g) h b = tt

module _ {R : Type 0} where
  abbrev pub slot_ids : List (CameraEntry R) → List ℕ
  slot_ids = map (λ e. e.slot_id)

  abbrev pub GroupsBelow : ℕ → List (CameraEntry R) → Type 0
  GroupsBelow n = All (λ e. GroupBelow n e.split_group_id)

  pub record IsWellFormed (m : CameraModel R) : Type 0 where
    pub slots : Fresh m.next_slot_id (slot_ids m.cameras)
    pub groups : GroupsBelow m.next_split_group_id m.cameras

  GroupsBelow-suc : (n : ℕ) (es : List (CameraEntry R)) → GroupsBelow n es → GroupsBelow (suc n) es
  GroupsBelow-suc n es = All-mono _ _ es (λ e. GroupBelow-mono e.split_group_id (omega arith))

  -- Changes in place that keep the slot ids.
  pub IsWellFormed-keep :
      (m : CameraModel R) (es : List (CameraEntry R))
      → slot_ids es ≡ slot_ids m.cameras
      → GroupsBelow m.next_split_group_id es
      → IsWellFormed m
      → IsWellFormed (record m { cameras = es })
  IsWellFormed-keep m es e g w = record {
    slots = subst (Fresh m.next_slot_id) (sym e) w.slots;
    groups = g;
  }

  insert_tile-IsWellFormed :
      (make : ℕ → CameraEntry R) (auto : Bool) (place : ℕ) (m : CameraModel R)
      → ((id : ℕ) → (make id).slot_id ≡ id)
      → GroupBelow m.next_split_group_id (make m.next_slot_id).split_group_id
      → IsWellFormed m
      → IsWellFormed (insert_tile make auto place m)
  unfolding insert_tile
  insert_tile-IsWellFormed make auto place m id_kept g w = record {
    slots =
        rw
          (
            map-insert_at (λ (e : CameraEntry R). e.slot_id) place (make m.next_slot_id) m.cameras,
            id_kept m.next_slot_id,
          )
          (Fresh-insert_at place m.next_slot_id (slot_ids m.cameras) w.slots);
    groups = All-insert_at _ place _ m.cameras g w.groups;
  }

  pub insert_tiles-group :
      (make : ℕ → ℕ → CameraEntry R) (auto : Bool) (place left index : ℕ) (m : CameraModel R)
      → (insert_tiles make auto place left index m).next_split_group_id ≡ m.next_split_group_id
  unfolding insert_tiles
  insert_tiles-group make auto place zero index m = refl
  insert_tiles-group make auto place (suc left) index m =
      insert_tiles-group make auto place left (suc index)
        (insert_tile (λ id. make id index) auto (place + index) m)

  insert_tiles-IsWellFormed :
      (make : ℕ → ℕ → CameraEntry R) (auto : Bool) (place left index : ℕ) (m : CameraModel R)
      → ((id i : ℕ) → (make id i).slot_id ≡ id)
      → ((id i : ℕ) → GroupBelow m.next_split_group_id (make id i).split_group_id)
      → IsWellFormed m
      → IsWellFormed (insert_tiles make auto place left index m)
  unfolding insert_tiles
  insert_tiles-IsWellFormed make auto place zero index m k g w = w
  insert_tiles-IsWellFormed make auto place (suc left) index m k g w =
      insert_tiles-IsWellFormed make auto place left (suc index)
        (insert_tile (λ id. make id index) auto (place + index) m) k g
        (insert_tile-IsWellFormed (λ id. make id index) auto (place + index) m (λ id. k id index)
          (g m.next_slot_id index) w)

  replace_by_tiles-IsWellFormed :
      (z : R) (m : CameraModel R) (place : ℕ) (original : CameraEntry R) (count : ℕ)
      (direction : SplitDirection) (auto : Bool)
      → IsWellFormed m
      → IsWellFormed (replace_by_tiles z m place original count direction auto)
  unfolding replace_by_tiles
  replace_by_tiles-IsWellFormed z m place original count direction auto w =
      let group = m.next_split_group_id in
      let opened : CameraModel R = record m {
        next_split_group_id = suc group;
        cameras = remove_at place m.cameras;
      } in
      let tiled =
        insert_tiles-IsWellFormed (tile z original count direction group) auto place count 0 opened
          (λ id i. refl) (λ id i. omega arith)
          (record {
            slots =
                rw (map-remove_at (λ (e : CameraEntry R). e.slot_id) place m.cameras)
                  (Fresh-remove_at place m.next_slot_id (slot_ids m.cameras) w.slots);
            groups = GroupsBelow-suc group _ (All-remove_at _ place m.cameras w.groups);
          }) in
      record { slots = tiled.slots; groups = tiled.groups }

  split_row-IsWellFormed :
      (z : R) (m : CameraModel R) (place : ℕ) (original : CameraEntry R) (count : ℕ)
      (direction : SplitDirection) (auto : Bool)
      → IsWellFormed m
      → IsWellFormed (split_row z m place original count direction auto).1
  unfolding split_row
  split_row-IsWellFormed z m place original count direction auto w =
      ground (arith, replace_by_tiles-IsWellFormed z m place original count direction auto w)

  pub split_slot_at_index-IsWellFormed :
      (z : R) (m : CameraModel R) (row count : ℤ) (direction : SplitDirection) (auto : Bool)
      → IsWellFormed m
      → IsWellFormed (split_slot_at_index z m row count direction auto).1
  unfolding split_slot_at_index
  split_slot_at_index-IsWellFormed z m row count direction auto w =
      elim (Option-cases (row_entry m.cameras row)) [
        | inl e ↦ rw (e, split_slot_at_index) w
        | inr ((place, original), e) ↦
            rw (e, split_slot_at_index)
              (split_row-IsWellFormed z m place original (rounds count) direction auto w)
      ]

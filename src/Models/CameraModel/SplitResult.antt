-- ===== src/Models/CameraModel/SplitResult.antt =====
-- What a split leaves: the tiles in the place of the row, or the model as it was.
use mathlib.Core.List.{append_assoc}
use with_boost.Common.{
  ℕ, zero, suc, ◌+◌, ◌≡◌, sym, ap, ◌∙◌, ℤ, pos, Bool, true, some, List, [], ◌∷◌, ◌++◌, arith,
  length, remove_at, remove_at-append, insert_at-append, get_elem?-append, length-append, rounds,
  Option-cases, Bool-cases, ==-eq, ◌==◌, inl, inr, ◌⊎◌,
}
use with_boost.Domain.Camera.{SplitDirection}
use with_boost.Models.CameraModel.Entry.{CameraEntry, CameraModel}
use with_boost.Models.CameraModel.CropRect.{valid_count}
use with_boost.Models.CameraModel.SlotIds.{insert_tiles-group}
use with_boost.Models.CameraModel.Split.{
  refused, tile, insert_tile, insert_tiles, replace_by_tiles, split_row, split_slot_at_index,
  row_entry,
}

module _ {R : Type 0} where
  -- The tiles from `index` on, their slot ids from `id` on.
  abbrev pub tiles_from : (ℕ → ℕ → CameraEntry R) → ℕ → ℕ → ℕ → List (CameraEntry R)
  tiles_from make zero index id = []
  tiles_from make (suc left) index id = make id index ∷ tiles_from make left (suc index) (suc id)

  -- The loop puts its tiles behind the rows in front of the next position.
  insert_tiles-cameras :
      (make : ℕ → ℕ → CameraEntry R) (auto : Bool) (place left index : ℕ) (m : CameraModel R)
      (front back : List (CameraEntry R))
      → length front ≡ place + index
      → m.cameras ≡ front ++ back
      → (insert_tiles make auto place left index m).cameras
        ≡ front ++ (tiles_from make left index m.next_slot_id ++ back)
  unfolding insert_tiles insert_tile
  insert_tiles-cameras make auto place zero index m front back l e = e
  insert_tiles-cameras make auto place (suc left) index m front back l e =
      insert_tiles-cameras make auto place left (suc index)
        (insert_tile (λ id. make id index) auto (place + index) m) (front ++ x ∷ []) back
        (omega (arith, length-append front (x ∷ [])))
        (rw (e, ← l) (insert_at-append front x back ∙ sym (append_assoc front (x ∷ []) back)))
      ∙ append_assoc front (x ∷ []) (tiles_from make left (suc index) (suc m.next_slot_id) ++ back)
    where
      x : CameraEntry R
      x = make m.next_slot_id index

  -- The tiles that a split of the entry makes, in a model with these counters.
  abbrev pub tiles_of :
      R → CameraModel R → CameraEntry R → ℕ → SplitDirection → List (CameraEntry R)
  tiles_of z m original count direction =
      tiles_from (tile z original count direction m.next_split_group_id) count 0 m.next_slot_id

  replace_by_tiles-cameras :
      (z : R) (m : CameraModel R) (front : List (CameraEntry R)) (original : CameraEntry R)
      (back : List (CameraEntry R)) (count : ℕ) (direction : SplitDirection) (auto : Bool)
      → m.cameras ≡ front ++ original ∷ back
      → (replace_by_tiles z m (length front) original count direction auto).cameras
        ≡ front ++ (tiles_of z m original count direction ++ back)
  unfolding replace_by_tiles
  replace_by_tiles-cameras z m front original back count direction auto e =
      insert_tiles-cameras (tile z original count direction m.next_split_group_id) auto
        (length front) count 0
        (record m {
          next_split_group_id = suc m.next_split_group_id;
          cameras = remove_at (length front) m.cameras;
        })
        front back (omega arith) (rw e (remove_at-append front original back))

  -- The conditions under which a row is split.
  pub record IsSplittable (original : CameraEntry R) (count : ℕ) (direction : SplitDirection)
      : Type 0 where
    pub count_ok : valid_count direction count ≡ true
    pub whole : original.split_count ≡ 1
    pub online : original.is_online ≡ true

  row_entry-append :
      (front : List (CameraEntry R)) (a : CameraEntry R) (back : List (CameraEntry R))
      → row_entry (front ++ a ∷ back) (pos (length front)) ≡ some (length front, a)
  row_entry-append front a back = rw (get_elem?-append front a back)

  split_row_done :
      (z : R) (m : CameraModel R) (place : ℕ) (original : CameraEntry R) (count : ℕ)
      (direction : SplitDirection) (auto : Bool)
      → IsSplittable original count direction
      → let (done, m', out) = split_row z m place original count direction auto in
        (done ≡ true) × (m' ≡ replace_by_tiles z m place original count direction auto)
  unfolding split_row
  split_row_done z m place original count direction auto s = ground arith

  replace_by_tiles-group :
      (z : R) (m : CameraModel R) (place : ℕ) (original : CameraEntry R) (count : ℕ)
      (direction : SplitDirection) (auto : Bool)
      → (replace_by_tiles z m place original count direction auto).next_split_group_id
        ≡ suc m.next_split_group_id
  unfolding replace_by_tiles
  replace_by_tiles-group z m place original count direction auto =
      insert_tiles-group (tile z original count direction m.next_split_group_id) auto place count 0
        (record m {
          next_split_group_id = suc m.next_split_group_id;
          cameras = remove_at place m.cameras;
        })

  -- A row that is online, not yet split and cut in a number of tiles that the direction admits is
  -- replaced by its tiles, in its place and in order, and the other rows stay as they are. The
  -- counter of groups moves on by one.
  pub split_slot_at_index_lem :
      (z : R) (m : CameraModel R) (front : List (CameraEntry R)) (original : CameraEntry R)
      (back : List (CameraEntry R)) (count : ℕ) (direction : SplitDirection) (auto : Bool)
      → m.cameras ≡ front ++ original ∷ back
      → IsSplittable original count direction
      → let (done, m', out) =
          split_slot_at_index z m (pos (length front)) (pos count) direction auto in
        (done ≡ true)
        × (m'.cameras ≡ front ++ (tiles_of z m original count direction ++ back))
        × (m'.next_split_group_id ≡ suc m.next_split_group_id)
  unfolding split_slot_at_index
  split_slot_at_index_lem z m front original back count direction auto e s =
      let (d, k) = split_row_done z m (length front) original count direction auto s in
      let found : row_entry m.cameras (pos (length front)) ≡ some (length front, original) =
        rw e (row_entry-append front original back) in
      rw (found, split_slot_at_index)
        (
          d,
          ap (λ (x : CameraModel R). x.cameras) k
              ∙ replace_by_tiles-cameras z m front original back count direction auto e,
          ap (λ (x : CameraModel R). x.next_split_group_id) k
              ∙ replace_by_tiles-group z m (length front) original count direction auto,
        )

  split_row-refused :
      (z : R) (m : CameraModel R) (place : ℕ) (original : CameraEntry R) (count : ℕ)
      (direction : SplitDirection) (auto : Bool)
      → IsSplittable original count direction
        ⊎ (split_row z m place original count direction auto ≡ refused m)
  unfolding split_row
  split_row-refused z m place original count direction auto =
      elim (Bool-cases (valid_count direction count)) [
        | inr bad ↦ inr (rw (bad, split_row))
        | inl ok ↦ elim (Bool-cases (original.split_count == 1)) [
          | inr tiled ↦ inr (rw (ok, tiled, split_row))
          | inl whole ↦ elim (Bool-cases original.is_online) [
            | inr off ↦ inr (ground (arith, ok, whole, off))
            | inl on ↦
                inl (record {
                  count_ok = ok;
                  whole = ==-eq original.split_count 1 whole;
                  online = on;
                })
          ]
        ]
      ]

  -- Of any call of a split: it names a row, and the row is splittable in that way; or the model stays
  -- as it was, nothing is emitted, and the answer is `false`.
  pub split_or_refused :
      (z : R) (m : CameraModel R) (row count : ℤ) (direction : SplitDirection) (auto : Bool)
      → ((place : ℕ) × (original : CameraEntry R) × (row_entry m.cameras row
            ≡ some (place, original))
          × IsSplittable original (rounds count) direction)
        ⊎ (split_slot_at_index z m row count direction auto ≡ refused m)
  unfolding split_slot_at_index
  split_or_refused z m row count direction auto = elim (Option-cases (row_entry m.cameras row)) [
    | inl e ↦ inr (rw (e, split_slot_at_index))
    | inr ((place, original), e) ↦
        elim (split_row-refused z m place original (rounds count) direction auto) [
          | inl s ↦ inl (place, original, e, s)
          | inr r ↦ inr (rw (e, split_slot_at_index) r)
        ]
  ]

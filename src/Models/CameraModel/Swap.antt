-- ===== src/Models/CameraModel/Swap.antt =====
-- What `swapSlots` moves, and the rows that have no automatic split.
use with_boost.Common.{
  ℕ, zero, suc, ◌≡◌, ◌≢◌, refl, sym, ◌∙◌, ℤ, pos, Bool, true, false, Option, none, some,
  Option-cases, Bool-cases, inl, inr, List, [], ◌∷◌, arith, get_elem?, set, ◌==◌, ==-eq, ==-refl,
  get_elem?-set_other, if◌then◌else◌,
}
use with_boost.Domain.Camera.{SplitDirection}
use with_boost.Models.CameraModel.Entry.{CameraEntry, CameraModel}
use with_boost.Models.CameraModel.CropRect.{valid_count}
use with_boost.Models.CameraModel.Split.{row_entry, split_slot_at_index, split_row, refused}
use with_boost.Models.CameraModel.Merge.{with_content, swap_rows, swap_slots}
use with_boost.Models.CameraModel.AutoSplit.{
  Env, auto_split_camera_id_tile_map, auto_split_tile_count_for_camera_id, auto_split_for_index,
  apply_auto_split_for_slot, index_by_slot_id,
}

module _ {R : Type 0} where
  get_elem?-set_self :
      (xs : List (CameraEntry R)) (i : ℕ) (a v : CameraEntry R)
      → get_elem? xs i ≡ some a
      → get_elem? (set xs i v) i ≡ some v
  get_elem?-set_self [] i a v e = cc
  get_elem?-set_self (x ∷ xs) zero a v e = refl
  get_elem?-set_self (x ∷ xs) (suc i) a v e = get_elem?-set_self xs i a v e

  -- Two different rows are swapped: each keeps its slot id and its sensor data, and has all else of
  -- the other; every other row is as it was.
  pub swap_slots_lem :
      (m : CameraModel R) (i j k : ℕ) (a b : CameraEntry R)
      → get_elem? m.cameras i ≡ some a
      → get_elem? m.cameras j ≡ some b
      → i ≢ j
      → get_elem? (swap_slots m (pos i) (pos j)).0.cameras k ≡ (
          if k == i
          then some (record b { slot_id = a.slot_id; device_info = a.device_info })
          else if k == j
          then some (record a { slot_id = b.slot_id; device_info = b.device_info })
          else get_elem? m.cameras k)
  unfolding swap_slots swap_rows with_content
  swap_slots_lem m i j k a b p q ne =
      let first = set m.cameras i (with_content a b) in
      let differ : i == j ≡ false = ground arith in
      let there : get_elem? first j ≡ some b =
        get_elem?-set_other m.cameras i j (with_content a b) ne ∙ q in
      rw (p, q, differ)
        (elim (Bool-cases (k == i)) [
          | inl e ↦
              rw (==-eq k i e, ==-refl i)
                (get_elem?-set_other first j i (with_content b a) (λ f. ne (sym f))
                  ∙ get_elem?-set_self m.cameras i a (with_content a b) p)
          | inr n ↦ elim (Bool-cases (k == j)) [
            | inl e ↦
                let apart : j == i ≡ false = ground arith in
                rw (==-eq k j e, apart, ==-refl j)
                  (get_elem?-set_self first j b (with_content b a) there)
            | inr n' ↦
                rw (n, n')
                  (get_elem?-set_other first j k (with_content b a) (ground arith)
                    ∙ get_elem?-set_other m.cameras i k (with_content a b) (ground arith))
          ]
        ])

  split_one :
      (z : R) (m : CameraModel R) (row : ℤ) (auto : Bool)
      → split_slot_at_index z m row (pos 1) SplitDirection.col auto ≡ refused m
  unfolding split_slot_at_index split_row valid_count
  split_one z m row auto = elim (Option-cases (row_entry m.cameras row)) [
    | inl e ↦ rw (e, split_slot_at_index)
    | inr ((place, original), e) ↦ rw (e, split_slot_at_index)
  ]

  auto_split_for_index_never :
      (v : Env R) (m : CameraModel R) (row : Option ℕ)
      → v.table ≡ auto_split_camera_id_tile_map
      → auto_split_for_index v m row ≡ refused m
  unfolding auto_split_for_index auto_split_tile_count_for_camera_id
  auto_split_for_index_never v m none t = refl
  auto_split_for_index_never v m (some row) t = elim (Option-cases (get_elem? m.cameras row)) [
    | inl e ↦ rw (e, auto_split_for_index)
    | inr (a, e) ↦
        rw (e, auto_split_for_index) (rw t (ground (arith, split_one v.zero_real m (pos row) true)))
  ]

  -- With the table as it is shipped, no automatic split is ever made: for every model and slot the
  -- answer is `false`, the model stays and nothing is emitted.
  pub auto_split_never :
      (v : Env R) (m : CameraModel R) (slot_id : ℕ)
      → v.table ≡ auto_split_camera_id_tile_map
      → apply_auto_split_for_slot v m slot_id ≡ refused m
  unfolding apply_auto_split_for_slot
  auto_split_never v m slot_id t = auto_split_for_index_never v m (index_by_slot_id m slot_id) t

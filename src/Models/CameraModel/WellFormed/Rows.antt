-- ===== src/Models/CameraModel/WellFormed/Rows.antt =====
-- The operations on rows keep a CameraModel well formed.
use with_boost.Common.{
  ℕ, ◌≡◌, refl, sym, ◌∙◌, ℤ, Bool, Option, none, some, List, [], ◌∷◌, ◌≢◌, ◌==◌,
  get_elem?-set_other, map-map_keep, Text, arith, get_elem?, set, All-get_elem?, All-set,
  All-remove_at, All-modify, All-map, map-remove_at, map-modify, map-set, subst, Fresh-remove_at,
  Option-cases, Bool-cases, inl, inr, set,
}
use with_boost.Domain.Camera.{DeviceInfo}
use with_boost.Models.CameraModel.Entry.{CameraEntry, CameraModel}
use with_boost.Models.CameraModel.Split.{row_entry, row_entry-get}
use with_boost.Models.CameraModel.Merge.{
  remove_tiles, merged, merge_rows, merge_group_by_index, group_indices, with_content, swap_rows,
  swap_slots, set_online, Edit, edited, set_data,
}
use with_boost.Models.CameraModel.Store.{with_sensors, update_sensor_info}
use with_boost.Models.CameraModel.SlotIds.{GroupBelow, slot_ids, IsWellFormed, IsWellFormed-keep}

module _ {R : Type 0} where
  remove_tiles-IsWellFormed :
      (places : List ℕ) (m : CameraModel R) → IsWellFormed m → IsWellFormed (remove_tiles places m)
  unfolding remove_tiles
  remove_tiles-IsWellFormed [] m w = w
  remove_tiles-IsWellFormed (p ∷ ps) m w =
      let kept = remove_tiles ps m in
      let v = remove_tiles-IsWellFormed ps m w in
      record {
        slots =
            rw (map-remove_at (λ (e : CameraEntry R). e.slot_id) p kept.cameras)
              (Fresh-remove_at p kept.next_slot_id (slot_ids kept.cameras) v.slots);
        groups = All-remove_at _ p kept.cameras v.groups;
      }

  merge_rows-IsWellFormed :
      (m : CameraModel R) (places : List ℕ) → IsWellFormed m → IsWellFormed (merge_rows m places).1
  unfolding merge_rows
  merge_rows-IsWellFormed m [] w = w
  merge_rows-IsWellFormed m (first ∷ []) w = w
  merge_rows-IsWellFormed m (first ∷ second ∷ places) w =
      let kept = remove_tiles (second ∷ places) m in
      let v = remove_tiles-IsWellFormed (second ∷ places) m w in
      IsWellFormed-keep kept _
        (map-modify (λ (e : CameraEntry R). e.slot_id) first merged kept.cameras
          (λ e. unfold merged in refl))
        (All-modify _ first merged kept.cameras (λ e g. unfold merged in tt) v.groups) v

  pub merge_group_by_index-IsWellFormed :
      (m : CameraModel R) (row : ℤ) → IsWellFormed m → IsWellFormed (merge_group_by_index m row).1
  unfolding merge_group_by_index
  merge_group_by_index-IsWellFormed m row w = elim (Option-cases (row_entry m.cameras row)) [
    | inl e ↦ rw (e, merge_group_by_index) w
    | inr ((place, target), e) ↦
        rw (e, merge_group_by_index)
          (ground
            (arith, merge_rows-IsWellFormed m (group_indices target.split_group_id 0 m.cameras) w))
  ]

  swap_rows-IsWellFormed :
      (m : CameraModel R) (i j : ℕ) (a b : CameraEntry R)
      → get_elem? m.cameras i ≡ some a
      → get_elem? m.cameras j ≡ some b
      → i ≢ j
      → IsWellFormed m
      → IsWellFormed
          (record m { cameras = set (set m.cameras i (with_content a b)) j (with_content b a) })
  unfolding with_content
  swap_rows-IsWellFormed m i j a b p q ne w =
      let first = set m.cameras i (with_content a b) in
      let there : get_elem? first j ≡ some b =
        get_elem?-set_other m.cameras i j (with_content a b) ne ∙ q in
      IsWellFormed-keep m _
        (map-set (λ (x : CameraEntry R). x.slot_id) j _ b first there refl
          ∙ map-set (λ (x : CameraEntry R). x.slot_id) i _ a m.cameras p refl)
        (All-set _ first j _ (All-get_elem? _ m.cameras i a p w.groups)
          (All-set _ m.cameras i _ (All-get_elem? _ m.cameras j b q w.groups) w.groups))
        w

  pub swap_slots-IsWellFormed :
      (m : CameraModel R) (x y : ℤ) → IsWellFormed m → IsWellFormed (swap_slots m x y).0
  unfolding swap_slots
  swap_slots-IsWellFormed m x y w = swap (row_entry m.cameras x) (row_entry m.cameras y) refl refl
    where
      swap :
          (p q : Option (ℕ × CameraEntry R))
          → row_entry m.cameras x ≡ p
          → row_entry m.cameras y ≡ q
          → IsWellFormed (swap_rows m p q).0
      swap none q e f = w
      swap (some a) none e f = w
      swap (some (i, a)) (some (j, b)) e f = elim (Bool-cases (i == j)) [
        | inl same ↦ rw same w
        | inr other ↦ rw other (
            swap_rows-IsWellFormed m i j a b (row_entry-get m.cameras x i a e)
              (row_entry-get m.cameras y j b f) (ground arith) w)
      ]

  pub set_online-IsWellFormed :
      (m : CameraModel R) (row : ℤ) (online : Bool)
      → IsWellFormed m
      → IsWellFormed (set_online m row online).0
  unfolding set_online
  set_online-IsWellFormed m row online w = elim (Option-cases (row_entry m.cameras row)) [
    | inl e ↦ rw (e, set_online) w
    | inr ((i, a), e) ↦
        let at = row_entry-get m.cameras row i a e in
        rw (e, set_online)
          (IsWellFormed-keep m _
            (map-set (λ (x : CameraEntry R). x.slot_id) i _ a m.cameras at refl)
            (All-set _ m.cameras i _ (All-get_elem? _ m.cameras i a at w.groups) w.groups) w)
  ]

  edited_keeps :
      (edit : Edit) (a a' : CameraEntry R)
      → edited edit a ≡ some a'
      → (a'.slot_id ≡ a.slot_id) × (a'.split_group_id ≡ a.split_group_id)
  unfolding edited
  edited_keeps edit a a' e = ground arith

  pub edited-IsWellFormed :
      (m : CameraModel R) (row : ℕ) (edit : Edit)
      → IsWellFormed m
      → IsWellFormed (set_data m row edit).1
  unfolding set_data
  edited-IsWellFormed m row edit w = elim (Option-cases (get_elem? m.cameras row)) [
    | inl e ↦ rw (e, set_data) w
    | inr (a, e) ↦ elim (Option-cases (edited edit a)) [
      | inl f ↦ rw (e, set_data) (rw f w)
      | inr (a', f) ↦
          let (s, g) = edited_keeps edit a a' f in
          rw (e, set_data)
            (rw f (
              IsWellFormed-keep m _
                (map-set (λ (x : CameraEntry R). x.slot_id) row a' a m.cameras e s)
                (All-set _ m.cameras row a'
                  (subst (GroupBelow m.next_split_group_id) (sym g)
                    (All-get_elem? _ m.cameras row a e w.groups))
                  w.groups)
                w))
    ]
  ]

  pub update_sensor_info-IsWellFormed :
      (m : CameraModel R) (cid : Text) (info : DeviceInfo R)
      → IsWellFormed m
      → IsWellFormed (update_sensor_info m cid info).0
  unfolding update_sensor_info
  update_sensor_info-IsWellFormed m cid info w =
      IsWellFormed-keep m _
        (map-map_keep (λ (x : CameraEntry R). x.slot_id) (with_sensors cid info) m.cameras
          (λ e. unfold with_sensors in ground arith))
        (All-map _ (with_sensors cid info) m.cameras (λ e g. unfold with_sensors in ground arith)
          w.groups)
        w

-- ===== src/Models/CameraModel/Edited.antt =====
-- What a view reads after an edit.
use with_boost.Common.{
  ℕ, zero, suc, ◌≡◌, ◌≢◌, refl, sym, ap, ◌∙◌, Bool, true, false, ltb, length, ◌&&◌, ◌==◌, ==-eq,
  Bool-cases, inl, inr, Option, none, some, Option-cases, List, [], ◌∷◌, Text, get_elem?, set,
  get_elem?-set_other, if◌then◌else◌, subst, arith,
}
use with_boost.Models.CameraModel.Entry.{
  CameraEntry, CameraModel, data_changed, Role, slot_id_role, title_role, is_online_role,
  description_role, card_width_role, card_height_role, camera_type_role, split_count_role,
  crop_rect_role, split_direction_role, camera_id_role,
}
use with_boost.Models.CameraModel.Merge.{
  Edit, edit_title, edit_online, edit_camera_type, edit_other, edit_role, edited, set_data,
}
use with_boost.Models.CameraModel.RowData.{Variant, text_value, truth, role_value, row_data}

abbrev pub role_number : Role → ℕ
role_number slot_id_role = 0
role_number title_role = 1
role_number is_online_role = 2
role_number description_role = 3
role_number card_width_role = 4
role_number card_height_role = 5
role_number camera_type_role = 6
role_number split_count_role = 7
role_number crop_rect_role = 8
role_number split_direction_role = 9
role_number camera_id_role = 10

abbrev pub same_role : Role → Role → Bool
same_role a b = role_number a == role_number b

-- What an edit writes.
abbrev pub edit_value : Edit → Option Variant
edit_value (edit_title t) = some (text_value t)
edit_value (edit_online b) = some (truth b)
edit_value (edit_camera_type t) = some (text_value t)
edit_value (edit_other role) = none

-- The edits that are admitted.
abbrev pub is_editable : Edit → Bool
is_editable (edit_title t) = true
is_editable (edit_online b) = true
is_editable (edit_camera_type t) = true
is_editable (edit_other role) = false

get_elem?-beyond :
    {A : Type 0} (xs : List A) (i : ℕ) → get_elem? xs i ≡ none → ltb i (length xs) ≡ false
get_elem?-beyond [] i h = ground arith
get_elem?-beyond (x ∷ xs) zero h = cc
get_elem?-beyond (x ∷ xs) (suc i) h = ground (arith, get_elem?-beyond xs i h)

get_elem?-within :
    {A : Type 0} (xs : List A) (i : ℕ) (a : A) → get_elem? xs i ≡ some a → ltb i (length xs) ≡ true
get_elem?-within [] i a h = cc
get_elem?-within (x ∷ xs) zero a h = ground arith
get_elem?-within (x ∷ xs) (suc i) a h = ground (arith, get_elem?-within xs i a h)

get_elem?-set_same :
    {A : Type 0} (xs : List A) (i : ℕ) (v a : A)
    → get_elem? xs i ≡ some a
    → get_elem? (set xs i v) i ≡ some v
get_elem?-set_same [] i v a h = cc
get_elem?-set_same (x ∷ xs) zero v a h = refl
get_elem?-set_same (x ∷ xs) (suc i) v a h = get_elem?-set_same xs i v a h

apart : (i j : ℕ) → i == j ≡ false → j ≢ i
apart i j q e = absurd (ground (arith, q, e))

module _ {R : Type 0} where
  title-role_value :
      (role : Role) (v : Text) (e : CameraEntry R)
      → some (role_value role (record e { title = v }))
        ≡ (if same_role role title_role then some (text_value v) else some (role_value role e))
  unfolding role_value
  title-role_value slot_id_role v e = refl
  title-role_value title_role v e = refl
  title-role_value is_online_role v e = refl
  title-role_value description_role v e = refl
  title-role_value card_width_role v e = refl
  title-role_value card_height_role v e = refl
  title-role_value camera_type_role v e = refl
  title-role_value split_count_role v e = refl
  title-role_value crop_rect_role v e = refl
  title-role_value split_direction_role v e = refl
  title-role_value camera_id_role v e = refl

  online-role_value :
      (role : Role) (v : Bool) (e : CameraEntry R)
      → some (role_value role (record e { is_online = v }))
        ≡ (if same_role role is_online_role then some (truth v) else some (role_value role e))
  unfolding role_value
  online-role_value slot_id_role v e = refl
  online-role_value title_role v e = refl
  online-role_value is_online_role v e = refl
  online-role_value description_role v e = refl
  online-role_value card_width_role v e = refl
  online-role_value card_height_role v e = refl
  online-role_value camera_type_role v e = refl
  online-role_value split_count_role v e = refl
  online-role_value crop_rect_role v e = refl
  online-role_value split_direction_role v e = refl
  online-role_value camera_id_role v e = refl

  camera_type-role_value :
      (role : Role) (v : Text) (e : CameraEntry R)
      → some (role_value role (record e { camera_type = v })) ≡ (
          if same_role role camera_type_role then some (text_value v) else some (role_value role e))
  unfolding role_value
  camera_type-role_value slot_id_role v e = refl
  camera_type-role_value title_role v e = refl
  camera_type-role_value is_online_role v e = refl
  camera_type-role_value description_role v e = refl
  camera_type-role_value card_width_role v e = refl
  camera_type-role_value card_height_role v e = refl
  camera_type-role_value camera_type_role v e = refl
  camera_type-role_value split_count_role v e = refl
  camera_type-role_value crop_rect_role v e = refl
  camera_type-role_value split_direction_role v e = refl
  camera_type-role_value camera_id_role v e = refl

  shown : Role → Option (CameraEntry R) → Option Variant
  shown role none = none
  shown role (some cam) = some (role_value role cam)

  row_data-set :
      (m : CameraModel R) (row row' : ℕ) (role : Role) (e e' : CameraEntry R) (b : Bool)
      (v : Option Variant)
      → get_elem? m.cameras row ≡ some e
      → some (role_value role e') ≡ (if b then v else some (role_value role e))
      → row_data (record m { cameras = set m.cameras row e' }) row' role
        ≡ (if (row' == row) && b then v else row_data m row' role)
  unfolding row_data shown
  row_data-set m row row' role e e' b v g h = elim (Bool-cases (row' == row)) [
    | inl q ↦ rw q (
        ap (shown role) (
          subst (λ r. get_elem? (set m.cameras row e') r ≡ some e') (sym (==-eq row' row q))
            (get_elem?-set_same m.cameras row e' e g))
        ∙ h
        ∙ ap (λ o. if b then v else o)
            (sym (
              ap (shown role)
                (subst (λ r. get_elem? m.cameras r ≡ some e) (sym (==-eq row' row q)) g))))
    | inr q ↦ rw q (ap (shown role) (get_elem?-set_other m.cameras row row' e' (apart row' row q)))
  ]

  -- An edit is accepted if and only if its row is there and it is one of the title, the online flag or the type. Behind an
  -- accepted edit a view reads, at the row and the role of the edit, what the edit writes, and at every other
  -- row or role what it read before; that role of that row is announced, and nothing else. Behind a refused
  -- edit a view reads everywhere what it read before, and nothing is announced.
  pub row_data-set_data :
      (m : CameraModel R) (row : ℕ) (edit : Edit) (row' : ℕ) (role : Role)
      → let (accepted, m', out) = set_data m row edit in
        let allowed = ltb row (length m.cameras) && is_editable edit in
        (accepted ≡ allowed)
        × (row_data m' row' role ≡ (
            if allowed && ((row' == row) && same_role role (edit_role edit))
            then edit_value edit
            else row_data m row' role))
        × (out ≡ (if allowed then data_changed row (edit_role edit ∷ []) ∷ [] else []))
  unfolding set_data edited
  row_data-set_data m row (edit_title t) row' role = elim (Option-cases (get_elem? m.cameras row)) [
    | inl n ↦ rw (set_data, n, get_elem?-beyond m.cameras row n) (refl, refl, refl)
    | inr (e, g) ↦
        rw (set_data, g, get_elem?-within m.cameras row e g)
          (
            refl,
            row_data-set m row row' role e (record e { title = t }) (same_role role title_role)
                (some (text_value t)) g (title-role_value role t e),
            refl,
          )
  ]
  row_data-set_data m row (edit_online b) row' role =
      elim (Option-cases (get_elem? m.cameras row)) [
        | inl n ↦ rw (set_data, n, get_elem?-beyond m.cameras row n) (refl, refl, refl)
        | inr (e, g) ↦
            rw (set_data, g, get_elem?-within m.cameras row e g)
              (
                refl,
                row_data-set m row row' role e (record e { is_online = b })
                    (same_role role is_online_role) (some (truth b)) g (online-role_value role b e),
                refl,
              )
      ]
  row_data-set_data m row (edit_camera_type t) row' role =
      elim (Option-cases (get_elem? m.cameras row)) [
        | inl n ↦ rw (set_data, n, get_elem?-beyond m.cameras row n) (refl, refl, refl)
        | inr (e, g) ↦
            rw (set_data, g, get_elem?-within m.cameras row e g)
              (
                refl,
                row_data-set m row row' role e (record e { camera_type = t })
                    (same_role role camera_type_role) (some (text_value t)) g
                    (camera_type-role_value role t e),
                refl,
              )
      ]
  row_data-set_data m row (edit_other other) row' role =
      elim (Option-cases (get_elem? m.cameras row)) [
        | inl n ↦ rw (set_data, n, get_elem?-beyond m.cameras row n) (refl, refl, refl)
        | inr (e, g) ↦ rw (set_data, g, get_elem?-within m.cameras row e g) (refl, refl, refl)
      ]

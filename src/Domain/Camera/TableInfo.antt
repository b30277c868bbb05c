-- ===== src/Domain/Camera/TableInfo.antt =====
-- The sensor data in the table of a CameraStore.
use with_boost.Common.{
  ◌≡◌, ◌⊎◌, refl, sym, ap, ◌∙◌, subst, Bool, true, false, Bool-cases, inl, inr, Option, none, some,
  Option-cases, List, [], ◌∷◌, Text, text_eq, text_eq→eq, if◌then◌else◌,
}
use with_boost.Domain.Camera.Data.{DeviceInfo, no_reading, CameraData, CameraStruct}
use with_boost.Domain.Camera.Store.{
  CameraStore, get_camera_struct, empty_struct, find_struct, at_key, with_table_info,
}

module _ {R : Type 0} (z : R) where
  -- The sensor data that the table has of a camera: those of an empty entry where it has none.
  pub info_of : List (Text × CameraStruct R) → Text → DeviceInfo R
  info_of table key = elim (find_struct key table) [ none ↦ no_reading z | some c ↦ c.device_info ]

  -- The entry that a change of a key starts from.
  abbrev pub entry : Text → List (Text × CameraStruct R) → CameraStruct R
  entry key table = elim (find_struct key table) [ none ↦ empty_struct z | some c ↦ c ]

  info_of-cons :
      (e : Text × CameraStruct R) (table : List (Text × CameraStruct R)) (k : Text)
      → info_of (e ∷ table) k ≡ (if text_eq e.0 k then e.1.device_info else info_of table k)
  unfolding info_of find_struct
  info_of-cons e table k = go (text_eq e.0 k)
    where
      go :
          (b : Bool)
          → elim (if b then some e.1 else find_struct k table) as (λ o. DeviceInfo R) [
            | none ↦ no_reading z
            | some c ↦ c.device_info
          ]
            ≡ (if b then e.1.device_info else info_of table k)
      go true = refl
      go false = refl

  pub info_of-nil : (k : Text) → info_of [] k ≡ no_reading z
  unfolding info_of find_struct
  info_of-nil k = refl

  pub info_of-at_key :
      (key k : Text) (change : CameraStruct R → CameraStruct R)
      (table : List (Text × CameraStruct R))
      → info_of (at_key z key change table) k
        ≡ (if text_eq key k then (change (entry key table)).device_info else info_of table k)
  unfolding find_struct at_key
  info_of-at_key key k change [] = info_of-cons (key, change (empty_struct z)) [] k
  info_of-at_key key k change (e ∷ table) = elim (Bool-cases (text_eq e.0 key)) [
    | inl p ↦ rw (entry, p) (here (text_eq→eq e.0 key p) (Bool-cases (text_eq key k)))
    | inr p ↦
        rw (entry, p) (later p (info_of-at_key key k change table) (Bool-cases (text_eq key k)))
  ]
    where
      here :
          e.0 ≡ key
          → (text_eq key k ≡ true) ⊎ (text_eq key k ≡ false)
          → info_of ((e.0, change e.1) ∷ table) k
            ≡ (if text_eq key k then (change e.1).device_info else info_of (e ∷ table) k)
      here l (inl q) =
          let q' = subst (λ t. text_eq t k ≡ true) (sym l) q in
          rw (info_of-cons (e.0, change e.1) table k, q, q') refl
      here l (inr q) =
          let q' = subst (λ t. text_eq t k ≡ false) (sym l) q in
          rw (info_of-cons (e.0, change e.1) table k, info_of-cons e table k, q, q') refl

      later :
          text_eq e.0 key ≡ false
          → info_of (at_key z key change table) k
            ≡ (if text_eq key k then (change (entry key table)).device_info else info_of table k)
          → (text_eq key k ≡ true) ⊎ (text_eq key k ≡ false)
          → info_of (e ∷ at_key z key change table) k ≡ (
              if text_eq key k
              then (change (entry key table)).device_info
              else info_of (e ∷ table) k)
      later p h (inl q) =
          let n = subst (λ t. text_eq e.0 t ≡ false) (text_eq→eq key k q) p in
          rw (info_of-cons e (at_key z key change table) k, info_of-cons e table k, n) h
      later p h (inr q) =
          rw (q, info_of-cons e (at_key z key change table) k, info_of-cons e table k)
            (ap (λ i. if text_eq e.0 k then e.1.device_info else i) (subst Without q h))
        where
          Without : Bool → Type 0
          Without b =
              info_of (at_key z key change table) k
              ≡ (if b then (change (entry key table)).device_info else info_of table k)

  entry-info_of :
      (key : Text) (table : List (Text × CameraStruct R))
      → (entry key table).device_info ≡ info_of table key
  unfolding info_of
  entry-info_of key table = go (find_struct key table)
    where
      go :
          (o : Option (CameraStruct R))
          → (elim o as (λ o. CameraStruct R) [ none ↦ empty_struct z | some c ↦ c ]).device_info
            ≡ (elim o as (λ o. DeviceInfo R) [ none ↦ no_reading z | some c ↦ c.device_info ])
      go none = refl
      go (some c) = refl

  -- A change that leaves the sensor data of every entry leaves those of the table.
  pub info_of-at_key_same :
      (key k : Text) (change : CameraStruct R → CameraStruct R)
      (table : List (Text × CameraStruct R))
      → ((c : CameraStruct R) → (change c).device_info ≡ c.device_info)
      → info_of (at_key z key change table) k ≡ info_of table k
  info_of-at_key_same key k change table same =
      info_of-at_key key k change table ∙ agree (Bool-cases (text_eq key k))
    where
      agree :
          (text_eq key k ≡ true) ⊎ (text_eq key k ≡ false)
          → (if text_eq key k then (change (entry key table)).device_info else info_of table k)
            ≡ info_of table k
      agree (inl q) = rw q (
          same (entry key table)
          ∙ entry-info_of key table
          ∙ ap (info_of table) (text_eq→eq key k q))
      agree (inr q) = rw q refl

  info_of-found :
      (o : Option (CameraStruct R)) (key : Text) (table : List (Text × CameraStruct R))
      → find_struct key table ≡ o
      → info_of table key
        ≡ (elim o as (λ o. DeviceInfo R) [ none ↦ no_reading z | some c ↦ c.device_info ])
  unfolding info_of
  info_of-found o key table e = rw (info_of, e) refl

  -- A row with the default sensor data, shown with those of the table.
  pub with_table_info-info_of :
      (table : List (Text × CameraStruct R)) (d : CameraData R)
      → d.device_info ≡ no_reading z
      → (with_table_info table d).device_info ≡ info_of table (with_table_info table d).camera_id
  with_table_info-info_of table d b = elim (Option-cases (find_struct d.camera_id table)) [
    | inl e ↦ rw (with_table_info, e) (b ∙ sym (info_of-found none d.camera_id table e))
    | inr (c, e) ↦ rw (with_table_info, e) (sym (info_of-found (some c) d.camera_id table e))
  ]

  pub data-info_of :
      (s : CameraStore R) (key : Text)
      → (get_camera_struct z s key).device_info ≡ info_of s.table key
  unfolding get_camera_struct
  data-info_of s key = entry-info_of key s.table

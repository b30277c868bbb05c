-- ===== src/Domain/Camera/CameraList.antt =====
-- What a camera list does to the sensor data of a CameraStore.
use with_boost.Common.{
  ◌≡◌, refl, ◌∙◌, Bool-cases, inl, inr, Option, none, some, Option-cases, List, [], ◌∷◌, Text,
  codes, All, All-append, is_empty,
}
use with_boost.Domain.Json.{Json}
use with_boost.Domain.Device.{Ending, threw, done}
use with_boost.Domain.Camera.Data.{no_reading, CameraData}
use with_boost.Domain.Camera.TableInfo.{info_of, info_of-at_key_same}
use with_boost.Domain.Camera.Store.{
  item_id, Store, Table, read_item, read_items, add_rows, update_from_json,
}

module _ (j : Json) where
  open j use {Value, Real, real_zero, parse, is_array, is_object, elements, value_text, value_bool}

  read_item-info :
      (table : Table j) (item : Value) (k : Text)
      → info_of real_zero (read_item j table item).0 k ≡ info_of real_zero table k
  unfolding read_item
  read_item-info table item k = elim (Bool-cases (is_object item)) [
    | inr o ↦ rw (read_item, o) refl
    | inl o ↦
        rw (read_item, o)
          (elim (Option-cases (value_text item (codes "source_url"))) [
            | inl e ↦ rw e refl
            | inr (url, e) ↦ rw e (elim (Option-cases (value_text item (codes "type"))) [
              | inl e ↦ rw e refl
              | inr (type, e) ↦ rw e (elim (Option-cases (value_bool item (codes "is_online"))) [
                | inl e ↦ rw e refl
                | inr (online, e) ↦ rw e (elim (Option-cases (value_text item (codes "ip"))) [
                  | inl e ↦ rw e refl
                  | inr (ip, e) ↦ rw e (elim (Bool-cases (is_empty (item_id j ip url))) [
                    | inl n ↦ rw n refl
                    | inr n ↦ rw n (
                        info_of-at_key_same real_zero (item_id j ip url) k
                          (λ c. record c { source_url = url }) table (λ c. refl))
                  ])
                ])
              ])
            ])
          ])
  ]

  -- A row that is read has the default sensor data.
  abbrev pub IsBlank : CameraData Real → Type 0
  IsBlank d = d.device_info ≡ no_reading real_zero

  abbrev AreBlank : Option (List (CameraData Real)) → Type 0
  AreBlank none = Unit
  AreBlank (some rows) = All IsBlank rows

  read_item-AreBlank : (table : Table j) (item : Value) → AreBlank (read_item j table item).1
  unfolding read_item
  read_item-AreBlank table item = elim (Bool-cases (is_object item)) [
    | inr o ↦ rw (read_item, o) tt
    | inl o ↦
        rw (read_item, o)
          (elim (Option-cases (value_text item (codes "source_url"))) [
            | inl e ↦ rw e tt
            | inr (url, e) ↦ rw e (elim (Option-cases (value_text item (codes "type"))) [
              | inl e ↦ rw e tt
              | inr (type, e) ↦ rw e (elim (Option-cases (value_bool item (codes "is_online"))) [
                | inl e ↦ rw e tt
                | inr (online, e) ↦ rw e (elim (Option-cases (value_text item (codes "ip"))) [
                  | inl e ↦ rw e tt
                  | inr (ip, e) ↦ rw e (elim (Bool-cases (is_empty (item_id j ip url))) [
                    | inl n ↦ rw n tt
                    | inr n ↦ rw n (refl, tt)
                  ])
                ])
              ])
            ])
          ])
  ]

  read_items-info :
      (table : Table j) (items : List Value) (k : Text)
      → info_of real_zero (read_items j table items).0 k ≡ info_of real_zero table k
  unfolding read_items
  read_items-info table [] k = refl
  read_items-info table (item ∷ items) k =
      let (table', rows) = read_item j table item in
      go rows (read_items j table' items) table' (read_items-info table' items k)
      ∙ read_item-info table item k
    where
      go :
          (rows : Option (List (CameraData Real)))
          (rest : Table j × Option (List (CameraData Real))) (table' : Table j)
          → info_of real_zero rest.0 k ≡ info_of real_zero table' k
          → info_of real_zero (add_rows j rows rest table').0 k ≡ info_of real_zero table' k
      go none rest table' h = refl
      go (some rows) rest table' h = h

  read_items-AreBlank :
      (table : Table j) (items : List Value) → AreBlank (read_items j table items).1
  unfolding read_items
  read_items-AreBlank table [] = tt
  read_items-AreBlank table (item ∷ items) =
      let (table', rows) = read_item j table item in
      go rows (read_items j table' items).0 (read_items j table' items).1 table'
        (read_item-AreBlank table item) (read_items-AreBlank table' items)
    where
      go :
          (rows : Option (List (CameraData Real))) (last : Table j)
          (rest : Option (List (CameraData Real))) (table' : Table j)
          → AreBlank rows
          → AreBlank rest
          → AreBlank (add_rows j rows (last, rest) table').1
      go none last rest table' a b = tt
      go (some rows) last none table' a b = tt
      go (some rows) last (some more) table' a b = All-append IsBlank rows more a b

  pub update_from_json-info :
      (s : Store j) (json k : Text)
      → info_of real_zero (update_from_json j s json).0.table k ≡ info_of real_zero s.table k
  unfolding update_from_json
  update_from_json-info s json k = elim (Bool-cases (is_array (parse json))) [
    | inr a ↦ rw a refl
    | inl a ↦ rw a (go (read_items j s.table items).1 ∙ read_items-info s.table items k)
  ]
    where
      items : List Value
      items = elements (parse json)

      after : Option (List (CameraData Real)) → Store j × Ending (List (CameraData Real))
      after rows = elim rows [
        | none ↦ (record s { table = (read_items j s.table items).0 }, threw)
        | some new_data ↦
            (record { data_ = new_data; table = (read_items j s.table items).0 }, done new_data)
      ]

      go :
          (rows : Option (List (CameraData Real)))
          → info_of real_zero (after rows).0.table k
            ≡ info_of real_zero (read_items j s.table items).0 k
      go none = refl
      go (some new_data) = refl

  pub update_from_json-AreBlank :
      (s : Store j) (json : Text)
      → All IsBlank s.data_
      → All IsBlank (update_from_json j s json).0.data_
  unfolding update_from_json
  update_from_json-AreBlank s json h = elim (Bool-cases (is_array (parse json))) [
    | inr a ↦ rw a h
    | inl a ↦ rw a (go (read_items j s.table items).1 (read_items-AreBlank s.table items))
  ]
    where
      items : List Value
      items = elements (parse json)

      after : Option (List (CameraData Real)) → Store j × Ending (List (CameraData Real))
      after rows = elim rows [
        | none ↦ (record s { table = (read_items j s.table items).0 }, threw)
        | some new_data ↦
            (record { data_ = new_data; table = (read_items j s.table items).0 }, done new_data)
      ]

      go :
          (rows : Option (List (CameraData Real)))
          → AreBlank rows
          → All IsBlank (after rows).0.data_
      go none r = h
      go (some new_data) r = r

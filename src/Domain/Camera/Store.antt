-- ===== src/Domain/Camera/Store.antt =====
-- CameraStore: its table is a map from camera identifiers, kept as an association list.
use mathlib.Core.List.{map}
use with_boost.Common.{
  not, Option, none, some, List, [], ◌∷◌, ◌++◌, Text, codes, text_eq, if◌then◌else◌, is_empty,
}
use with_boost.Domain.Json.{Json}
use with_boost.Domain.Camera.Data.{DeviceInfo, no_reading, CameraData, AiInfo, CameraStruct}
use with_boost.Domain.Device.{stream_id, Ending, dropped, done, threw}

pub record CameraStore (R : Type 0) : Type 0 where
  pub data_ : List (CameraData R)
  pub table : List (Text × CameraStruct R)

module _ {R : Type 0} where
  abbrev pub empty_struct : R → CameraStruct R
  empty_struct z = record {
    device_info = no_reading z;
    ai_info = record { img = []; person_count = [] };
    source_url = [];
  }

  unfoldable pub find_struct : Text → List (Text × CameraStruct R) → Option (CameraStruct R)
  find_struct key [] = none
  find_struct key (e ∷ table) = if text_eq e.0 key then some e.1 else find_struct key table

  -- `table_[key]` changed in place: a key that is missing gets a default-constructed entry first.
  unfoldable pub at_key :
      R
      → Text
      → (CameraStruct R → CameraStruct R)
      → List (Text × CameraStruct R)
      → List (Text × CameraStruct R)
  at_key z key change [] = (key, change (empty_struct z)) ∷ []
  at_key z key change (e ∷ table) =
      if text_eq e.0 key then (e.0, change e.1) ∷ table else e ∷ at_key z key change table

  unfoldable pub get_camera_struct : R → CameraStore R → Text → CameraStruct R
  unfolding find_struct
  get_camera_struct z s key = elim (find_struct key s.table) [ none ↦ empty_struct z | some c ↦ c ]

  unfoldable pub update_device_info : R → Text → DeviceInfo R → CameraStore R → CameraStore R
  unfolding at_key
  update_device_info z key info s = record s {
    table = at_key z key (λ c. record c { device_info = info }) s.table;
  }

  unfoldable pub update_ai_info : R → Text → AiInfo → CameraStore R → CameraStore R
  unfolding at_key
  update_ai_info z key info s = record s {
    table = at_key z key (λ c. record c { ai_info = info }) s.table;
  }

  abbrev pub with_table_info : List (Text × CameraStruct R) → CameraData R → CameraData R
  with_table_info table d = elim (find_struct d.camera_id table) [
    | none ↦ d
    | some c ↦ record d { device_info = c.device_info }
  ]

  unfoldable pub snapshot : CameraStore R → List (CameraData R)
  unfolding find_struct
  snapshot s = map (with_table_info s.table) s.data_

module _ (j : Json) where
  open j use {Value, Real, real_zero, parse, is_array, is_object, elements, value_text, value_bool}

  abbrev pub Store : Type 0
  Store = CameraStore Real

  abbrev pub Table : Type 0
  Table = List (Text × CameraStruct Real)

  -- The identifier of an item: empty where it has neither a stream nor an IP.
  unfoldable pub item_id : Text → Text → Text
  unfolding stream_id
  item_id ip url =
      let id = stream_id ip url in
      if is_empty id then if is_empty ip then [] else ip ++ codes "/0" else id

  -- One item: the table after it, and the new row if there is one, or `none` for an exception.
  unfoldable pub read_item : Table → Value → Table × Option (List (CameraData Real))
  unfolding item_id at_key
  read_item table item =
      let read : Table × Option (List (CameraData Real)) =
        elim (value_text item (codes "source_url")) [
          | none ↦ (table, none)
          | some url ↦ elim (value_text item (codes "type")) [
            | none ↦ (table, none)
            | some type ↦ elim (value_bool item (codes "is_online")) [
              | none ↦ (table, none)
              | some online ↦ elim (value_text item (codes "ip")) [
                | none ↦ (table, none)
                | some ip ↦
                    let id = item_id ip url in
                    let row : CameraData Real = record {
                      title = ip ++ (codes " (" ++ (type ++ codes ")"));
                      camera_type = type;
                      is_online = online;
                      camera_id = id;
                      device_info = no_reading real_zero;
                    } in
                    if is_empty id then (table, some []) else (
                      at_key real_zero id (λ c. record c { source_url = url }) table,
                      some (row ∷ []),
                    )
              ]
            ]
          ]
        ] in
      if not (is_object item) then (table, some []) else read

  abbrev pub add_rows :
      Option (List (CameraData Real))
      → Table × Option (List (CameraData Real))
      → Table
      → Table × Option (List (CameraData Real))
  add_rows none rest table = (table, none)
  add_rows (some rows) rest table =
      (rest.0, elim rest.1 [ none ↦ none | some more ↦ some (rows ++ more) ])

  unfoldable pub read_items : Table → List Value → Table × Option (List (CameraData Real))
  unfolding read_item
  read_items table [] = (table, some [])
  read_items table (item ∷ items) =
      let (table', rows) = read_item table item in add_rows rows (read_items table' items) table'

  -- An exception leaves the table as the items before it made it, and the rows as they were.
  unfoldable pub update_from_json : Store → Text → Store × Ending (List (CameraData Real))
  unfolding read_items
  update_from_json s json =
      let (table, rows) = read_items s.table (elements (parse json)) in
      let read : Store × Ending (List (CameraData Real)) = elim rows [
        | none ↦ (record s { table = table }, threw)
        | some new_data ↦ (record { data_ = new_data; table = table }, done new_data)
      ] in
      if not (is_array (parse json)) then (s, dropped) else read

-- ===== src/Domain/Device/Bounds.antt =====
-- The length of the histories over one packet.
use with_boost.Common.{
  ℤ, ◌≤◌, Bool, false, Bool-cases, inl, inr, Option, none, some, Option-cases, List, [], ◌∷◌, ◌++◌,
  Text, codes, text_eq, arith, length, All, All-append, is_empty,
}
use with_boost.Domain.Json.{Json, ◌>>=◌}
use with_boost.Domain.Device.{
  DeviceIntegrated, max_history, camera_id_of, push_some, find_device, has_device, new_device,
  known_device, camera_device, camera_devices, keep_absent, update_device, update_item,
  update_items, read_into, add_snapshot, listed, update_from_camera_json,
  update_from_available_json, Devices, Ending, threw, done,
}
use with_boost.Domain.Device.History.{length-trim}

abbrev pub HasBound : {R : Type 0} → DeviceIntegrated R → Type 0
HasBound d = length d.history ≤ max_history

abbrev pub HasBounds : (j : Json) → Devices j → Type 0
HasBounds j ds = All HasBound ds

module _ (j : Json) where
  open j use {
    Value, Real, real_zero, parse, is_array, is_object, elements, member, value_text, value_bool,
    value_int, value_real,
  }

  known_device-HasBound :
      (ds : Devices j) (ip : Text) → HasBounds j ds → HasBound (known_device j ds ip)
  unfolding find_device
  known_device-HasBound [] ip h = omega arith
  known_device-HasBound (d ∷ ds) ip h = elim (Bool-cases (text_eq d.ip ip)) [
    | inl e ↦ rw (known_device, e) h.0
    | inr e ↦ rw (known_device, e) (known_device-HasBound ds ip h.1)
  ]

  read_into-HasBound :
      (now : ℤ) (item : Value) (d : DeviceIntegrated Real)
      → HasBound d
      → HasBound (read_into j now item d).0
  unfolding read_into add_snapshot
  read_into-HasBound now item d h = elim (Option-cases (value_real item (codes "cpu"))) [
    | inl e ↦ rw (read_into, e) h
    | inr (cpu, e) ↦
        rw (read_into, e)
          (elim (Option-cases (value_real item (codes "memory"))) [
            | inl e ↦ rw e h
            | inr (memory, e) ↦ rw e (elim (Option-cases (value_real item (codes "temp"))) [
              | inl e ↦ rw e h
              | inr (temp, e) ↦ rw e (elim (Option-cases (value_int item (codes "uptime"))) [
                | inl e ↦ rw e h
                | inr (uptime, e) ↦ rw e (
                    length-trim max_history (
                      d.history
                      ++ record {
                        timestamp = now;
                        cpu = cpu;
                        memory = memory;
                        temp = temp;
                        uptime = uptime;
                      }
                        ∷ []))
              ])
            ])
          ])
  ]

  update_device-HasBounds :
      (ip : Text) (change : DeviceIntegrated Real → DeviceIntegrated Real × Bool) (ds : Devices j)
      → ((d : DeviceIntegrated Real) → HasBound d → HasBound (change d).0)
      → HasBounds j ds
      → HasBounds j (update_device j ip change ds).0
  unfolding update_device
  update_device-HasBounds ip change [] k h = (k (new_device real_zero ip) (omega arith), tt)
  update_device-HasBounds ip change (d ∷ ds) k h = elim (Bool-cases (text_eq d.ip ip)) [
    | inl e ↦ rw e (k d h.0, h.1)
    | inr e ↦ rw e (h.0, update_device-HasBounds ip change ds k h.1)
  ]

  update_item-HasBounds :
      (now : ℤ) (ds : Devices j) (item : Value)
      → HasBounds j ds
      → HasBounds j (update_item j now ds item).0
  unfolding update_item
  update_item-HasBounds now ds item h = elim (Bool-cases (is_object item)) [
    | inr o ↦ rw o h
    | inl o ↦ rw o (elim (Option-cases (value_text item (codes "ip"))) [
      | inl t ↦ rw t h
      | inr (ip, t) ↦ rw t (elim (Bool-cases (is_empty ip)) [
        | inl e ↦ rw e h
        | inr e ↦
            rw e
              (update_device-HasBounds ip (read_into j now item) ds (read_into-HasBound now item) h)
      ])
    ])
  ]

  update_items-HasBounds :
      (now : ℤ) (ds : Devices j) (items : List Value)
      → HasBounds j ds
      → HasBounds j (update_items j now ds items).0
  unfolding update_items
  update_items-HasBounds now ds [] h = h
  update_items-HasBounds now ds (item ∷ items) h =
      let first = update_item-HasBounds now ds item h in
      elim (Bool-cases (update_item j now ds item).1) [
        | inl e ↦ rw e (update_items-HasBounds now (update_item j now ds item).0 items first)
        | inr e ↦ rw e first
      ]

  abbrev FoundHasBound : Option (Option (DeviceIntegrated Real)) → Type 0
  FoundHasBound none = Unit
  FoundHasBound (some none) = Unit
  FoundHasBound (some (some d)) = HasBound d

  camera_device-HasBound :
      (ds : Devices j) (item : Value) → HasBounds j ds → FoundHasBound (camera_device j ds item)
  unfolding camera_device
  camera_device-HasBound ds item h = elim (Bool-cases (is_object item)) [
    | inr o ↦ rw o tt
    | inl o ↦ rw o (elim (Option-cases (value_text item (codes "ip"))) [
      | inl t ↦ rw t tt
      | inr (ip, t) ↦
          rw t (elim (Bool-cases (is_empty ip)) [ inl e ↦ rw e tt | inr n ↦ rw n (described ip) ])
    ])
  ]
    where
      described :
          (ip : Text)
          → FoundHasBound (
              value_text item (codes "source_url") >>= λ url.
              value_text item (codes "type") >>= λ type.
              value_bool item (codes "is_online") >>= λ online. some (
                some (record (known_device j ds ip) {
                  camera_id = camera_id_of ip url;
                  type = type;
                  is_online = online;
                  has_motor = text_eq type (codes "SUB_PI");
                  has_ir = false;
                  has_heater = false;
                })))
      described ip = elim (Option-cases (value_text item (codes "source_url"))) [
        | inl e ↦ rw e tt
        | inr (url, e) ↦ rw e (elim (Option-cases (value_text item (codes "type"))) [
          | inl e ↦ rw e tt
          | inr (type, e) ↦ rw e (elim (Option-cases (value_bool item (codes "is_online"))) [
            | inl e ↦ rw e tt
            | inr (online, e) ↦ rw e (known_device-HasBound ds ip h)
          ])
        ])
      ]

  abbrev MergedHasBounds : Option (Devices j) → Type 0
  MergedHasBounds none = Unit
  MergedHasBounds (some ds) = HasBounds j ds

  camera_devices-HasBounds :
      (ds : Devices j) (items : List Value)
      → HasBounds j ds
      → MergedHasBounds (camera_devices j ds items)
  unfolding camera_devices
  camera_devices-HasBounds ds [] h = tt
  camera_devices-HasBounds ds (item ∷ items) h =
      join (camera_device j ds item) (camera_devices j ds items) (camera_device-HasBound ds item h)
        (camera_devices-HasBounds ds items h)
    where
      join :
          (found : Option (Option (DeviceIntegrated Real))) (rest : Option (Devices j))
          → FoundHasBound found
          → MergedHasBounds rest
          → MergedHasBounds (found >>= λ d. rest >>= λ ds. some (push_some j d ds))
      join none rest f r = tt
      join (some d) none f r = tt
      join (some none) (some ds) f r = r
      join (some (some d)) (some ds) f r = (f, r)

  keep_absent-HasBounds :
      (merged olds : Devices j)
      → HasBounds j merged
      → HasBounds j olds
      → HasBounds j (keep_absent j merged olds)
  unfolding keep_absent
  keep_absent-HasBounds merged [] h k = h
  keep_absent-HasBounds merged (old ∷ olds) h k = elim (Bool-cases (has_device merged old.ip)) [
    | inl e ↦ rw e (keep_absent-HasBounds merged olds h k.1)
    | inr e ↦ rw e (
        keep_absent-HasBounds (merged ++ record old { is_online = false } ∷ []) olds
          (All-append HasBound merged (record old { is_online = false } ∷ []) h (k.0, tt)) k.1)
  ]

  pub update_from_camera_json-HasBounds :
      (ds : Devices j) (json : Text)
      → HasBounds j ds
      → HasBounds j (update_from_camera_json j ds json).0
  unfolding update_from_camera_json
  update_from_camera_json-HasBounds ds json h = elim (Bool-cases (is_array (parse json))) [
    | inr a ↦ rw a h
    | inl a ↦ rw a (
        merge (camera_devices j ds (elements (parse json)))
          (camera_devices-HasBounds ds (elements (parse json)) h))
  ]
    where
      merge :
          (merged : Option (Devices j))
          → MergedHasBounds merged
          → HasBounds j
              (elim merged as (λ o. Devices j × Ending (Devices j)) [
                | none ↦ (ds, threw)
                | some m ↦ (keep_absent j m ds, done (keep_absent j m ds))
              ]).0
      merge none m = h
      merge (some merged) m = keep_absent-HasBounds merged ds m h

  pub update_from_available_json-HasBounds :
      (now : ℤ) (ds : Devices j) (json : Text)
      → HasBounds j ds
      → HasBounds j (update_from_available_json j now ds json).0
  unfolding update_from_available_json
  update_from_available_json-HasBounds now ds json h = elim (Bool-cases (is_object (parse json))) [
    | inr a ↦ rw a h
    | inl a ↦
        rw a (update_items-HasBounds now ds (listed j (member (parse json) (codes "devices"))) h)
  ]

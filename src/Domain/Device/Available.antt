-- ===== src/Domain/Device/Available.antt =====
-- The AVAILABLE packet as a change of a map from IPs to devices.
use mathlib.Core.Path.{fun_ext, ap₂}
use with_boost.Common.{
  arith, ℤ, ◌≡◌, ◌⊎◌, refl, ap, ◌∙◌, Bool, true, false, not, Bool-cases, inl, inr, Option, none,
  some, Option-cases, List, [], ◌∷◌, Text, codes, text_eq, is_empty, if◌then◌else◌,
}
use with_boost.Domain.Json.{Json}
use with_boost.Domain.Device.{
  DeviceIntegrated, find_device, new_device, known_device, update_device, update_item, update_items,
  read_into, Devices,
}
use with_boost.Domain.Device.View.{find-update_device, update_device-ok}

module _ (j : Json) where
  open j use {Value, Real, real_zero, is_object, value_text, value_real, value_int}

  abbrev pub Lookup : Type 0
  Lookup = Text → Option (DeviceIntegrated Real)

  abbrev pub known : Lookup → Text → DeviceIntegrated Real
  known look ip = elim (look ip) [ none ↦ new_device real_zero ip | some d ↦ d ]

  -- What an item means for the map: the device of its IP, or a new one, takes the readings.
  pub item_meaning : ℤ → Lookup → Value → Lookup × Bool
  item_meaning now look item =
      let named : Lookup × Bool = elim (value_text item (codes "ip")) [
        | none ↦ (look, false)
        | some ip ↦
            let (d, ok) = read_into j now item (known look ip) in
            if is_empty ip then (look, true) else (λ k. if text_eq ip k then some d else look k, ok)
      ] in
      if not (is_object item) then (look, true) else named

  pub packet_meaning : ℤ → Lookup → List Value → Lookup × Bool
  packet_meaning now look [] = (look, true)
  packet_meaning now look (item ∷ items) =
      let (look', ok) = item_meaning now look item in
      let rest = packet_meaning now look' items in if ok then rest else (look', false)

  -- The map that a list of devices stands for.
  abbrev pub view : Devices j → Lookup
  view ds k = find_device k ds

  read_into-ip :
      (now : ℤ) (item : Value) (d : DeviceIntegrated Real) → (read_into j now item d).0.ip ≡ d.ip
  unfolding read_into
  read_into-ip now item d = ground arith

  update_item-view :
      (now : ℤ) (ds : Devices j) (item : Value)
      → let (ds', ok) = update_item j now ds item in
        (view ds', ok) ≡ item_meaning now (view ds) item
  unfolding update_item item_meaning
  update_item-view now ds item = elim (Bool-cases (is_object item)) [
    | inr o ↦ rw o refl
    | inl o ↦ rw o (elim (Option-cases (value_text item (codes "ip"))) [
      | inl t ↦ rw t refl
      | inr (ip, t) ↦
          rw t (elim (Bool-cases (is_empty ip)) [ inl e ↦ rw e refl | inr e ↦ rw e (read ip) ])
    ])
  ]
    where
      Reads : Text → Type 0
      Reads ip =
          let (ds', ok) = update_device j ip (read_into j now item) ds in
          let (d, ok') = read_into j now item (known_device j ds ip) in
          let before : Lookup × Bool = (view ds', ok) in
          let after : Lookup × Bool =
            (λ k. if text_eq ip k then some d else find_device k ds, ok') in
          before ≡ after

      read : (ip : Text) → Reads ip
      read ip =
          ap₂ (λ look ok. (look, ok))
            (fun_ext
              (λ k. find-update_device j k ip (read_into j now item) ds (read_into-ip now item)))
            (update_device-ok j ip (read_into j now item) ds)

  -- The items of an AVAILABLE packet, exceptions included, act on the list of devices as they act on
  -- the map from IPs that it stands for: the order of the devices and further devices with an IP that
  -- an earlier one has play no part.
  pub update_items-view :
      (now : ℤ) (ds : Devices j) (items : List Value)
      → let (ds', ok) = update_items j now ds items in
        (view ds', ok) ≡ packet_meaning now (view ds) items
  unfolding update_items packet_meaning
  update_items-view now ds [] = refl
  update_items-view now ds (item ∷ items) =
      go (Bool-cases r.1) (update_items-view now r.0 items) ∙ ap step (update_item-view now ds item)
    where
      r : Devices j × Bool
      r = update_item j now ds item

      step : Lookup × Bool → Lookup × Bool
      step p = let rest = packet_meaning now p.0 items in if p.1 then rest else (p.0, false)

      go :
          (r.1 ≡ true) ⊎ (r.1 ≡ false)
          → (view (update_items j now r.0 items).0, (update_items j now r.0 items).1)
            ≡ packet_meaning now (view r.0) items
          → (
            view (update_items j now ds (item ∷ items)).0,
            (update_items j now ds (item ∷ items)).1,
          )
            ≡ step (view r.0, r.1)
      go (inl e) h = rw e h
      go (inr e) h = rw e refl

-- ===== src/Domain/Device/View.antt =====
-- The devices of a DeviceStore as a map from IPs: how the two packets change the lookup.
use mathlib.Core.Option
use with_boost.Common.{
  ◌≡◌, ◌⊎◌, refl, sym, ap, ◌∙◌, subst, Bool, true, false, Bool-cases, inl, inr, Option, none, some,
  Option-cases, List, [], ◌∷◌, ◌++◌, Text, text_eq, text_eq→eq, arith, if◌then◌else◌,
}
use with_boost.Domain.Json.{Json}
use with_boost.Domain.Device.{
  DeviceIntegrated, find_device, has_device, new_device, known_device, keep_absent, update_device,
  camera_devices, update_from_camera_json, done, Devices,
}

abbrev pub or_else {ℓ} : {A : Type ℓ} → Option A → Option A → Option A
or_else none o = o
or_else (some a) o = some a

or_else-none {ℓ} : {A : Type ℓ} (o : Option A) → or_else o none ≡ o
or_else-none none = refl
or_else-none (some a) = refl

or_else_assoc {ℓ} :
    {A : Type ℓ} (o p q : Option A) → or_else (or_else o p) q ≡ or_else o (or_else p q)
or_else_assoc none p q = refl
or_else_assoc (some a) p q = refl

module _ {R : Type 0} where
  find_device-append :
      (k : Text) (xs ys : List (DeviceIntegrated R))
      → find_device k (xs ++ ys) ≡ or_else (find_device k xs) (find_device k ys)
  unfolding find_device
  find_device-append k [] ys = refl
  find_device-append k (x ∷ xs) ys = elim (Bool-cases (text_eq x.ip k)) [
    | inl e ↦ rw e refl
    | inr e ↦ rw e (find_device-append k xs ys)
  ]

  abbrev pub set_offline : DeviceIntegrated R → DeviceIntegrated R
  set_offline d = record d { is_online = false }

module _ (j : Json) where
  open j use {Real, real_zero, parse, is_array, elements}

  keep_one :
      (k : Text) (merged olds : Devices j) (old : DeviceIntegrated Real)
      → or_else
          (find_device k
            (if has_device merged old.ip then merged else merged ++ set_offline old ∷ []))
          (Option.map set_offline (find_device k olds))
        ≡ or_else (find_device k merged) (Option.map set_offline (find_device k (old ∷ olds)))
  unfolding find_device has_device
  keep_one k merged olds old = elim (Option-cases (find_device old.ip merged)) [
    | inl p ↦
        rw
          (
            has_device,
            p,
            find_device-append k merged (set_offline old ∷ []),
            or_else_assoc (find_device k merged)
                (if text_eq old.ip k then some (set_offline old) else none)
                (Option.map set_offline (find_device k olds)),
          )
          (ground arith)
    | inr (d, p) ↦ rw (has_device, p) (named d p (Bool-cases (text_eq old.ip k)))
  ]
    where
      named :
          (d : DeviceIntegrated Real)
          → find_device old.ip merged ≡ some d
          → (text_eq old.ip k ≡ true) ⊎ (text_eq old.ip k ≡ false)
          → or_else (find_device k merged) (Option.map set_offline (find_device k olds))
            ≡ or_else (find_device k merged) (Option.map set_offline (find_device k (old ∷ olds)))
      named d p (inl q) =
          rw (subst (λ t. find_device t merged ≡ some d) (text_eq→eq old.ip k q) p) refl
      named d p (inr q) = rw q refl

  find-keep_absent :
      (k : Text) (merged olds : Devices j)
      → find_device k (keep_absent j merged olds)
        ≡ or_else (find_device k merged) (Option.map set_offline (find_device k olds))
  unfolding keep_absent
  find-keep_absent k merged [] = sym (or_else-none (find_device k merged))
  find-keep_absent k merged (old ∷ olds) =
      find-keep_absent k
        (if has_device merged old.ip then merged else merged ++ set_offline old ∷ []) olds
      ∙ keep_one k merged olds old

  pub find-update_device :
      (k ip : Text) (change : DeviceIntegrated Real → DeviceIntegrated Real × Bool) (ds : Devices j)
      → ((d : DeviceIntegrated Real) → (change d).0.ip ≡ d.ip)
      → find_device k (update_device j ip change ds).0
        ≡ (if text_eq ip k then some (change (known_device j ds ip)).0 else find_device k ds)
  unfolding find_device update_device
  find-update_device k ip change [] keep = rw (keep (new_device real_zero ip)) refl
  find-update_device k ip change (d ∷ ds) keep = elim (Bool-cases (text_eq d.ip ip)) [
    | inl e ↦ rw (known_device, e) (here (text_eq→eq d.ip ip e))
    | inr e ↦
        rw (known_device, e)
          (later e (find-update_device k ip change ds keep) (Bool-cases (text_eq ip k)))
  ]
    where
      here :
          d.ip ≡ ip
          → find_device k ((change d).0 ∷ ds)
            ≡ (if text_eq ip k then some (change d).0 else find_device k (d ∷ ds))
      here e = rw (keep d, e) (ground arith)

      later :
          text_eq d.ip ip ≡ false
          → find_device k (update_device j ip change ds).0
            ≡ (if text_eq ip k then some (change (known_device j ds ip)).0 else find_device k ds)
          → (text_eq ip k ≡ true) ⊎ (text_eq ip k ≡ false)
          → find_device k (d ∷ (update_device j ip change ds).0) ≡ (
              if text_eq ip k
              then some (change (known_device j ds ip)).0
              else find_device k (d ∷ ds))
      later n h (inl q) = rw (subst (λ t. text_eq d.ip t ≡ false) (text_eq→eq ip k q) n) h
      later n h (inr q) = rw q (ap (λ o. if text_eq d.ip k then some d else o) (subst Without q h))
        where
          Without : Bool → Type 0
          Without b =
              find_device k (update_device j ip change ds).0
              ≡ (if b then some (change (known_device j ds ip)).0 else find_device k ds)

  pub update_device-ok :
      (ip : Text) (change : DeviceIntegrated Real → DeviceIntegrated Real × Bool) (ds : Devices j)
      → (update_device j ip change ds).1 ≡ (change (known_device j ds ip)).1
  unfolding find_device update_device
  update_device-ok ip change [] = refl
  update_device-ok ip change (d ∷ ds) = elim (Bool-cases (text_eq d.ip ip)) [
    | inl e ↦ rw (known_device, e) refl
    | inr e ↦ rw (known_device, e) (update_device-ok ip change ds)
  ]

  -- The packet is an array and none of its items makes a read throw; `merged` are the devices of its
  -- items. The callback gets the store as it is then; and for each IP the store then has the first device
  -- of the packet with that IP, or else the first one that it had before, set offline, or else none.
  pub update_from_camera_json_lem :
      (devices merged : Devices j) (json : Text) (k : Text)
      → is_array (parse json) ≡ true
      → camera_devices j devices (elements (parse json)) ≡ some merged
      → let (after, ending) = update_from_camera_json j devices json in
        (ending ≡ done after)
        × (find_device k after
            ≡ or_else (find_device k merged) (Option.map set_offline (find_device k devices)))
  unfolding update_from_camera_json
  update_from_camera_json_lem devices merged json k a e =
      rw (a, e) (refl, find-keep_absent k merged devices)

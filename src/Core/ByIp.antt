-- ===== src/Core/ByIp.antt =====
-- Whose readings a META message changes.
use with_boost.Common.{
  ◌≡◌, ◌⊎◌, refl, sym, ap, ◌∙◌, Bool, true, false, ◌&&◌, ◌||◌, Bool-cases, inl, inr, some, List, [],
  ◌∷◌, Text, text_eq, text_eq→eq, starts_with, if◌then◌else◌, subst,
}
use with_boost.Domain.Json.{Json}
use with_boost.Domain.Camera.{DeviceInfo, CameraData}
use with_boost.Domain.Camera.{snapshot, update_device_info, get_camera_struct}
use with_boost.Domain.Camera.TableInfo.{info_of, info_of-at_key, data-info_of}
use with_boost.Core.{Store, matching, ip_of, sensor_info, update_all, on_meta}

-- Whether a key is one of those of a list.
pub named : Text → List Text → Bool
named key [] = false
named key (k ∷ ks) = text_eq k key || named key ks

pub is_listed : {R : Type 0} → Text → List (CameraData R) → Bool
is_listed key [] = false
is_listed key (cam ∷ cams) = text_eq cam.camera_id key || is_listed key cams

and_false : (b : Bool) → (b && false) ≡ false
and_false true = refl
and_false false = refl

named-matching :
    {R : Type 0} (key ip : Text) (cams : List (CameraData R))
    → named key (matching ip cams) ≡ (is_listed key cams && starts_with key ip)
unfolding named is_listed matching
named-matching key ip [] = refl
named-matching key ip (cam ∷ cams) =
    go (Bool-cases (starts_with cam.camera_id ip)) (Bool-cases (text_eq cam.camera_id key))
      (named-matching key ip cams)
  where
    go :
        (starts_with cam.camera_id ip ≡ true) ⊎ (starts_with cam.camera_id ip ≡ false)
        → (text_eq cam.camera_id key ≡ true) ⊎ (text_eq cam.camera_id key ≡ false)
        → named key (matching ip cams) ≡ (is_listed key cams && starts_with key ip)
        → named key (
            if starts_with cam.camera_id ip
            then cam.camera_id ∷ matching ip cams
            else matching ip cams)
          ≡ ((text_eq cam.camera_id key || is_listed key cams) && starts_with key ip)
    go (inl a) (inl b) ih =
        rw (a, named, b)
          (sym (subst (λ t. starts_with t ip ≡ true) (text_eq→eq cam.camera_id key b) a))
    go (inl a) (inr b) ih = rw (a, named, b) ih
    go (inr a) (inl b) ih =
        let out = subst (λ t. starts_with t ip ≡ false) (text_eq→eq cam.camera_id key b) a in
        rw (a, b, out) (ih ∙ ap (is_listed key cams &&◌) out ∙ and_false (is_listed key cams))
    go (inr a) (inr b) ih = rw (a, b) ih

pick :
    {A : Type 0} (e n : Bool) (x y : A)
    → (if n then x else (if e then x else y)) ≡ (if e || n then x else y)
pick true true x y = refl
pick true false x y = refl
pick false n x y = refl

module _ (j : Json) where
  open j use {Real, real_zero, parse}

  update_all-info :
      (info : DeviceInfo Real) (ids : List Text) (s : Store j) (key : Text)
      → info_of real_zero (update_all j info ids s).table key
        ≡ (if named key ids then info else info_of real_zero s.table key)
  unfolding update_all update_device_info named
  update_all-info info [] s key = refl
  update_all-info info (id ∷ ids) s key =
      update_all-info info ids (update_device_info real_zero id info s) key
      ∙ ap (λ i. if named key ids then info else i)
          (info_of-at_key real_zero id key (λ c. record c { device_info = info }) s.table)
      ∙ pick (text_eq id key) (named key ids) info (info_of real_zero s.table key)

  -- The sensor data that a store has of a camera.
  abbrev pub data_of : Store j → Text → DeviceInfo Real
  data_of s key = (get_camera_struct real_zero s key).device_info

  -- A META message has an IP and a batch whose last entry has the readings: for each camera, the store then has them
  -- just where the camera is listed and its identifier begins with the IP, and what it had before elsewhere. So the
  -- cameras of an IP that is longer and begins with this one get them as well.
  pub on_meta-data :
      (s : Store j) (json ip : Text) (info : DeviceInfo Real)
      → ip_of j (parse json) ≡ some ip
      → sensor_info j (parse json) ≡ some info
      → (key : Text)
      → data_of (on_meta j s json).0 key
        ≡ (if is_listed key (snapshot s) && starts_with key ip then info else data_of s key)
  unfolding on_meta
  on_meta-data s json ip info h k key =
      rw (on_meta, h, k)
        (data-info_of real_zero (update_all j info (matching ip (snapshot s)) s) key
          ∙ update_all-info info (matching ip (snapshot s)) s key
          ∙ ap (λ b. if b then info else info_of real_zero s.table key)
              (named-matching key ip (snapshot s))
          ∙ ap (λ i. if is_listed key (snapshot s) && starts_with key ip then info else i)
              (sym (data-info_of real_zero s key)))

-- ===== src/Domain/Camera/Latest.antt =====
-- Which sensor data the rows of a snapshot show.
use mathlib.Core.List.{map}
use with_boost.Common.{
  ◌≡◌, refl, ap, ◌∙◌, List, [], ◌∷◌, Text, text_eq, All, All-mono, if◌then◌else◌,
}
use with_boost.Domain.Json.{Json}
use with_boost.Domain.Camera.Data.{DeviceInfo, no_reading, CameraData, AiInfo}
use with_boost.Domain.Camera.Store.{
  Store, update_device_info, update_ai_info, with_table_info, snapshot, update_from_json,
}
use with_boost.Domain.Camera.TableInfo.{
  info_of, info_of-nil, info_of-at_key, info_of-at_key_same, with_table_info-info_of,
}
use with_boost.Domain.Camera.CameraList.{IsBlank, update_from_json-info, update_from_json-AreBlank}

-- The operations of a CameraStore that change it.
pub data Command (R : Type 0) : Type 0 where
  lists : Text → Command R
  reads_sensors : Text → DeviceInfo R → Command R
  reads_ai : Text → AiInfo → Command R
  clears : Command R

module _ (j : Json) where
  open j use {Real, real_zero}

  abbrev pub empty_store : Store j
  empty_store = record { data_ = []; table = [] }

  pub step : Store j → Command Real → Store j
  step s (lists json) = (update_from_json j s json).0
  step s (reads_sensors key info) = update_device_info real_zero key info s
  step s (reads_ai key info) = update_ai_info real_zero key info s
  step s clears = empty_store

  pub run : Store j → List (Command Real) → Store j
  run s [] = s
  run s (c ∷ cs) = run (step s c) cs

  -- The last sensor data that the operations gave for a camera, from `info` on.
  pub latest : Text → DeviceInfo Real → List (Command Real) → DeviceInfo Real
  latest key info [] = info
  latest key info (lists json ∷ cs) = latest key info cs
  latest key info (reads_sensors k new ∷ cs) = latest key (if text_eq k key then new else info) cs
  latest key info (reads_ai k ai ∷ cs) = latest key info cs
  latest key info (clears ∷ cs) = latest key (no_reading real_zero) cs

  run-info :
      (s : Store j) (cs : List (Command Real)) (key : Text)
      → info_of real_zero (run s cs).table key ≡ latest key (info_of real_zero s.table key) cs
  unfolding run step latest update_device_info update_ai_info
  run-info s [] key = refl
  run-info s (lists json ∷ cs) key =
      run-info (update_from_json j s json).0 cs key
      ∙ ap (λ i. latest key i cs) (update_from_json-info j s json key)
  run-info s (reads_sensors k new ∷ cs) key =
      run-info (update_device_info real_zero k new s) cs key
      ∙ ap (λ i. latest key i cs)
          (info_of-at_key real_zero k key (λ c. record c { device_info = new }) s.table)
  run-info s (reads_ai k ai ∷ cs) key =
      run-info (update_ai_info real_zero k ai s) cs key
      ∙ ap (λ i. latest key i cs)
          (info_of-at_key_same real_zero k key (λ c. record c { ai_info = ai }) s.table (λ c. refl))
  run-info s (clears ∷ cs) key =
      run-info empty_store cs key ∙ ap (λ i. latest key i cs) (info_of-nil real_zero key)

  run-AreBlank :
      (s : Store j) (cs : List (Command Real))
      → All (IsBlank j) s.data_
      → All (IsBlank j) (run s cs).data_
  unfolding run step update_device_info update_ai_info
  run-AreBlank s [] h = h
  run-AreBlank s (lists json ∷ cs) h =
      run-AreBlank (update_from_json j s json).0 cs (update_from_json-AreBlank j s json h)
  run-AreBlank s (reads_sensors k new ∷ cs) h =
      run-AreBlank (update_device_info real_zero k new s) cs h
  run-AreBlank s (reads_ai k ai ∷ cs) h = run-AreBlank (update_ai_info real_zero k ai s) cs h
  run-AreBlank s (clears ∷ cs) h = run-AreBlank empty_store cs tt

  abbrev pub Shows : (Text → DeviceInfo Real) → CameraData Real → Type 0
  Shows info d = d.device_info ≡ info d.camera_id

  snapshot-Shows :
      (s : Store j) → All (IsBlank j) s.data_ → All (Shows (info_of real_zero s.table)) (snapshot s)
  unfolding snapshot
  snapshot-Shows s h = go s.data_ h
    where
      go :
          (ds : List (CameraData Real))
          → All (IsBlank j) ds
          → All (Shows (info_of real_zero s.table)) (map (with_table_info s.table) ds)
      go [] h = tt
      go (d ∷ ds) h = (with_table_info-info_of real_zero s.table d h.0, go ds h.1)

  -- After any sequence of camera lists, exceptions included, sensor readings, AI results and clears from an
  -- empty store: every row of a snapshot shows the last sensor readings that came for its
  -- camera since the last clear, or zeros where none came, whether they came before the camera list or
  -- after it.
  pub snapshot-Shows-latest :
      (cs : List (Command Real))
      → All (Shows (λ key. latest key (no_reading real_zero) cs)) (snapshot (run empty_store cs))
  snapshot-Shows-latest cs =
      All-mono (Shows (info_of real_zero s.table))
        (Shows (λ key. latest key (no_reading real_zero) cs)) (snapshot s) shown
        (snapshot-Shows s (run-AreBlank empty_store cs tt))
    where
      s : Store j
      s = run empty_store cs

      shown :
          (d : CameraData Real)
          → Shows (info_of real_zero s.table) d
          → Shows (λ key. latest key (no_reading real_zero) cs) d
      shown d e =
          e
          ∙ run-info empty_store cs d.camera_id
          ∙ ap (λ i. latest d.camera_id i cs) (info_of-nil real_zero d.camera_id)

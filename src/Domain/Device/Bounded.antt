-- ===== src/Domain/Device/Bounded.antt =====
-- The histories of a DeviceStore over any sequence of packets.
use with_boost.Common.{ℤ, List, [], ◌∷◌, Text}
use with_boost.Domain.Json.{Json}
use with_boost.Domain.Device.{update_from_camera_json, update_from_available_json, Devices}
use with_boost.Domain.Device.Bounds.{
  HasBounds, update_from_camera_json-HasBounds, update_from_available_json-HasBounds,
}

-- The operations of the store that change it.
pub data Command : Type 0 where
  camera : Text → Command
  available : ℤ → Text → Command
  clear : Command

module _ (j : Json) where
  unfoldable pub run : Devices j → List Command → Devices j
  run ds [] = ds
  run ds (camera json ∷ cs) = run (update_from_camera_json j ds json).0 cs
  run ds (available now json ∷ cs) = run (update_from_available_json j now ds json).0 cs
  run ds (clear ∷ cs) = run [] cs

  -- Over any sequence of CAMERA packets, AVAILABLE packets and clears, exceptions included, no history of
  -- the store gets longer than 60 entries.
  pub run-HasBounds :
      (ds : Devices j) (cs : List Command) → HasBounds j ds → HasBounds j (run ds cs)
  unfolding run
  run-HasBounds ds [] h = h
  run-HasBounds ds (camera json ∷ cs) h =
      run-HasBounds (update_from_camera_json j ds json).0 cs
        (update_from_camera_json-HasBounds j ds json h)
  run-HasBounds ds (available now json ∷ cs) h =
      run-HasBounds (update_from_available_json j now ds json).0 cs
        (update_from_available_json-HasBounds j now ds json h)
  run-HasBounds ds (clear ∷ cs) h = run-HasBounds [] cs tt

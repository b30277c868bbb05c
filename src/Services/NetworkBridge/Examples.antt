-- ===== src/Services/NetworkBridge/Examples.antt =====
-- Bodies and device commands at small inputs.
use with_boost.Common.{IsSorted, lookup, ◌≡◌, refl, some, List, [], ◌∷◌, Text, codes}
use with_boost.Services.NetworkBridge.{build_json, process_pending_states, blank}
use with_boost.Services.NetworkBridge.ReadBack.{
  read_object, read_object-build_json, build_json-injection,
}
use with_boost.Services.NetworkBridge.Status.{
  DeviceCall, status_of, send_devices, bodies_of, keys, process-status_of,
}

read_object-build_json_example :
    read_object
      (build_json ((codes "id", codes "ann") ∷ (codes "pw", []) ∷ (codes "x", codes "1") ∷ []))
    ≡ some ((codes "id", codes "ann") ∷ (codes "x", codes "1") ∷ [])
read_object-build_json_example =
    read_object-build_json
      ((codes "id", codes "ann") ∷ (codes "pw", []) ∷ (codes "x", codes "1") ∷ [])
      (
        ((refl, refl), (refl, refl)),
        (((refl, refl), (refl, refl)), (((refl, refl), (refl, refl)), tt)),
      )

build_json-injection_example :
    build_json ((codes "id", codes "ann\",\"role\":\"admin") ∷ (codes "pw", codes "p") ∷ [])
    ≡ build_json
        ((codes "id", codes "ann") ∷ (codes "role", codes "admin") ∷ (codes "pw", codes "p") ∷ [])
build_json-injection_example =
    build_json-injection (codes "ann") (codes "role") (codes "admin") ((codes "pw", codes "p") ∷ [])
      refl refl

abbrev same_text : Text → Text
same_text t = t

abbrev commands : List DeviceCall
commands =
    record { ip = codes "10.0.0.5"; motor = codes "auto"; ir = []; heater = codes "on" }
    ∷ record { ip = codes "10.0.0.4"; motor = codes "left"; ir = []; heater = [] }
    ∷ record { ip = codes "10.0.0.5"; motor = []; ir = codes "off"; heater = codes "off" }
    ∷ []

process-status_of_example :
    (process_pending_states same_text (send_devices same_text [] commands) ≡ (
      [],
      bodies_of same_text
          (λ k. status_of k blank commands)
          (keys (send_devices same_text [] commands)),
    ))
    × IsSorted (send_devices same_text [] commands)
    × ((k : Text)
        → lookup blank k (send_devices same_text [] commands) ≡ status_of k blank commands)
process-status_of_example = process-status_of same_text commands

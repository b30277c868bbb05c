-- ===== src/Domain/Camera/Examples.antt =====
-- Two camera lists, with sensor readings between them.
use with_boost.Common.{
  ℕ, pos, true, none, some, List, [], ◌∷◌, codes, text_eq, ◌==◌, if◌then◌else◌, All,
}
use with_boost.Domain.Json.{Json}
use with_boost.Domain.Camera.Data.{DeviceInfo, no_reading}
use with_boost.Domain.Camera.Store.{snapshot}
use with_boost.Domain.Camera.Latest.{
  Command, lists, reads_sensors, empty_store, run, latest, Shows, snapshot-Shows-latest,
}

-- Values as numbers: 0 stands for a bad text, 1 for an array of the items 2 and 3. A read of "is_online"
-- throws at the item 3.
abbrev sample : Json
sample = record {
  Value = ℕ;
  Real = ℕ;
  real_zero = 0;
  parse = λ t. if text_eq t (codes "door") then 1 else if text_eq t (codes "both") then 4 else 0;
  is_array = λ v. if v == 1 then true else v == 4;
  is_object = λ v. if v == 2 then true else v == 3;
  elements = λ v. if v == 1 then 2 ∷ [] else if v == 4 then 2 ∷ 3 ∷ [] else [];
  member = λ v key. none;
  value_text = λ v key.
      if text_eq key (codes "ip")
      then some (if v == 2 then codes "10.0.0.5" else codes "10.0.0.6")
      else if text_eq key (codes "source_url")
      then some (if v == 2 then codes "rtsp://10.0.0.5/1/a" else [])
      else some (codes "HANWHA");
  value_bool = λ v key. if v == 3 then none else some true;
  value_int = λ v key. some (pos 5);
  value_real = λ v key. some 9;
}

abbrev warm : DeviceInfo ℕ
warm = record { hum = 40; light = 7; tilt = 0; tmp = 30 }

abbrev history : List (Command ℕ)
history =
    reads_sensors (codes "10.0.0.5/1") (no_reading 3)
    ∷ lists (codes "door")
    ∷ lists (codes "both")
    ∷ reads_sensors (codes "10.0.0.5/1") warm
    ∷ []

snapshot-Shows-latest_example :
    All
      (Shows sample (λ key. latest sample key (no_reading 0) history))
      (snapshot (run sample (empty_store sample) history))
snapshot-Shows-latest_example = snapshot-Shows-latest sample history

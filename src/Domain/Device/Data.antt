-- ===== src/Domain/Device/Data.antt =====
-- The devices of a DeviceStore, the search by IP, and the history of a device.
use with_boost.Common.{
  ℕ, ℤ, pos, Bool, true, false, Option, none, some, List, [], ◌∷◌, ◌++◌, Text, text_eq, ltb,
  if◌then◌else◌, length,
}

-- `R` stands for `double`.
pub record DeviceSnapshot (R : Type 0) : Type 0 where
  pub timestamp : ℤ
  pub cpu : R
  pub memory : R
  pub temp : R
  pub uptime : ℤ

pub record DeviceIntegrated (R : Type 0) : Type 0 where
  pub ip : Text
  pub camera_id : Text
  pub type : Text
  pub is_online : Bool
  pub cpu : R
  pub memory : R
  pub temp : R
  pub uptime : ℤ
  pub last_update : ℤ
  pub has_motor : Bool
  pub has_ir : Bool
  pub has_heater : Bool
  pub history : List (DeviceSnapshot R)

abbrev pub max_history : ℕ
max_history = 60

-- `while (history.size() > MAX_HISTORY) history.pop_front()`.
unfoldable pub trim {ℓ} : {A : Type ℓ} → ℕ → List A → List A
trim limit [] = []
trim limit (x ∷ xs) =
    let shorter = trim limit xs in if ltb limit (length (x ∷ xs)) then shorter else x ∷ xs

module _ {R : Type 0} where
  -- A default-constructed device with its IP.
  abbrev pub new_device : R → Text → DeviceIntegrated R
  new_device z ip = record {
    ip = ip;
    camera_id = [];
    type = [];
    is_online = false;
    cpu = z;
    memory = z;
    temp = z;
    uptime = pos 0;
    last_update = pos 0;
    has_motor = true;
    has_ir = false;
    has_heater = false;
    history = [];
  }

  unfoldable pub add_snapshot : DeviceIntegrated R → DeviceSnapshot R → DeviceIntegrated R
  unfolding trim
  add_snapshot device snap = record device {
    history = trim max_history (device.history ++ snap ∷ []);
  }

  -- The first device with the IP.
  unfoldable pub find_device : Text → List (DeviceIntegrated R) → Option (DeviceIntegrated R)
  find_device ip [] = none
  find_device ip (d ∷ ds) = if text_eq d.ip ip then some d else find_device ip ds

  unfoldable pub has_device : List (DeviceIntegrated R) → Text → Bool
  unfolding find_device
  has_device ds ip = elim (find_device ip ds) [ none ↦ false | some d ↦ true ]

  unfoldable pub camera_id_by_ip : List (DeviceIntegrated R) → Text → Text
  unfolding find_device
  camera_id_by_ip ds ip = elim (find_device ip ds) [ none ↦ [] | some d ↦ d.camera_id ]

  unfoldable pub get_history : List (DeviceIntegrated R) → Text → List (DeviceSnapshot R)
  unfolding find_device
  get_history ds ip = elim (find_device ip ds) [ none ↦ [] | some d ↦ d.history ]

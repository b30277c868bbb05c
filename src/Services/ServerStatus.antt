-- ===== src/Services/ServerStatus.antt =====
-- Qt/Back/Services/ServerStatus.hpp and ServerStatus.cpp: the model that QML reads the statuses from. `from_std` is
-- `QString::fromStdString`. The entries of its history are records instead of maps.
pub mod Shown
use with_boost.Common.{
  ℕ, ℤ, pos, Bool, List, [], ◌∷◌, Text, text_eq, map, Option, none, some, if◌then◌else◌,
}
use with_boost.Domain.ServerStatus.{DeviceStatusData, ServerStatusData, push_recent}

-- `ServerStatus`, without the devices.
pub record Server (R : Type 0) : Type 0 where
  pub cpu : R
  pub memory : R
  pub temp : R
  pub uptime : ℤ
  pub available : Bool
  pub timestamp : ℤ

pub record HistoryEntry (R : Type 0) : Type 0 where
  pub timestamp : ℤ
  pub cpu : R
  pub memory : R
  pub temp : R
  pub uptime : ℤ

-- A device has the members of `DeviceStatusData`.
pub record ServerStatusModel (R : Type 0) : Type 0 where
  pub server : Server R
  pub devices : List (DeviceStatusData R)
  pub server_history : List (HistoryEntry R)

pub data Signal : Type 0 where
  status_updated : Signal

abbrev pub max_shown : ℕ
max_shown = 60

module _ {R : Type 0} where
  abbrev pub history_entry : ServerStatusData R → HistoryEntry R
  history_entry s = record {
    timestamp = s.timestamp;
    cpu = s.cpu;
    memory = s.memory;
    temp = s.temp;
    uptime = s.uptime;
  }

  abbrev pub with_ip : (Text → Text) → DeviceStatusData R → DeviceStatusData R
  with_ip from_std d = record d { ip = from_std d.ip }

  unfoldable pub on_store_updated :
      (Text → Text) → ServerStatusData R → ServerStatusModel R → ServerStatusModel R × List Signal
  unfolding push_recent
  on_store_updated from_std s m = (
    record {
      server = record {
        cpu = s.cpu;
        memory = s.memory;
        temp = s.temp;
        uptime = s.uptime;
        available = s.available;
        timestamp = s.timestamp;
      };
      devices = map (with_ip from_std) s.devices;
      server_history =
          if s.available
          then push_recent max_shown m.server_history (history_entry s)
          else m.server_history;
    },
    status_updated ∷ [],
  )

  -- The first device with the IP.
  unfoldable pub find_status : Text → List (DeviceStatusData R) → Option (DeviceStatusData R)
  find_status ip [] = none
  find_status ip (d ∷ ds) = if text_eq d.ip ip then some d else find_status ip ds

  module _ (z : R) where
    unfoldable pub device_cpu : ServerStatusModel R → Text → R
    unfolding find_status
    device_cpu m ip = elim (find_status ip m.devices) [ none ↦ z | some d ↦ d.cpu ]

    unfoldable pub device_memory : ServerStatusModel R → Text → R
    unfolding find_status
    device_memory m ip = elim (find_status ip m.devices) [ none ↦ z | some d ↦ d.memory ]

    unfoldable pub device_temp : ServerStatusModel R → Text → R
    unfolding find_status
    device_temp m ip = elim (find_status ip m.devices) [ none ↦ z | some d ↦ d.temp ]

  unfoldable pub device_uptime : ServerStatusModel R → Text → ℤ
  unfolding find_status
  device_uptime m ip = elim (find_status ip m.devices) [ none ↦ pos 0 | some d ↦ d.uptime ]

  unfoldable pub get_server_history : ServerStatusModel R → List (HistoryEntry R)
  get_server_history m = m.server_history

-- ===== src/Domain/ServerStatus/Store.antt =====
-- A status packet: the devices, and for an administrator the server, whose last statuses are kept. `R` stands for
-- `double`.
use with_boost.Common.{
  ℕ, ℤ, pos, Bool, true, false, Option, none, some, List, [], ◌∷◌, ◌++◌, Text, codes, length, drop,
  ltb, if◌then◌else◌,
}
use with_boost.Domain.Json.{Json, ◌>>=◌}
use with_boost.Domain.Device.{Ending, dropped, done, threw}

pub record DeviceStatusData (R : Type 0) : Type 0 where
  pub ip : Text
  pub cpu : R
  pub memory : R
  pub temp : R
  pub uptime : ℤ
  pub pending_events : ℤ

pub record ServerStatusData (R : Type 0) : Type 0 where
  pub cpu : R
  pub memory : R
  pub temp : R
  pub uptime : ℤ
  pub available : Bool
  pub timestamp : ℤ
  pub devices : List (DeviceStatusData R)

pub record ServerStatusStore (R : Type 0) : Type 0 where
  pub status : ServerStatusData R
  pub history : List (ServerStatusData R)

-- `push_back`, and `erase(begin())` where there are more than the limit.
unfoldable pub push_recent {ℓ} : {A : Type ℓ} → ℕ → List A → A → List A
push_recent limit xs x =
    let all = xs ++ x ∷ [] in if ltb limit (length all) then drop 1 all else all

abbrev pub max_statuses : ℕ
max_statuses = 10

abbrev pub no_status : {R : Type 0} → R → ServerStatusData R
no_status z = record {
  cpu = z;
  memory = z;
  temp = z;
  uptime = pos 0;
  available = false;
  timestamp = pos 0;
  devices = [];
}

unfoldable pub get_history : {R : Type 0} → ServerStatusStore R → List (ServerStatusData R)
get_history s = s.history

unfoldable pub clear : {R : Type 0} → R → ServerStatusStore R → ServerStatusStore R
clear z s = record { status = no_status z; history = [] }

module _ (j : Json) where
  open j use {
    Value, Real, real_zero, parse, is_array, is_object, elements, member, value_text, value_int,
    value_real,
  }

  abbrev pub Store : Type 0
  Store = ServerStatusStore Real

  -- `none` for an exception, as at an item that is no object.
  unfoldable pub read_device : Value → Option (DeviceStatusData Real)
  read_device item = value_text item (codes "ip") >>= λ ip. value_real item (codes "cpu") >>= λ cpu.
      value_real item (codes "memory") >>= λ memory. value_real item (codes "temp") >>= λ temp.
      value_int item (codes "uptime") >>= λ uptime.
      value_int item (codes "pending_events") >>= λ pending. some (record {
        ip = ip;
        cpu = cpu;
        memory = memory;
        temp = temp;
        uptime = uptime;
        pending_events = pending;
      })

  unfoldable pub read_devices : List Value → Option (List (DeviceStatusData Real))
  unfolding read_device
  read_devices [] = some []
  read_devices (item ∷ items) =
      let rest = read_devices items in read_device item >>= λ d. rest >>= λ ds. some (d ∷ ds)

  abbrev pub array_at : Option Value → List Value
  array_at none = []
  array_at (some v) = if is_array v then elements v else []

  -- The status with the data of the server, if the packet has an object of them.
  unfoldable pub with_server :
      ℤ → Option Value → ServerStatusData Real → Option (ServerStatusData Real)
  with_server now none s = some s
  with_server now (some srv) s =
      let read : Option (ServerStatusData Real) = value_real srv (codes "cpu") >>= λ cpu.
      value_real srv (codes "memory") >>= λ memory. value_real srv (codes "temp") >>= λ temp.
      value_int srv (codes "uptime") >>= λ uptime. some (record s {
        cpu = cpu;
        memory = memory;
        temp = temp;
        uptime = uptime;
        available = true;
        timestamp = now;
      }) in
      if is_object srv then read else some s

  unfoldable pub read_status : ℤ → Value → Option (ServerStatusData Real)
  unfolding read_devices with_server
  read_status now v = read_devices (array_at (member v (codes "devices"))) >>= λ ds.
      with_server now (member v (codes "server")) (record (no_status real_zero) { devices = ds })

  unfoldable pub kept : Store → ServerStatusData Real → Store
  unfolding push_recent
  kept s status = record {
    status = status;
    history = if status.available then push_recent max_statuses s.history status else s.history;
  }

  unfoldable pub update_from_json : ℤ → Store → Text → Store × Ending (ServerStatusData Real)
  unfolding read_status kept
  update_from_json now s json =
      let read : Store × Ending (ServerStatusData Real) = elim (read_status now (parse json)) [
        | none ↦ (s, threw)
        | some status ↦ (kept s status, done status)
      ] in
      if is_object (parse json) then read else (s, dropped)

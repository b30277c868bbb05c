-- ===== src/Controllers/AlarmController.antt =====
-- Qt/Back/Controllers/AlarmController.hpp and AlarmController.cpp, and the event of Src/Domain/Alarm.hpp.
pub mod Queue
mod Examples
use with_boost.Common.{
  ℕ, zero, suc, ℤ, int_eq, Bool, true, false, List, [], ◌∷◌, ◌++◌, Text, leb, if◌then◌else◌, length,
  drop, is_empty,
}

pub record AlarmEvent : Type 0 where
  pub title : Text
  pub detail : Text
  pub severity : ℤ

pub record AlarmEntry : Type 0 where
  pub id : ℤ
  pub title : Text
  pub detail : Text
  pub severity : ℤ

pub data Signal : Type 0 where
  alarms_changed : Signal

abbrev pub max_alarms : ℕ
max_alarms = 20

-- The identifier is the time in milliseconds; `from_std` is `QString::fromStdString`.
abbrev pub entry_of : (Text → Text) → ℤ → AlarmEvent → AlarmEntry
entry_of from_std now ev = record {
  id = now;
  title = from_std ev.title;
  detail = from_std ev.detail;
  severity = ev.severity;
}

unfoldable pub on_alarm :
    (Text → Text) → ℤ → AlarmEvent → List AlarmEntry → List AlarmEntry × List Signal
on_alarm from_std now ev alarms =
    let room = if leb max_alarms (length alarms) then drop 1 alarms else alarms in
    (room ++ entry_of from_std now ev ∷ [], alarms_changed ∷ [])

-- `find_if` and `erase`: the first entry with the identifier.
unfoldable pub dismiss : ℤ → List AlarmEntry → List AlarmEntry × List Signal
dismiss id [] = ([], [])
dismiss id (e ∷ es) =
    let (rest, out) = dismiss id es in
    if int_eq e.id id then (es, alarms_changed ∷ []) else (e ∷ rest, out)

unfoldable pub clear_all : List AlarmEntry → List AlarmEntry × List Signal
clear_all alarms = if is_empty alarms then (alarms, []) else ([], alarms_changed ∷ [])

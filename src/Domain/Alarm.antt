-- ===== src/Domain/Alarm.antt =====
-- AlarmDispatcher of Src/Domain/Alarm.cpp: the task that it gives to the pool.
use with_boost.Common.{ℤ, pos, Bool, not, Option, none, some, Text, codes, text_eq, if◌then◌else◌}
use with_boost.Domain.Json.{Json, ◌>>=◌}
use with_boost.Domain.Device.{Ending, dropped, done, threw}
use with_boost.Controllers.AlarmController.{AlarmEvent}

module _ (j : Json) where
  open j use {Value, parse, is_object, member, value_text, value_int}

  -- `value` with another default than the empty text and zero.
  unfoldable pub text_or : Text → Value → Text → Option Text
  text_or default v key = elim (member v key) [ none ↦ some default | some m ↦ value_text v key ]

  unfoldable pub int_or : ℤ → Value → Text → Option ℤ
  int_or default v key = elim (member v key) [ none ↦ some default | some m ↦ value_int v key ]

  unfoldable pub read_alarm : Value → Option AlarmEvent
  unfolding text_or int_or
  read_alarm v = text_or (codes "AI Alert") v (codes "title") >>= λ title.
      text_or (codes "Anomaly detected") v (codes "detail") >>= λ detail.
      int_or (pos 1) v (codes "severity") >>= λ severity.
      some (record { title = title; detail = detail; severity = severity })

  -- `done` is the call of the callback, and `threw` an exception in the thread of the pool.
  unfoldable pub dispatch : Bool → Text → Ending AlarmEvent
  unfolding read_alarm
  dispatch has_callback json =
      let read : Ending AlarmEvent = elim (read_alarm (parse json)) [
        | none ↦ threw
        | some ev ↦ done ev
      ] in
      let typed : Ending AlarmEvent = elim (value_text (parse json) (codes "type")) [
        | none ↦ threw
        | some type ↦ if text_eq type (codes "alarm") then read else dropped
      ] in
      if not has_callback then dropped else if is_object (parse json) then typed else dropped

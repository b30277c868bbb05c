-- ===== src/Controllers/AlarmController/Examples.antt =====
-- More alarms than there is room for.
use with_boost.Common.{
  ℕ, zero, suc, ◌-◌, ◌≡◌, ℤ, pos, List, [], ◌∷◌, ◌++◌, Text, codes, arith, length, drop,
}
use with_boost.Controllers.AlarmController.{AlarmEvent, AlarmEntry, max_alarms}
use with_boost.Controllers.AlarmController.Queue.{on_alarms, entries, on_alarms-last}

abbrev same_text : Text → Text
same_text t = t

abbrev alert : AlarmEvent
alert = record { title = codes "AI Alert"; detail = codes "Anomaly detected"; severity = pos 1 }

abbrev alerts : ℕ → List (ℤ × AlarmEvent)
alerts zero = []
alerts (suc n) = (pos n, alert) ∷ alerts n

abbrev shown : List AlarmEntry
shown = entries same_text (alerts 19)

on_alarms-last_example :
    on_alarms same_text shown (alerts 3)
    ≡ drop
        (length (shown ++ entries same_text (alerts 3)) - max_alarms)
        (shown ++ entries same_text (alerts 3))
on_alarms-last_example = on_alarms-last same_text shown (alerts 3) (omega arith)

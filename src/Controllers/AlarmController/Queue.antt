-- ===== src/Controllers/AlarmController/Queue.antt =====
-- Which alarms are shown.
use mathlib.Core.List.{append_assoc, append-nil}
use with_boost.Common.{
  ◌-◌, ◌≤◌, ◌<◌, ◌≡◌, refl, sym, ap, ◌∙◌, true, false, Bool-cases, inl, inr, ℤ, int_eq, List, [],
  ◌∷◌, ◌++◌, Text, leb, leb→le, arith, length, length-append, drop, All,
}
use with_boost.Domain.Device.{trim}
use with_boost.Domain.Device.History.{length-trim, trim-drop, trim-short, trim-append}
use with_boost.Controllers.AlarmController.{
  AlarmEvent, AlarmEntry, alarms_changed, max_alarms, entry_of, on_alarm, dismiss,
}

drop-one {ℓ} : {A : Type ℓ} (xs ys : List A) → 0 < length xs → drop 1 (xs ++ ys) ≡ drop 1 xs ++ ys
drop-one [] ys h = absurd (omega arith)
drop-one (x ∷ xs) ys h = refl

module _ (from_std : Text → Text) where
  -- Alarms that come one after the other, each with its time.
  pub on_alarms : List AlarmEntry → List (ℤ × AlarmEvent) → List AlarmEntry
  on_alarms alarms [] = alarms
  on_alarms alarms (e ∷ es) = on_alarms (on_alarm from_std e.0 e.1 alarms).0 es

  abbrev pub entries : List (ℤ × AlarmEvent) → List AlarmEntry
  entries [] = []
  entries (e ∷ es) = entry_of from_std e.0 e.1 ∷ entries es

  on_alarm-trim :
      (now : ℤ) (ev : AlarmEvent) (alarms : List AlarmEntry)
      → length alarms ≤ max_alarms
      → (on_alarm from_std now ev alarms).0
        ≡ trim max_alarms (alarms ++ entry_of from_std now ev ∷ [])
  unfolding on_alarm
  on_alarm-trim now ev alarms h = elim (Bool-cases (leb max_alarms (length alarms))) [
    | inl e ↦
        rw (e, trim-drop max_alarms (alarms ++ new), full e) (sym (drop-one alarms new (many e)))
    | inr e ↦ rw (e, trim-drop max_alarms (alarms ++ new), free e) refl
  ]
    where
      new : List AlarmEntry
      new = entry_of from_std now ev ∷ []

      many : leb max_alarms (length alarms) ≡ true → 0 < length alarms
      many e = omega (arith, leb→le max_alarms (length alarms) e)

      full : leb max_alarms (length alarms) ≡ true → length (alarms ++ new) - max_alarms ≡ 1
      full e = omega (arith, length-append alarms new, leb→le max_alarms (length alarms) e, h)

      free : leb max_alarms (length alarms) ≡ false → length (alarms ++ new) - max_alarms ≡ 0
      free e = ground (arith, length-append alarms new, e)

  on_alarms-trim :
      (alarms : List AlarmEntry) (es : List (ℤ × AlarmEvent))
      → length alarms ≤ max_alarms
      → on_alarms alarms es ≡ trim max_alarms (alarms ++ entries es)
  unfolding on_alarms
  on_alarms-trim alarms [] h =
      sym (ap (trim max_alarms) (append-nil alarms) ∙ trim-short max_alarms alarms h)
  on_alarms-trim alarms (e ∷ es) h =
      let new = entry_of from_std e.0 e.1 ∷ [] in
      ap (λ l. on_alarms l es) (on_alarm-trim e.0 e.1 alarms h)
      ∙ on_alarms-trim (trim max_alarms (alarms ++ new)) es (length-trim max_alarms (alarms ++ new))
      ∙ trim-append max_alarms (alarms ++ new) (entries es)
      ∙ ap (trim max_alarms) (append_assoc alarms new (entries es))

  -- Where at most 20 alarms are shown and further ones come: the last 20 of all, the shown and the new, in
  -- their order, are shown then.
  pub on_alarms-last :
      (alarms : List AlarmEntry) (es : List (ℤ × AlarmEvent))
      → length alarms ≤ max_alarms
      → let all = alarms ++ entries es in on_alarms alarms es ≡ drop (length all - max_alarms) all
  on_alarms-last alarms es h =
      on_alarms-trim alarms es h ∙ trim-drop max_alarms (alarms ++ entries es)

-- Of the alarms with the identifier, a dismissal closes the one that was shown first; the others, further
-- ones with the identifier included, stay in their order, and the change is announced once.
pub dismiss-first :
    (id : ℤ) (front : List AlarmEntry) (e : AlarmEntry) (back : List AlarmEntry)
    → All (λ a. int_eq a.id id ≡ false) front
    → int_eq e.id id ≡ true
    → dismiss id (front ++ e ∷ back) ≡ (front ++ back, alarms_changed ∷ [])
unfolding dismiss
dismiss-first id [] e back h q = rw q refl
dismiss-first id (a ∷ front) e back h q =
    rw h.0 (ap (λ r. (a ∷ r.0, r.1)) (dismiss-first id front e back h.1 q))

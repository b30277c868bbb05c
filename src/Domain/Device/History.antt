-- ===== src/Domain/Device/History.antt =====
-- The bounded history of a device.
use mathlib.Core.List.{append_assoc, append-nil}
use with_boost.Common.{
  ℕ, zero, suc, ◌-◌, ◌≤◌, ◌≡◌, refl, sym, ap, ◌∙◌, ltb, true, false, Bool-cases, inl, inr, List, [],
  ◌∷◌, ◌++◌, arith, length, length-append, drop,
}
use with_boost.Domain.Device.{DeviceIntegrated, DeviceSnapshot, trim, max_history, add_snapshot}

module _ {ℓ} {A : Type ℓ} where
  pub length-trim : (limit : ℕ) (xs : List A) → length (trim limit xs) ≤ limit
  unfolding trim
  length-trim limit [] = omega arith
  length-trim limit (x ∷ xs) = ground (arith, length-trim limit xs)

  drop-nil : (n : ℕ) → drop {A = A} n [] ≡ []
  drop-nil zero = refl
  drop-nil (suc n) = refl

  pub trim-drop : (limit : ℕ) (xs : List A) → trim limit xs ≡ drop (length xs - limit) xs
  unfolding trim
  trim-drop limit [] = sym (drop-nil (0 - limit))
  trim-drop limit (x ∷ xs) = elim (Bool-cases (ltb limit (length (x ∷ xs)))) [
    | inl e ↦ rw (e, more e) (trim-drop limit xs)
    | inr e ↦ rw (e, enough e) refl
  ]
    where
      more : ltb limit (suc (length xs)) ≡ true → suc (length xs) - limit ≡ suc (length xs - limit)
      more e = ground arith

      enough : ltb limit (suc (length xs)) ≡ false → suc (length xs) - limit ≡ 0
      enough e = ground arith

  pub trim-short : (limit : ℕ) (xs : List A) → length xs ≤ limit → trim limit xs ≡ xs
  unfolding trim
  trim-short limit [] h = refl
  trim-short limit (x ∷ xs) h = ground (arith, h)

  pub trim-append :
      (limit : ℕ) (xs ys : List A) → trim limit (trim limit xs ++ ys) ≡ trim limit (xs ++ ys)
  unfolding trim
  trim-append limit [] ys = refl
  trim-append limit (x ∷ xs) ys = elim (Bool-cases (ltb limit (length (x ∷ xs)))) [
    | inl e ↦ rw (e, longer e) (trim-append limit xs ys)
    | inr e ↦ rw e refl
  ]
    where
      longer : ltb limit (length (x ∷ xs)) ≡ true → ltb limit (length (x ∷ (xs ++ ys))) ≡ true
      longer e = ground (arith, length-append xs ys)

module _ {R : Type 0} where
  pub add_snapshots : DeviceIntegrated R → List (DeviceSnapshot R) → DeviceIntegrated R
  add_snapshots d [] = d
  add_snapshots d (s ∷ ss) = add_snapshots (add_snapshot d s) ss

  add_snapshots-trim :
      (d : DeviceIntegrated R) (ss : List (DeviceSnapshot R))
      → length d.history ≤ max_history
      → (add_snapshots d ss).history ≡ trim max_history (d.history ++ ss)
  unfolding add_snapshot add_snapshots
  add_snapshots-trim d [] h =
      sym (ap (trim max_history) (append-nil d.history) ∙ trim-short max_history d.history h)
  add_snapshots-trim d (s ∷ ss) h =
      add_snapshots-trim (add_snapshot d s) ss (length-trim max_history (d.history ++ s ∷ []))
      ∙ trim-append max_history (d.history ++ s ∷ []) ss
      ∙ ap (trim max_history) (append_assoc d.history (s ∷ []) ss)

  add_snapshots-rest :
      (d : DeviceIntegrated R) (ss : List (DeviceSnapshot R))
      → add_snapshots d ss ≡ record d { history = (add_snapshots d ss).history }
  unfolding add_snapshot add_snapshots
  add_snapshots-rest d [] = refl
  add_snapshots-rest d (s ∷ ss) = add_snapshots-rest (add_snapshot d s) ss

  -- A device whose history is not over the limit gets snapshots, one after the other: its history is then
  -- made of the last 60 of all, the old and the new, in their order, and nothing else of it has changed.
  pub add_snapshots-last :
      (d : DeviceIntegrated R) (ss : List (DeviceSnapshot R))
      → length d.history ≤ max_history
      → let all = d.history ++ ss in
        add_snapshots d ss ≡ record d { history = drop (length all - max_history) all }
  add_snapshots-last d ss h =
      let all = d.history ++ ss in
      add_snapshots-rest d ss
      ∙ ap (λ h. record d { history = h }) (add_snapshots-trim d ss h ∙ trim-drop max_history all)

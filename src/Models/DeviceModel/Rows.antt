-- ===== src/Models/DeviceModel/Rows.antt =====
-- The rows after a snapshot.
use mathlib.Core.List.{append_assoc, append-nil}
use with_boost.Common.{
  ℕ, zero, suc, ◌+◌, ◌<◌, ◌≡◌, refl, sym, ap, ◌∙◌, subst, Bool-cases, inl, inr, Option, none, some,
  Option-cases, List, [], ◌∷◌, ◌++◌, Text, text_eq, length, modify, All, arith,
}
use with_boost.Domain.Device.{DeviceIntegrated}
use with_boost.Models.DeviceModel.{
  DeviceModel, find_index_by_ip, entry_of, updated, update_row, update_rows, index_rows,
  on_store_updated,
}

-- Every entry of an index names one of so many rows.
abbrev pub Names : ℕ → List (Text × ℕ) → Type 0
Names n by_ip = All (λ e. e.1 < n) by_ip

abbrev Below : ℕ → Option ℕ → Type 0
Below n none = Unit
Below n (some i) = i < n

find-Below :
    (n : ℕ) (by_ip : List (Text × ℕ)) (ip : Text)
    → Names n by_ip
    → Below n (find_index_by_ip by_ip ip)
unfolding find_index_by_ip
find-Below n [] ip h = tt
find-Below n (e ∷ es) ip h = elim (Bool-cases (text_eq e.0 ip)) [
  | inl q ↦ rw q h.0
  | inr q ↦ rw q (find-Below n es ip h.1)
]

found-Names :
    (n : ℕ) (by_ip : List (Text × ℕ)) (ip : Text) (i : ℕ)
    → Names n by_ip
    → find_index_by_ip by_ip ip ≡ some i
    → i < n
found-Names n by_ip ip i h k = subst (Below n) k (find-Below n by_ip ip h)

modify-append {ℓ} :
    {A : Type ℓ} (i : ℕ) (f : A → A) (xs ys : List A)
    → i < length xs
    → modify i f (xs ++ ys) ≡ modify i f xs ++ ys
modify-append i f [] ys h = absurd (omega (arith, h))
modify-append zero f (x ∷ xs) ys h = refl
modify-append (suc i) f (x ∷ xs) ys h = ap (◌∷◌ x) (modify-append i f xs ys (omega (arith, h)))

length-modify {ℓ} :
    {A : Type ℓ} (i : ℕ) (f : A → A) (xs : List A) → length (modify i f xs) ≡ length xs
length-modify i f [] = refl
length-modify zero f (x ∷ xs) = refl
length-modify (suc i) f (x ∷ xs) = ap suc (length-modify i f xs)

module _ {R : Type 0} (from_std : Text → Text) where
  -- The rows there were: each device that the index knows is written to the row it names.
  pub old_rows :
      List (Text × ℕ)
      → List (DeviceIntegrated R)
      → List (DeviceIntegrated R)
      → List (DeviceIntegrated R)
  old_rows by_ip [] rows = rows
  old_rows by_ip (snap ∷ snaps) rows = elim (find_index_by_ip by_ip (from_std snap.ip)) [
    | none ↦ old_rows by_ip snaps rows
    | some i ↦ old_rows by_ip snaps (modify i (updated from_std snap) rows)
  ]

  -- The rows that are added: one for each device that the index does not know.
  pub new_rows : List (Text × ℕ) → List (DeviceIntegrated R) → List (DeviceIntegrated R)
  new_rows by_ip [] = []
  new_rows by_ip (snap ∷ snaps) =
      let rest = new_rows by_ip snaps in
      elim (find_index_by_ip by_ip (from_std snap.ip)) [
        | none ↦ entry_of from_std snap ∷ rest
        | some i ↦ rest
      ]

  update_rows-split :
      (by_ip : List (Text × ℕ)) (snaps olds news : List (DeviceIntegrated R))
      → Names (length olds) by_ip
      → (update_rows from_std by_ip snaps (olds ++ news)).0
        ≡ old_rows by_ip snaps olds ++ (news ++ new_rows by_ip snaps)
  unfolding update_rows update_row old_rows new_rows
  update_rows-split by_ip [] olds news h = ap (olds ++◌) (sym (append-nil news))
  update_rows-split by_ip (snap ∷ snaps) olds news h =
      elim (Option-cases (find_index_by_ip by_ip (from_std snap.ip))) [
        | inl e ↦
            rw (update_row, old_rows, new_rows, e)
              (ap (λ rows. (update_rows from_std by_ip snaps rows).0) (append_assoc olds news new)
                ∙ update_rows-split by_ip snaps olds (news ++ new) h
                ∙ ap (old_rows by_ip snaps olds ++◌) (append_assoc news new (new_rows by_ip snaps)))
        | inr (i, e) ↦
            rw (update_row, old_rows, new_rows, e)
              (ap (λ rows. (update_rows from_std by_ip snaps rows).0)
                  (modify-append i (updated from_std snap) olds news (found-Names _ by_ip _ i h e))
                ∙ update_rows-split by_ip snaps (modify i (updated from_std snap) olds) news (
                    subst (λ n. Names n by_ip) (sym (length-modify i (updated from_std snap) olds))
                      h))
      ]
    where
      new : List (DeviceIntegrated R)
      new = entry_of from_std snap ∷ []

  index_rows-Names :
      (n i : ℕ) (rows : List (DeviceIntegrated R)) (by_ip : List (Text × ℕ))
      → i + length rows ≡ n
      → Names n by_ip
      → Names n (index_rows i rows by_ip)
  unfolding index_rows
  index_rows-Names n i [] by_ip h k = k
  index_rows-Names n i (row ∷ rows) by_ip h k =
      index_rows-Names n (suc i) rows ((row.ip, i) ∷ by_ip) (omega (arith, h)) (omega (arith, h), k)

  -- The index of a model names rows of it. After a snapshot it does so again, and the rows are those that there were, in
  -- their places, where each device that the index knew is written to the row it named, and then a row for each
  -- device that it did not know, in the order of the snapshot: two for an IP that the snapshot has twice.
  pub on_store_updated-rows :
      (snapshot : List (DeviceIntegrated R)) (m : DeviceModel R)
      → Names (length m.devices) m.by_ip
      → let m' = (on_store_updated from_std snapshot m).0 in
        (m'.devices ≡ old_rows m.by_ip snapshot m.devices ++ new_rows m.by_ip snapshot)
        × Names (length m'.devices) m'.by_ip
  unfolding on_store_updated
  on_store_updated-rows snapshot m h =
      let rows = (update_rows from_std m.by_ip snapshot m.devices).0 in
      (
        ap (λ ds. (update_rows from_std m.by_ip snapshot ds).0) (sym (append-nil m.devices))
            ∙ update_rows-split m.by_ip snapshot m.devices [] h,
        index_rows-Names (length rows) 0 rows [] (omega arith) tt,
      )

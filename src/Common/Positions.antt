-- ===== src/Common/Positions.antt =====
-- How `map` commutes with the changes of a list at a position, and how a position splits a list.
use Prim.Native.Nat.{ℕ, zero, suc, ◌+◌}
use native.Mathlib.Nat.{zero-add, suc-add}
use mathlib.Core.Path.{◌≡◌, refl, ap, ap₂, subst}
use mathlib.Core.Logic.{◌≢◌}
use mathlib.Core.Option.{Option, none, some, some-injective}
use mathlib.Core.List.{List, [], ◌∷◌, ◌++◌, map}
use native.Mathlib.Omega.{arith}
use with_boost.Common.Lists.{length, get_elem?, set, remove_at, insert_at, modify, All}

module _ {ℓ κ} {A : Type ℓ} {B : Type κ} (f : A → B) where
  pub map-insert_at :
      (i : ℕ) (v : A) (xs : List A) → map f (insert_at i v xs) ≡ insert_at i (f v) (map f xs)
  map-insert_at zero v xs = refl
  map-insert_at (suc i) v [] = refl
  map-insert_at (suc i) v (x ∷ xs) = ap (◌∷◌ (f x)) (map-insert_at i v xs)

  pub map-remove_at : (i : ℕ) (xs : List A) → map f (remove_at i xs) ≡ remove_at i (map f xs)
  map-remove_at zero [] = refl
  map-remove_at (suc i) [] = refl
  map-remove_at zero (x ∷ xs) = refl
  map-remove_at (suc i) (x ∷ xs) = ap (◌∷◌ (f x)) (map-remove_at i xs)

  -- A change that `f` does not see.
  pub map-modify :
      (i : ℕ) (g : A → A) (xs : List A)
      → ((a : A) → f (g a) ≡ f a)
      → map f (modify i g xs) ≡ map f xs
  map-modify zero g [] h = refl
  map-modify (suc i) g [] h = refl
  map-modify zero g (x ∷ xs) h = ap (λ y. y ∷ map f xs) (h x)
  map-modify (suc i) g (x ∷ xs) h = ap (◌∷◌ (f x)) (map-modify i g xs h)

  pub map-map_keep :
      (g : A → A) (xs : List A) → ((a : A) → f (g a) ≡ f a) → map f (map g xs) ≡ map f xs
  map-map_keep g [] h = refl
  map-map_keep g (x ∷ xs) h = ap₂ ◌∷◌ (h x) (map-map_keep g xs h)

  pub map-set :
      (i : ℕ) (v a : A) (xs : List A)
      → get_elem? xs i ≡ some a
      → f v ≡ f a
      → map f (set xs i v) ≡ map f xs
  map-set i v a [] g h = refl
  map-set zero v a (x ∷ xs) g h = ground (arith, h)
  map-set (suc i) v a (x ∷ xs) g h = ap (◌∷◌ (f x)) (map-set i v a xs g h)

module _ {ℓ} {A : Type ℓ} where
  -- The list around a position in range.
  pub split_at :
      (xs : List A) (i : ℕ) (a : A)
      → get_elem? xs i ≡ some a
      → (front : List A) × (back : List A) × (xs ≡ front ++ a ∷ back) × (length front ≡ i)
  split_at [] i a g = elim (none-ne-some g) [ ]
    where
      none-ne-some : {B : Type ℓ} {b : B} → ◌≡◌ {A = Option B} none (some b) → ⊥
      none-ne-some e = cc
  split_at (x ∷ xs) zero a g = ([], xs, ground arith, refl)
  split_at (x ∷ xs) (suc i) a g =
      let (front, back, e, l) = split_at xs i a g in (x ∷ front, back, ap (◌∷◌ x) e, ap suc l)

  pub get_elem?-set_other :
      (xs : List A) (i j : ℕ) (v : A) → i ≢ j → get_elem? (set xs i v) j ≡ get_elem? xs j
  get_elem?-set_other [] i j v h = refl
  get_elem?-set_other (x ∷ xs) zero zero v h = absurd (h refl)
  get_elem?-set_other (x ∷ xs) zero (suc j) v h = refl
  get_elem?-set_other (x ∷ xs) (suc i) zero v h = refl
  get_elem?-set_other (x ∷ xs) (suc i) (suc j) v h =
      get_elem?-set_other xs i j v (λ e. h (ap suc e))

  pub remove_at-append :
      (front : List A) (a : A) (back : List A)
      → remove_at (length front) (front ++ a ∷ back) ≡ front ++ back
  remove_at-append [] a back = refl
  remove_at-append (x ∷ front) a back = ap (◌∷◌ x) (remove_at-append front a back)

  pub insert_at-append :
      (front : List A) (a : A) (back : List A)
      → insert_at (length front) a (front ++ back) ≡ front ++ a ∷ back
  insert_at-append [] a back = refl
  insert_at-append (x ∷ front) a back = ap (◌∷◌ x) (insert_at-append front a back)

  pub modify-append :
      (front : List A) (f : A → A) (a : A) (back : List A)
      → modify (length front) f (front ++ a ∷ back) ≡ front ++ f a ∷ back
  modify-append [] f a back = refl
  modify-append (x ∷ front) f a back = ap (◌∷◌ x) (modify-append front f a back)

  pub get_elem?-append :
      (front : List A) (a : A) (back : List A)
      → get_elem? (front ++ a ∷ back) (length front) ≡ some a
  get_elem?-append [] a back = refl
  get_elem?-append (x ∷ front) a back = get_elem?-append front a back

  pub get_elem?-append_right :
      (front ys : List A) (k : ℕ) → get_elem? (front ++ ys) (length front + k) ≡ get_elem? ys k
  get_elem?-append_right [] ys k = rw zero-add
  get_elem?-append_right (x ∷ front) ys k =
      rw (suc-add (length front) k) (get_elem?-append_right front ys k)

-- What holds of all elements, before and after a change.
module _ {ℓ κ} {A : Type ℓ} (P : A → Type κ) where
  pub All-get_elem? : (xs : List A) (i : ℕ) (a : A) → get_elem? xs i ≡ some a → All P xs → P a
  All-get_elem? [] i a g h = elim (none-ne-some g) [ ]
    where
      none-ne-some : {a : A} → ◌≡◌ {A = Option A} none (some a) → ⊥
      none-ne-some e = cc
  All-get_elem? (x ∷ xs) zero a g h = subst P (some-injective x a g) h.0
  All-get_elem? (x ∷ xs) (suc i) a g h = All-get_elem? xs i a g h.1

  pub All-set : (xs : List A) (i : ℕ) (v : A) → P v → All P xs → All P (set xs i v)
  All-set [] i v p h = tt
  All-set (x ∷ xs) zero v p h = (p, h.1)
  All-set (x ∷ xs) (suc i) v p h = (h.0, All-set xs i v p h.1)

  pub All-insert_at : (i : ℕ) (v : A) (xs : List A) → P v → All P xs → All P (insert_at i v xs)
  All-insert_at zero v xs p h = (p, h)
  All-insert_at (suc i) v [] p h = (p, tt)
  All-insert_at (suc i) v (x ∷ xs) p h = (h.0, All-insert_at i v xs p h.1)

  pub All-remove_at : (i : ℕ) (xs : List A) → All P xs → All P (remove_at i xs)
  All-remove_at zero [] h = tt
  All-remove_at (suc i) [] h = tt
  All-remove_at zero (x ∷ xs) h = h.1
  All-remove_at (suc i) (x ∷ xs) h = (h.0, All-remove_at i xs h.1)

  pub All-modify :
      (i : ℕ) (f : A → A) (xs : List A)
      → ((a : A) → P a → P (f a))
      → All P xs
      → All P (modify i f xs)
  All-modify zero f [] k h = tt
  All-modify (suc i) f [] k h = tt
  All-modify zero f (x ∷ xs) k h = (k x h.0, h.1)
  All-modify (suc i) f (x ∷ xs) k h = (h.0, All-modify i f xs k h.1)

  pub All-map : (f : A → A) (xs : List A) → ((a : A) → P a → P (f a)) → All P xs → All P (map f xs)
  All-map f [] k h = tt
  All-map f (x ∷ xs) k h = (k x h.0, All-map f xs k h.1)

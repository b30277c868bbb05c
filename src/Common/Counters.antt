-- ===== src/Common/Counters.antt =====
-- Lists of different numbers below a bound: identifiers that a counter hands out.
use Prim.Native.Nat.{ℕ, zero, suc, ◌+◌, ◌≤◌, ◌<◌}
use mathlib.Core.Path.{◌≡◌, refl}
use mathlib.Core.Bool.{false, ◌||◌}
use mathlib.Core.List.{List, [], ◌∷◌, ◌++◌}
use native.Mathlib.Omega.{arith}
use with_boost.Common.Tests.{◌==◌}
use with_boost.Common.Lists.{contains, contains-append, insert_at, remove_at}

-- All numbers are below the bound, and no two are equal.
abbrev pub Fresh : ℕ → List ℕ → Type 0
Fresh n [] = Unit {0}
Fresh n (x ∷ xs) = (x < n) × (contains x xs ≡ false) × Fresh n xs

pub Fresh-mono : {m n : ℕ} (xs : List ℕ) → m ≤ n → Fresh m xs → Fresh n xs
Fresh-mono [] h f = tt
Fresh-mono (x ∷ xs) h f = (omega arith, f.1, Fresh-mono xs h f.2)

pub contains_above : (a : ℕ) {n : ℕ} (xs : List ℕ) → n ≤ a → Fresh n xs → contains a xs ≡ false
contains_above a [] h f = refl
contains_above a (x ∷ xs) h f = ground (arith, contains_above a xs h f.2)

contains-insert_at :
    (a i v : ℕ) (xs : List ℕ) → contains a (insert_at i v xs) ≡ ((a == v) || contains a xs)
contains-insert_at a zero v xs = refl
contains-insert_at a (suc i) v [] = refl
contains-insert_at a (suc i) v (x ∷ xs) = ground (arith, contains-insert_at a i v xs)

contains-remove_at :
    (a i : ℕ) (xs : List ℕ) → contains a xs ≡ false → contains a (remove_at i xs) ≡ false
contains-remove_at a zero [] h = refl
contains-remove_at a (suc i) [] h = refl
contains-remove_at a zero (x ∷ xs) h = ground arith
contains-remove_at a (suc i) (x ∷ xs) h = ground (arith, contains-remove_at a i xs)

-- The counter's value may go anywhere, and the counter moves on.
pub Fresh-insert_at : (i n : ℕ) (xs : List ℕ) → Fresh n xs → Fresh (suc n) (insert_at i n xs)
Fresh-insert_at zero n xs f =
    (omega arith, contains_above n xs (omega arith) f, Fresh-mono xs (omega arith) f)
Fresh-insert_at (suc i) n [] f = (omega arith, refl, tt)
Fresh-insert_at (suc i) n (x ∷ xs) f =
    (omega arith, ground (arith, contains-insert_at x i n xs), Fresh-insert_at i n xs f.2)

pub Fresh-remove_at : (i n : ℕ) (xs : List ℕ) → Fresh n xs → Fresh n (remove_at i xs)
Fresh-remove_at zero n [] f = tt
Fresh-remove_at (suc i) n [] f = tt
Fresh-remove_at zero n (x ∷ xs) f = f.2
Fresh-remove_at (suc i) n (x ∷ xs) f =
    (f.0, contains-remove_at x i xs f.1, Fresh-remove_at i n xs f.2)

-- `count` numbers from `n` on.
abbrev pub range_from : ℕ → ℕ → List ℕ
range_from n zero = []
range_from n (suc count) = n ∷ range_from (suc n) count

range_from_above : (a n count : ℕ) → a < n → contains a (range_from n count) ≡ false
range_from_above a n zero h = refl
range_from_above a n (suc count) h = ground (arith, range_from_above a (suc n) count)

Fresh-range_from : (n count : ℕ) → Fresh (n + count) (range_from n count)
Fresh-range_from n zero = tt
Fresh-range_from n (suc count) = (
  omega arith,
  range_from_above n (suc n) count (omega arith),
  Fresh-mono (range_from (suc n) count) (omega arith) (Fresh-range_from (suc n) count),
)

pub Fresh-append :
    (n count : ℕ) (xs : List ℕ) → Fresh n xs → Fresh (n + count) (xs ++ range_from n count)
Fresh-append n count [] f = Fresh-range_from n count
Fresh-append n count (x ∷ xs) f = (
  omega arith,
  ground (arith, contains-append x xs (range_from n count), range_from_above x n count f.0),
  Fresh-append n count xs f.2,
)

-- No two numbers are equal.
abbrev pub IsDistinct : List ℕ → Type 0
IsDistinct [] = Unit {0}
IsDistinct (x ∷ xs) = (contains x xs ≡ false) × IsDistinct xs

-- No number of the second list is in the first.
abbrev pub IsApart : List ℕ → List ℕ → Type 0
IsApart xs [] = Unit {0}
IsApart xs (y ∷ ys) = (contains y xs ≡ false) × IsApart xs ys

pub IsApart-cons :
    (x : ℕ) (xs ys : List ℕ) → contains x ys ≡ false → IsApart xs ys → IsApart (x ∷ xs) ys
IsApart-cons x xs [] h a = tt
IsApart-cons x xs (y ∷ ys) h a =
    (ground (arith, h, a.0), IsApart-cons x xs ys (ground (arith, h)) a.1)

pub IsApart-nil : (ys : List ℕ) → IsApart [] ys
IsApart-nil [] = tt
IsApart-nil (y ∷ ys) = (refl, IsApart-nil ys)

-- ===== src/Models/CameraModel/MergeResult/Tiles.antt =====
-- The tiles of a row: their title, their places, and how they are removed.
use mathlib.Core.List.{append_assoc, append-nil}
use native.Mathlib.Nat.{zero-add, suc-add, add-zero, add-suc}
use with_boost.Common.{
  ℕ, zero, suc, ◌+◌, ◌<◌, ◌≡◌, refl, sym, ap, subst, ◌∙◌, ℤ, pos, negsuc, int_eq, true, false, some,
  List, [], ◌∷◌, ◌++◌, Text, codes, last_index_of, ends_with, arith, length, get_elem?,
  remove_at-append, take-append, length-append, range_from, lt→ltb, ==-refl, Bool-cases, inl, inr,
}
use with_boost.Models.CameraModel.Entry.{CameraEntry, CameraModel}
use with_boost.Models.CameraModel.Merge.{cut_mark, group_indices, remove_tile, remove_tiles}
use with_boost.Models.CameraModel.SlotIds.{GroupBelow, GroupsBelow}
use with_boost.Models.CameraModel.SplitResult.{tiles_from}

last_index_of-append :
    (pat t s : Text) (k : ℕ)
    → last_index_of pat s ≡ some k
    → last_index_of pat (t ++ s) ≡ some (length t + k)
unfolding last_index_of
last_index_of-append pat [] s k e = rw zero-add e
last_index_of-append pat (c ∷ t) s k e =
    rw (last_index_of-append pat t s k e, suc-add (length t) k) refl

ends_with-append :
    (t : Text) (c : ℕ) (s : Text) (d : ℕ) → ends_with (t ++ c ∷ s) d ≡ ends_with (c ∷ s) d
unfolding ends_with
ends_with-append [] c s d = refl
ends_with-append (b ∷ []) c s d = refl
ends_with-append (b ∷ e ∷ t) c s d = ends_with-append (e ∷ t) c s d

-- A mark at the end of a title that is not empty is cut off.
pub cut_mark-append :
    (t : Text) (c : ℕ) (mark : Text)
    → 0 < length t
    → last_index_of (codes " [") (c ∷ mark) ≡ some 0
    → ends_with (c ∷ mark) b']' ≡ true
    → cut_mark (t ++ c ∷ mark) ≡ t
unfolding cut_mark
cut_mark-append t c mark h e d =
    let marker : last_index_of (codes " [") (t ++ c ∷ mark) ≡ some (length t) =
      last_index_of-append (codes " [") t (c ∷ mark) 0 e ∙ ap some (add-zero (length t)) in
    rw (marker, cut_mark)
      (rw (ends_with-append t c mark b']', d, lt→ltb 0 (length t) h) (take-append t (c ∷ mark)))

int_eq_below : (n : ℕ) (g : ℤ) → GroupBelow n g → int_eq g (pos n) ≡ false
int_eq_below n (pos g) h = ground arith
int_eq_below n (negsuc g) h = refl

module _ {R : Type 0} where
  group_indices-append :
      (g : ℤ) (i : ℕ) (xs ys : List (CameraEntry R))
      → group_indices g i (xs ++ ys) ≡ group_indices g i xs ++ group_indices g (i + length xs) ys
  unfolding group_indices
  group_indices-append g i [] ys = rw add-zero
  group_indices-append g i (x ∷ xs) ys = elim (Bool-cases (int_eq x.split_group_id g)) [
    | inl e ↦ rw (e, group_indices-append g (suc i) xs ys) (ground arith)
    | inr e ↦ rw (e, group_indices-append g (suc i) xs ys) (ground arith)
  ]

  group_indices_below :
      (n i : ℕ) (es : List (CameraEntry R)) → GroupsBelow n es → group_indices (pos n) i es ≡ []
  unfolding group_indices
  group_indices_below n i [] b = refl
  group_indices_below n i (e ∷ es) b =
      rw (int_eq_below n e.split_group_id b.0) (group_indices_below n (suc i) es b.1)

  group_indices-tiles :
      (g : ℕ) (make : ℕ → ℕ → CameraEntry R) (left index id i : ℕ)
      → ((id index : ℕ) → (make id index).split_group_id ≡ pos g)
      → group_indices (pos g) i (tiles_from make left index id) ≡ range_from i left
  unfolding group_indices
  group_indices-tiles g make zero index id i h = refl
  group_indices-tiles g make (suc left) index id i h =
      rw (h id index, ==-refl g)
        (ap (◌∷◌ i) (group_indices-tiles g make left (suc index) (suc id) (suc i) h))

  -- Removing the rows of a stretch, last first, leaves what stands before and behind it.
  pub remove_tiles-cameras :
      (ts front back : List (CameraEntry R)) (m : CameraModel R)
      → m.cameras ≡ front ++ (ts ++ back)
      → (remove_tiles (range_from (length front) (length ts)) m).cameras ≡ front ++ back
  unfolding remove_tiles remove_tile
  remove_tiles-cameras [] front back m e = e
  remove_tiles-cameras (t ∷ ts) front back m e =
      let one : length (front ++ t ∷ []) ≡ suc (length front) =
        omega (arith, length-append front (t ∷ [])) in
      let behind : (remove_tiles (range_from (suc (length front)) (length ts)) m).cameras
          ≡ (front ++ t ∷ []) ++ back =
        subst (λ n. (remove_tiles (range_from n (length ts)) m).cameras ≡ (front ++ t ∷ []) ++ back)
          one
          (remove_tiles-cameras ts (front ++ t ∷ []) back m
            (e ∙ sym (append_assoc front (t ∷ []) (ts ++ back)))) in
      rw (behind, append_assoc front (t ∷ []) back) (remove_at-append front t back)

  pub length-tiles_from :
      (make : ℕ → ℕ → CameraEntry R) (left index id : ℕ)
      → length (tiles_from make left index id) ≡ left
  length-tiles_from make zero index id = refl
  length-tiles_from make (suc left) index id =
      ap suc (length-tiles_from make left (suc index) (suc id))

  pub get_elem?-tiles_from :
      (make : ℕ → ℕ → CameraEntry R) (left index id k : ℕ) (back : List (CameraEntry R))
      → k < left
      → get_elem? (tiles_from make left index id ++ back) k ≡ some (make (id + k) (index + k))
  get_elem?-tiles_from make zero index id k back h = absurd (omega arith)
  get_elem?-tiles_from make (suc left) index id zero back h = rw (add-zero id, add-zero index) refl
  get_elem?-tiles_from make (suc left) index id (suc k) back h =
      rw (add-suc id k, add-suc index k, ← suc-add id k, ← suc-add index k)
        (get_elem?-tiles_from make left (suc index) (suc id) k back (omega arith))

  -- The rows of a group that stand side by side, in a model with no other row of the group.
  pub group_rows :
      (g : ℕ) (make : ℕ → ℕ → CameraEntry R) (count id : ℕ) (front back : List (CameraEntry R))
      → ((id index : ℕ) → (make id index).split_group_id ≡ pos g)
      → GroupsBelow g front
      → GroupsBelow g back
      → group_indices (pos g) 0 (front ++ (tiles_from make count 0 id ++ back))
        ≡ range_from (length front) count
  group_rows g make count id front back h f b = rw (
    group_indices-append (pos g) 0 front (tiles_from make count 0 id ++ back),
    group_indices_below g 0 front f,
    group_indices-append (pos g) (0 + length front) (tiles_from make count 0 id) back,
    group_indices-tiles g make count 0 id (0 + length front) h,
    group_indices_below g _ back b,
    append-nil,
    zero-add,
  )

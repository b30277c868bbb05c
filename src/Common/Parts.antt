-- ===== src/Common/Parts.antt =====
-- Lists that come from others by leaving elements out.
use mathlib.Core.List.{List, [], ◌∷◌, ◌++◌}

-- `xs` is what is left of `ys` when some of its elements are left out.
pub data IsPart {ℓ} {A : Type ℓ} : List A → List A → Type ℓ where
  nothing : IsPart [] []
  left_out : {x : A} {xs ys : List A} → IsPart xs ys → IsPart xs (x ∷ ys)
  kept : {x : A} {xs ys : List A} → IsPart xs ys → IsPart (x ∷ xs) (x ∷ ys)

module _ {ℓ} {A : Type ℓ} where
  pub none_kept : (xs : List A) → IsPart [] xs
  none_kept [] = nothing
  none_kept (x ∷ xs) = left_out (none_kept xs)

  pub all_kept : (xs : List A) → IsPart xs xs
  all_kept [] = nothing
  all_kept (x ∷ xs) = kept (all_kept xs)

  pub behind : (zs : List A) {xs ys : List A} → IsPart xs ys → IsPart xs (zs ++ ys)
  behind [] p = p
  behind (z ∷ zs) p = left_out (behind zs p)

  pub after_same : (zs : List A) {xs ys : List A} → IsPart xs ys → IsPart (zs ++ xs) (zs ++ ys)
  after_same [] p = p
  after_same (z ∷ zs) p = kept (after_same zs p)

  pub before_same : {xs ys : List A} (zs : List A) → IsPart xs ys → IsPart (xs ++ zs) (ys ++ zs)
  before_same zs nothing = all_kept zs
  before_same zs (left_out p) = left_out (before_same zs p)
  before_same zs (kept p) = kept (before_same zs p)

  pub IsPart-trans : {ys zs : List A} → IsPart ys zs → {xs : List A} → IsPart xs ys → IsPart xs zs
  IsPart-trans nothing p = p
  IsPart-trans (left_out q) p = left_out (IsPart-trans q p)
  IsPart-trans (kept q) (left_out p) = left_out (IsPart-trans q p)
  IsPart-trans (kept q) (kept p) = kept (IsPart-trans q p)

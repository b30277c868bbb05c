-- ===== src/Common/SortedMap.antt =====
-- Maps by text keys that are kept in the order of the keys, as a `QMap<QString, T>` is.
use mathlib.Core.Path.{◌≡◌, refl, sym, ap, ◌∙◌, subst}
use mathlib.Core.Logic.{◌⊎◌, inl, inr}
use mathlib.Core.Bool.{Bool, true, false, ◌&&◌, ◌||◌, true≢false}
use mathlib.Core.List.{List, [], ◌∷◌}
use native.Mathlib.Omega.{arith}
use with_boost.Common.Tests.{◌==◌, if◌then◌else◌, ltb, Bool-cases}
use with_boost.Common.Lists.{All, All-mono}
use with_boost.Common.Texts.{Text, text_eq, text_eq→eq, text_eq_refl}

-- The order of `QString`, by which a `QMap` is sorted.
unfoldable pub text_lt : Text → Text → Bool
text_lt s [] = false
text_lt [] (b ∷ t) = true
text_lt (a ∷ s) (b ∷ t) = ltb a b || ((a == b) && text_lt s t)

text_lt_trans : (s t u : Text) → text_lt s t ≡ true → text_lt t u ≡ true → text_lt s u ≡ true
unfolding text_lt
text_lt_trans s t [] h k = cc
text_lt_trans [] t (c ∷ u) h k = refl
text_lt_trans (a ∷ s) [] (c ∷ u) h k = cc
text_lt_trans (a ∷ s) (b ∷ t) (c ∷ u) h k = ground (arith, text_lt_trans s t u)

text_lt_total : (s t : Text) → text_eq t s ≡ false → text_lt s t ≡ false → text_lt t s ≡ true
unfolding text_lt text_eq
text_lt_total [] [] e l = cc
text_lt_total [] (b ∷ t) e l = cc
text_lt_total (a ∷ s) [] e l = refl
text_lt_total (a ∷ s) (b ∷ t) e l = ground (arith, text_lt_total s t)

text_lt_irrefl : (s : Text) → text_lt s s ≡ false
unfolding text_lt
text_lt_irrefl [] = refl
text_lt_irrefl (a ∷ s) = ground (arith, text_lt_irrefl s)

apart : (s t : Text) → text_lt s t ≡ true → text_eq s t ≡ false
apart s t l = elim (Bool-cases (text_eq s t)) [
  | inl q ↦ absurd (true≢false (sym l ∙ ap (text_lt s) (sym (text_eq→eq s t q)) ∙ text_lt_irrefl s))
  | inr q ↦ q
]

module _ {V : Type 0} where
  abbrev pub Above : Text → List (Text × V) → Type 0
  Above k es = All (λ e. text_lt k e.0 ≡ true) es

  -- The keys ascend, so each stands once.
  abbrev pub IsSorted : List (Text × V) → Type 0
  IsSorted [] = Unit
  IsSorted (e ∷ es) = Above e.0 es × IsSorted es

  Above-trans :
      (k : Text) (e : Text × V) (es : List (Text × V))
      → text_lt k e.0 ≡ true
      → Above e.0 es
      → Above k es
  Above-trans k e es b h =
      All-mono (λ x. text_lt e.0 x.0 ≡ true) (λ x. text_lt k x.0 ≡ true) es
        (λ x l. text_lt_trans k e.0 x.0 b l) h

-- `def` is the default of a missing key.
module _ {V : Type 0} (def : V) where
  -- `map[key]` changed in place: a missing key gets the default first.
  unfoldable pub change_at : Text → (V → V) → List (Text × V) → List (Text × V)
  unfolding text_lt
  change_at key change [] = (key, change def) ∷ []
  change_at key change (e ∷ es) =
      if text_eq e.0 key
      then (e.0, change e.1) ∷ es
      else if text_lt key e.0
      then (key, change def) ∷ e ∷ es
      else e ∷ change_at key change es

  change_at-Above :
      (k key : Text) (change : V → V) (es : List (Text × V))
      → text_lt k key ≡ true
      → Above k es
      → Above k (change_at key change es)
  unfolding change_at
  change_at-Above k key change [] l h = (l, tt)
  change_at-Above k key change (e ∷ es) l h = elim (Bool-cases (text_eq e.0 key)) [
    | inl q ↦ rw q h
    | inr q ↦ rw q (elim (Bool-cases (text_lt key e.0)) [
      | inl b ↦ rw b (l, h)
      | inr b ↦ rw b (h.0, change_at-Above k key change es l h.1)
    ])
  ]

  pub change_at-IsSorted :
      (key : Text) (change : V → V) (es : List (Text × V))
      → IsSorted es
      → IsSorted (change_at key change es)
  unfolding change_at
  change_at-IsSorted key change [] h = (tt, tt)
  change_at-IsSorted key change (e ∷ es) h = elim (Bool-cases (text_eq e.0 key)) [
    | inl q ↦ rw q h
    | inr q ↦ rw q (elim (Bool-cases (text_lt key e.0)) [
      | inl b ↦ rw b ((b, Above-trans key e es b h.0), h)
      | inr b ↦ rw b (
        change_at-Above e.0 key change es (text_lt_total key e.0 q b) h.0,
        change_at-IsSorted key change es h.1,
      )
    ])
  ]

  -- The states of a key: the default where it is missing.
  unfoldable pub lookup : Text → List (Text × V) → V
  lookup k [] = def
  lookup k (e ∷ es) = if text_eq e.0 k then e.1 else lookup k es

  lookup-Above : (k : Text) (es : List (Text × V)) → Above k es → lookup k es ≡ def
  unfolding lookup
  lookup-Above k [] h = refl
  lookup-Above k (e ∷ es) h = elim (Bool-cases (text_eq e.0 k)) [
    | inl q ↦ absurd (
        true≢false
          (sym (subst (λ t. text_lt k t ≡ true) (text_eq→eq e.0 k q) h.0) ∙ text_lt_irrefl k))
    | inr q ↦ rw q (lookup-Above k es h.1)
  ]

  -- The law of the map in one equation.
  pub lookup-change_at :
      (k key : Text) (change : V → V) (es : List (Text × V))
      → IsSorted es
      → lookup k (change_at key change es)
        ≡ (if text_eq key k then change (lookup key es) else lookup k es)
  unfolding lookup change_at
  lookup-change_at k key change [] h = refl
  lookup-change_at k key change (e ∷ es) h = elim (Bool-cases (text_eq e.0 key)) [
    | inl q ↦ rw q (same (text_eq→eq e.0 key q))
    | inr q ↦ elim (Bool-cases (text_lt key e.0)) [
      | inl b ↦ rw (q, b, lookup-Above key es (Above-trans key e es b h.0)) refl
      | inr b ↦
          rw (q, b) (later q (lookup-change_at k key change es h.1) (Bool-cases (text_eq key k)))
    ]
  ]
    where
      same :
          e.0 ≡ key
          → lookup k ((e.0, change e.1) ∷ es)
            ≡ (if text_eq key k then change e.1 else lookup k (e ∷ es))
      same l = rw (ap (λ t. text_eq t k) l) (ground arith)

      later :
          text_eq e.0 key ≡ false
          → lookup k (change_at key change es)
            ≡ (if text_eq key k then change (lookup key es) else lookup k es)
          → (text_eq key k ≡ true) ⊎ (text_eq key k ≡ false)
          → lookup k (e ∷ change_at key change es)
            ≡ (if text_eq key k then change (lookup key es) else lookup k (e ∷ es))
      later q ih (inl r) = rw (subst (λ t. text_eq e.0 t ≡ false) (text_eq→eq key k r) q) ih
      later q ih (inr r) = rw r (ap (λ st. if text_eq e.0 k then e.1 else st) (subst Without r ih))
        where
          Without : Bool → Type 0
          Without b =
              lookup k (change_at key change es)
              ≡ (if b then change (lookup key es) else lookup k es)

  -- What stands behind a key does not hide it, nor what stands before it: each entry is the one found.
  pub All-lookup : (es : List (Text × V)) → IsSorted es → All (λ e. lookup e.0 es ≡ e.1) es
  unfolding lookup
  All-lookup [] h = tt
  All-lookup (e ∷ es) h = (rw (text_eq_refl e.0) refl, later es h.0 (All-lookup es h.1))
    where
      later :
          (xs : List (Text × V))
          → Above e.0 xs
          → All (λ x. lookup x.0 es ≡ x.1) xs
          → All (λ x. lookup x.0 (e ∷ es) ≡ x.1) xs
      later [] a h = tt
      later (x ∷ xs) a h = (rw (apart e.0 x.0 a.0) h.0, later xs a.1 h.1)

-- ===== src/Common/Find.antt =====
-- `std::string::find` and `substr`.
use Prim.Native.Nat.{ℕ, suc, ◌+◌}
use mathlib.Core.Path.{◌≡◌}
use mathlib.Core.Bool.{false}
use mathlib.Core.Option
use mathlib.Core.Option.{Option, none, some}
use mathlib.Core.List.{[], ◌∷◌, ◌++◌}
use native.Mathlib.Omega.{arith}
use with_boost.Common.Tests.{leb, if◌then◌else◌}
use with_boost.Common.Lists.{length, take, drop, is_empty, contains, length-append, drop-append}
use with_boost.Common.Texts.{Text, starts_with}

-- The first place where the pattern begins.
unfoldable pub index_of : Text → Text → Option ℕ
unfolding starts_with
index_of pat [] = if is_empty pat then some 0 else none
index_of pat (c ∷ s) =
    let later = Option.map suc (index_of pat s) in if starts_with (c ∷ s) pat then some 0 else later

-- `s.find(pat, from)`: nothing is found where `from` lies behind the end.
unfoldable pub find_from : Text → ℕ → Text → Option ℕ
unfolding index_of
find_from pat from s =
    if leb from (length s) then Option.map (λ k. from + k) (index_of pat (drop from s)) else none

-- `s.substr(from, count)` for `from` within the text.
abbrev pub substr : Text → ℕ → ℕ → Text
substr s from count = take count (drop from s)

-- A character that a stretch does not hold is found right behind the stretch.
index_of-char :
    (c : ℕ) (s t : Text) → contains c s ≡ false → index_of (c ∷ []) (s ++ c ∷ t) ≡ some (length s)
unfolding index_of starts_with
index_of-char c [] t h = ground arith
index_of-char c (x ∷ s) t h = ground (arith, index_of-char c s t)

pub find_from-char :
    (c : ℕ) (front s t : Text) (from : ℕ)
    → from ≡ length front
    → contains c s ≡ false
    → find_from (c ∷ []) from (front ++ (s ++ c ∷ t)) ≡ some (from + length s)
unfolding find_from
find_from-char c front s t from e h =
    rw (e, drop-append front (s ++ c ∷ t), index_of-char c s t h)
      (ground (arith, length-append front (s ++ c ∷ t)))

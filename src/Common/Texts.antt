-- ===== src/Common/Texts.antt =====
-- Text as a list of character codes: `std::string` by bytes, `QString` by code units.
use Prim.Native.Nat.{ℕ, zero, suc, ◌+◌, ◌/◌, ◌%◌}
use Prim.Native.Char.{code}
use Prim.Native.String.{String}
use mathlib.Core.Path.{◌≡◌, refl, ap₂}
use mathlib.Core.Logic.{◌↔◌}
use mathlib.Core.Bool.{Bool, true, false, ◌&&◌}
use mathlib.Core.Option.{Option, none, some}
use mathlib.Core.List.{List, [], ◌∷◌, ◌++◌}
use with_boost.Common.Tests.{◌==◌, if◌then◌else◌, ltb, and-split, ==-eq, ==-refl}
use with_boost.Common.Lists.{is_empty}

abbrev pub Text : Type 0
Text = List ℕ

-- The text of a literal.
abbrev pub codes : String → Text
codes String.[] = []
codes (String.◌∷◌ c s) = code c ∷ codes s

unfoldable pub text_eq : Text → Text → Bool
text_eq [] [] = true
text_eq [] (b ∷ t) = false
text_eq (a ∷ s) [] = false
text_eq (a ∷ s) (b ∷ t) = (a == b) && text_eq s t

pub text_eq→eq : (s t : Text) → text_eq s t ≡ true → s ≡ t
unfolding text_eq
text_eq→eq [] [] h = refl
text_eq→eq [] (b ∷ t) h = cc
text_eq→eq (a ∷ s) [] h = cc
text_eq→eq (a ∷ s) (b ∷ t) h =
    let (p, q) = and-split (a == b) (text_eq s t) h in ap₂ ◌∷◌ (==-eq a b p) (text_eq→eq s t q)

pub text_eq_refl : (s : Text) → text_eq s s ≡ true
unfolding text_eq
text_eq_refl [] = refl
text_eq_refl (a ∷ s) = rw (==-refl a) (text_eq_refl s)

eq→text_eq : (s t : Text) → s ≡ t → text_eq s t ≡ true
eq→text_eq s t e = rw e (text_eq_refl t)

pub text_eq_iff : (s t : Text) → (text_eq s t ≡ true) ↔ (s ≡ t)
text_eq_iff s t = (text_eq→eq s t, eq→text_eq s t)

unfoldable pub starts_with : Text → Text → Bool
starts_with s [] = true
starts_with [] (p ∷ ps) = false
starts_with (c ∷ s) (p ∷ ps) = (c == p) && starts_with s ps

pub starts_with-append : (p s : Text) → starts_with (p ++ s) p ≡ true
unfolding starts_with
starts_with-append [] s = refl
starts_with-append (c ∷ p) s = rw (==-refl c) (starts_with-append p s)

-- `QString::lastIndexOf`: the last place where the pattern begins.
unfoldable pub last_index_of : Text → Text → Option ℕ
unfolding starts_with
last_index_of pat [] = if is_empty pat then some 0 else none
last_index_of pat (c ∷ s) = elim (last_index_of pat s) [
  | some k ↦ some (suc k)
  | none ↦ if starts_with (c ∷ s) pat then some 0 else none
]

-- `endsWith` at one character.
unfoldable pub ends_with : Text → ℕ → Bool
ends_with [] d = false
ends_with (c ∷ []) d = c == d
ends_with (c ∷ e ∷ s) d = ends_with (e ∷ s) d

-- The decimal digits of a number, on fuel that its size bounds.
unfoldable pub digits : ℕ → ℕ → Text
digits zero n = (b'0' + n % 10) ∷ []
digits (suc f) n =
    let more = digits f (n / 10) in
    if ltb n 10 then (b'0' + n % 10) ∷ [] else more ++ (b'0' + n % 10) ∷ []

-- `QString::number` and `std::to_string` at a number that is not negative.
unfoldable pub number : ℕ → Text
unfolding digits
number n = digits n n

-- ===== src/Services/NetworkBridge/ReadBack.antt =====
-- What a reader of JSON makes of the bodies.
use mathlib.Core.Bool.{true≢false}
use mathlib.Core.List.{append_assoc}
use with_boost.Common.{
  ℕ, zero, suc, ◌≤◌, ◌<◌, ◌≡◌, refl, ap, ◌∙◌, true, false, Option, none, some, List, [], ◌∷◌, ◌++◌,
  Text, codes, ◌==◌, is_empty, if◌then◌else◌, length, length-append, drop, text_eq, Bool-cases, inl,
  inr, All, arith, contains,
}
use with_boost.Domain.Json.{◌>>=◌}
use with_boost.Services.NetworkBridge.Body.{build_json, members, member}

-- The characters up to a quote, and what stands behind it; escapes are not read.
until_quote : Text → Option (Text × Text)
until_quote [] = none
until_quote (c ∷ s) =
    let more : Option (Text × Text) = elim (until_quote s) [
      | none ↦ none
      | some (t, rest) ↦ some (c ∷ t, rest)
    ] in
    if c == b'"' then some ([], s) else if c == b'\\' then none else more

abbrev pub IsPlain : Text → Type 0
IsPlain t = (contains b'"' t ≡ false) × (contains b'\\' t ≡ false)

until_quote-append : (t rest : Text) → IsPlain t → until_quote (t ++ b'"' ∷ rest) ≡ some (t, rest)
unfolding until_quote
until_quote-append [] rest p = refl
until_quote-append (c ∷ t) rest p = ground (arith, until_quote-append t rest)

expect : ℕ → Text → Option Text
expect c [] = none
expect c (d ∷ s) = if d == c then some s else none

expect-same : (c : ℕ) (s : Text) → expect c (c ∷ s) ≡ some s
unfolding expect
expect-same c s = ground arith

-- `"key":"value"`.
read_member : Text → Option ((Text × Text) × Text)
read_member s = do
  s1 ← expect b'"' s
  key ← until_quote s1
  s2 ← expect b':' key.1
  s3 ← expect b'"' s2
  value ← until_quote s3
  some ((key.0, value.0), value.1)

member-append :
    (k v rest : Text) → member k v ++ rest ≡ b'"' ∷ (k ++ b'"' ∷ b':' ∷ b'"' ∷ (v ++ b'"' ∷ rest))
unfolding member
member-append k v rest = ap (◌∷◌ b'"') (
    append_assoc k (codes "\":\"" ++ (v ++ codes "\"")) rest
    ∙ ap (λ t. k ++ b'"' ∷ b':' ∷ b'"' ∷ t) (append_assoc v (codes "\"") rest))

read_member-append :
    (k v rest : Text)
    → IsPlain k
    → IsPlain v
    → read_member (member k v ++ rest) ≡ some ((k, v), rest)
unfolding read_member
read_member-append k v rest p q =
    let behind = v ++ b'"' ∷ rest in
    rw
      (
        member-append k v rest,
        expect-same b'"' (k ++ b'"' ∷ b':' ∷ b'"' ∷ behind),
        until_quote-append k (b':' ∷ b'"' ∷ behind) p,
        expect-same b':' (b'"' ∷ behind),
        expect-same b'"' behind,
        until_quote-append v rest q,
      )
      refl

-- What may follow a member: a comma and more of them, or the brace that ends the text.
after_member : Text × Text → Text → Option (List (Text × Text)) → Option (List (Text × Text))
after_member pair [] more = none
after_member pair (c ∷ rest) more =
    let joined : Option (List (Text × Text)) = more >>= λ pairs. some (pair ∷ pairs) in
    let last : Option (List (Text × Text)) = if is_empty rest then some (pair ∷ []) else none in
    if c == b'}' then last else if c == b',' then joined else none

-- The members that are left, on fuel for their number.
read_members : ℕ → Text → Option (List (Text × Text))
read_members zero s = none
read_members (suc fuel) s = do
  first ← read_member s
  after_member first.0 first.1 (read_members fuel (drop 1 first.1))

pub read_object : Text → Option (List (Text × Text))
read_object s = do
  inside ← expect b'{' s
  if text_eq inside (codes "}") then some [] else read_members (length inside) inside

-- The pairs that the loop writes.
abbrev pub kept : List (Text × Text) → List (Text × Text)
kept [] = []
kept ((k, v) ∷ pairs) = if is_empty v then kept pairs else (k, v) ∷ kept pairs

tail_of : List (Text × Text) → Text
tail_of [] = []
tail_of ((k, v) ∷ pairs) = b',' ∷ (member k v ++ tail_of pairs)

head_of : List (Text × Text) → Text
head_of [] = []
head_of ((k, v) ∷ pairs) = member k v ++ tail_of pairs

members-tail_of : (pairs : List (Text × Text)) → members false pairs ≡ tail_of (kept pairs)
unfolding members tail_of
members-tail_of [] = refl
members-tail_of ((k, v) ∷ pairs) = elim (Bool-cases (is_empty v)) [
  | inl e ↦ rw e (members-tail_of pairs)
  | inr e ↦ rw e (ap (λ t. b',' ∷ (member k v ++ t)) (members-tail_of pairs))
]

members-head_of : (pairs : List (Text × Text)) → members true pairs ≡ head_of (kept pairs)
unfolding members head_of
members-head_of [] = refl
members-head_of ((k, v) ∷ pairs) = elim (Bool-cases (is_empty v)) [
  | inl e ↦ rw e (members-head_of pairs)
  | inr e ↦ rw e (ap (λ t. member k v ++ t) (members-tail_of pairs))
]

abbrev pub ArePlain : Text × Text → Type 0
ArePlain p = IsPlain p.0 × IsPlain p.1

read_members-step :
    (fuel : ℕ) (k v rest : Text)
    → IsPlain k
    → IsPlain v
    → read_members (suc fuel) (member k v ++ rest)
      ≡ after_member (k, v) rest (read_members fuel (drop 1 rest))
unfolding read_members
read_members-step fuel k v rest p q = rw (read_member-append k v rest p q) refl

read_members-head_of :
    (fuel : ℕ) (k v : Text) (pairs : List (Text × Text))
    → length pairs < fuel
    → IsPlain k
    → IsPlain v
    → All ArePlain pairs
    → read_members fuel (head_of ((k, v) ∷ pairs) ++ codes "}") ≡ some ((k, v) ∷ pairs)
unfolding head_of tail_of after_member
read_members-head_of zero k v pairs l p q h = absurd (omega arith)
read_members-head_of (suc fuel) k v [] l p q h =
    ap (read_members (suc fuel)) (append_assoc (member k v) [] (codes "}"))
    ∙ read_members-step fuel k v (codes "}") p q
read_members-head_of (suc fuel) k v ((k', v') ∷ pairs) l p q h =
    let rest = head_of ((k', v') ∷ pairs) ++ codes "}" in
    ap (read_members (suc fuel))
      (append_assoc (member k v) (tail_of ((k', v') ∷ pairs)) (codes "}"))
    ∙ read_members-step fuel k v (b',' ∷ rest) p q
    ∙ ap (after_member (k, v) (b',' ∷ rest))
        (read_members-head_of fuel k' v' pairs (omega arith) h.0.0 h.0.1 h.1)

length-tail_of : (pairs : List (Text × Text)) → length pairs ≤ length (tail_of pairs)
unfolding tail_of member
length-tail_of [] = omega arith
length-tail_of ((k, v) ∷ pairs) =
    omega (arith, length-append (member k v) (tail_of pairs), length-tail_of pairs)

no_pair : read_object (b'{' ∷ (head_of [] ++ codes "}")) ≡ some []
unfolding read_object expect head_of text_eq
no_pair = refl

not_closed :
    (k v : Text) (pairs : List (Text × Text))
    → text_eq (head_of ((k, v) ∷ pairs) ++ codes "}") (codes "}") ≡ false
unfolding text_eq head_of member
not_closed k v pairs = refl

enough_fuel :
    (k v : Text) (pairs : List (Text × Text))
    → length pairs < length (head_of ((k, v) ∷ pairs) ++ codes "}")
unfolding head_of
enough_fuel k v pairs = omega (
  arith,
  length-append (member k v ++ tail_of pairs) (codes "}"),
  length-append (member k v) (tail_of pairs),
  length-tail_of pairs,
)

read_object-head_of :
    (pairs : List (Text × Text))
    → All ArePlain pairs
    → read_object (b'{' ∷ (head_of pairs ++ codes "}")) ≡ some pairs
unfolding read_object
read_object-head_of [] h = no_pair
read_object-head_of ((k, v) ∷ pairs) h =
    let inside = head_of ((k, v) ∷ pairs) ++ codes "}" in
    rw (expect-same b'{' inside, not_closed k v pairs)
      (read_members-head_of (length inside) k v pairs (enough_fuel k v pairs) h.0.0 h.0.1 h.1)

kept-ArePlain : (pairs : List (Text × Text)) → All ArePlain pairs → All ArePlain (kept pairs)
kept-ArePlain [] h = tt
kept-ArePlain ((k, v) ∷ pairs) h = elim (Bool-cases (is_empty v)) [
  | inl e ↦ rw e (kept-ArePlain pairs h.1)
  | inr e ↦ rw e (h.0, kept-ArePlain pairs h.1)
]

-- No key and no value has a quote or a backslash: a reader of flat objects of texts gets back exactly the
-- pairs with a value that is not empty, in their order.
pub read_object-build_json :
    (pairs : List (Text × Text))
    → All ArePlain pairs
    → read_object (build_json pairs) ≡ some (kept pairs)
unfolding build_json
read_object-build_json pairs h =
    ap (λ t. read_object (b'{' ∷ (t ++ codes "}"))) (members-head_of pairs)
    ∙ read_object-head_of (kept pairs) (kept-ArePlain pairs h)

-- Values are not escaped: an ID that is not empty, followed by what spells the end of its text
-- and another member with a value that is not empty, makes the body that this member would have
-- made, whatever pairs follow.
pub build_json-injection :
    (id k v : Text) (pairs : List (Text × Text))
    → is_empty id ≡ false
    → is_empty v ≡ false
    → build_json ((codes "id", id ++ (codes "\",\"" ++ (k ++ (codes "\":\"" ++ v)))) ∷ pairs)
      ≡ build_json ((codes "id", id) ∷ (k, v) ∷ pairs)
unfolding build_json members member
build_json-injection [] k v pairs e f = absurd (true≢false e)
build_json-injection (c ∷ id) k v pairs e f = rw f (simp append_assoc)

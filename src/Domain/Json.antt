-- ===== src/Domain/Json.antt =====
-- What the stores use of nlohmann::json. A read answers `none` where the library throws.
use with_boost.Common.{Text, Bool, List, ℤ, Option, none, some}

-- `item.value(key, default)`, with the defaults "", false, 0 and 0.0, gives the member `key`, or the
-- default where there is none; it throws on a value that is not an object, and at a member of another
-- type. `parse` does not throw: its value for a bad text is neither an array nor an object.
pub record Json : Type 1 where
  pub Value : Type 0
  pub Real : Type 0
  pub real_zero : Real
  pub parse : Text → Value
  pub is_array : Value → Bool
  pub is_object : Value → Bool
  pub elements : Value → List Value
  pub member : Value → Text → Option Value
  pub value_text : Value → Text → Option Text
  pub value_bool : Value → Text → Option Bool
  pub value_int : Value → Text → Option ℤ
  pub value_real : Value → Text → Option Real

infixl 5 ◌>>=◌
abbrev pub ◌>>=◌ {ℓ κ} : {A : Type ℓ} {B : Type κ} → Option A → (A → Option B) → Option B
none >>= f = none
some a >>= f = f a

-- ===== src/Floats.antt =====
-- Floating point numbers, which the language gives and which have no exact model here, with the
-- operations that the code uses. `IsNumber` says of a value that it is not NaN: a quotient is one
-- where the divisor is not zero, and nothing is known of the order of NaN.
use runboard.Prelude.{ℕ, ℤ, pos, is_zero, false, ◌≤◌, ◌<◌, ◌≡◌}

pub record Floats : Type 1 where
  pub Float : Type 0
  pub zero : Float
  pub one : Float
  pub divide : ℤ → ℤ → Float
  pub min : Float → Float → Float
  pub max : Float → Float → Float
  pub IsNumber : Float → Type 0
  pub zero-IsNumber : IsNumber zero
  pub one-IsNumber : IsNumber one
  pub divide-IsNumber : (a b : ℤ) → is_zero b ≡ false → IsNumber (divide a b)
  pub max-IsNumber : (a b : Float) → IsNumber a → IsNumber b → IsNumber (max a b)
  -- Nothing stands in this order with NaN.
  pub Le : Float → Float → Type 0
  pub zero-le-zero : Le zero zero
  pub zero-le-one : Le zero one
  pub min-le_left : (a b : Float) → IsNumber a → IsNumber b → Le (min a b) a
  pub le-min : (a b c : Float) → Le c a → Le c b → Le c (min a b)
  pub le-max_left : (a b : Float) → IsNumber a → IsNumber b → Le a (max a b)
  pub min_of_le : (a b : Float) → Le b a → min a b ≡ b
  pub max_of_le : (a b : Float) → Le a b → max a b ≡ b
  pub zero-le-divide : (a b : ℕ) → 0 < b → Le zero (divide (pos a) (pos b))
  pub divide-le-one : (a b : ℕ) → a ≤ b → 0 < b → Le (divide (pos a) (pos b)) one

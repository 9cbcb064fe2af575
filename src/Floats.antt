-- ===== src/Floats.antt =====
-- Python's `float`, which the program takes from the language's run time: a type with its
-- operations, and the laws that the code relies on. Values are doubles that are no NaN, in
-- computations that do not overflow; on these IEEE 754 comparison is a total preorder, and since
-- rounding is monotone, the laws hold of the rounded operations. No law says that a sum, a
-- difference or a product is exact.
pub mod Fixed
use scrape_grid.Prelude.{ℕ, ◌≤◌, ◌<◌, ◌≡◌, Bool, true, false, not, if◌then◌else◌}

pub record FloatOps : Type 1 where
  pub Float : Type 0
  pub zero : Float
  pub of_ℕ : ℕ → Float
  -- the literal `n / d`
  pub literal : ℕ → ℕ → Float
  pub add : Float → Float → Float
  pub sub : Float → Float → Float
  pub mul : Float → Float → Float
  pub div : Float → Float → Float
  -- a <= b
  pub le : Float → Float → Bool
  pub le_refl : (a : Float) → le a a ≡ true
  pub le_trans : (a b c : Float) → le a b ≡ true → le b c ≡ true → le a c ≡ true
  pub le_total : (a b : Float) → le a b ≡ false → le b a ≡ true
  pub of_ℕ_nonneg : (n : ℕ) → le zero (of_ℕ n) ≡ true
  pub of_ℕ_pos : (n : ℕ) → 0 < n → le (of_ℕ n) zero ≡ false
  pub of_ℕ_mono : (n m : ℕ) → n ≤ m → le (of_ℕ n) (of_ℕ m) ≡ true
  pub literal_nonneg : (n d : ℕ) → le zero (literal n d) ≡ true
  pub le-add_right : (a b : Float) → le zero b ≡ true → le a (add a b) ≡ true
  pub sub_nonneg : (a b : Float) → le b a ≡ true → le zero (sub a b) ≡ true
  pub sub-le : (a b : Float) → le zero b ≡ true → le (sub a b) a ≡ true
  pub mul_nonneg : (a b : Float) → le zero a ≡ true → le zero b ≡ true → le zero (mul a b) ≡ true
  pub div_nonneg : (a b : Float) → le zero a ≡ true → le b zero ≡ false → le zero (div a b) ≡ true
  pub mul_mono :
      (a b c : Float)
      → le zero a ≡ true
      → le a b ≡ true
      → le zero c ≡ true
      → le (mul a c) (mul b c) ≡ true

module _ (fl : FloatOps) where
  open fl use {Float, zero, add, sub, mul, le}

  -- a < b
  abbrev pub lt : Float → Float → Bool
  lt a b = not (le b a)

  -- `min(a, b)` and `max(a, b)` of Python give their first argument on a tie.
  abbrev pub fmin : Float → Float → Float
  fmin a b = if lt b a then b else a

  abbrev pub fmax : Float → Float → Float
  fmax a b = if lt a b then b else a

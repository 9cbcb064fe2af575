-- ===== src/BloomFilter/Bits.antt =====
-- The digits of `|`: an equation for the lowest, and one for each.
use Prim.Native.Nat.{digits, bit_or, bit_or-bitwise}
use native.Mathlib.Nat.{pow-suc}
use scrape_grid.Prelude.{ℕ, zero, suc, ◌+◌, ◌*◌, ◌/◌, ◌%◌, ◌^◌, ◌≤◌, ◌<◌, max, ◌≡◌, refl, arith}

-- Any two counts of rounds that suffice for `a` give the same digits.
rounds_enough :
    (n m a b : ℕ) → a ≤ n → a ≤ m → digits (λ y. y) max n a b ≡ digits (λ y. y) max m a b
rounds_enough zero zero a b h k = refl
rounds_enough zero (suc m) zero b h k = refl
rounds_enough zero (suc m) (suc a) b h k = absurd (omega arith)
rounds_enough (suc n) zero zero b h k = refl
rounds_enough (suc n) zero (suc a) b h k = absurd (omega arith)
rounds_enough (suc n) (suc m) zero b h k = refl
rounds_enough (suc n) (suc m) (suc a) b h k =
    omega (arith, rounds_enough n m (suc a / 2) (b / 2) (omega arith) (omega arith))

lowest_digit : (a b : ℕ) → bit_or a b ≡ bit_or (a / 2) (b / 2) * 2 + max (a % 2) (b % 2)
lowest_digit zero b = omega (arith, bit_or-bitwise 0 b, bit_or-bitwise 0 (b / 2))
lowest_digit (suc a) b = omega (
  arith,
  bit_or-bitwise (suc a) b,
  bit_or-bitwise (suc a / 2) (b / 2),
  rounds_enough a (suc a / 2) (suc a / 2) (b / 2) (omega arith) (omega arith),
)

-- Binary digit `k` of a number, the lowest being 0.
abbrev pub digit : ℕ → ℕ → ℕ
digit zero a = a % 2
digit (suc k) a = digit k (a / 2)

half-bit_or : (a b : ℕ) → bit_or a b / 2 ≡ bit_or (a / 2) (b / 2)
half-bit_or a b = omega (arith, lowest_digit a b)

pub digit-bit_or : (k a b : ℕ) → digit k (bit_or a b) ≡ max (digit k a) (digit k b)
digit-bit_or zero a b = omega (arith, lowest_digit a b)
digit-bit_or (suc k) a b = rw (half-bit_or a b) (digit-bit_or k (a / 2) (b / 2))

-- `|` of two numbers of `n` digits has at most `n` digits.
pub bit_or-lt : (n a b : ℕ) → a < 2 ^ n → b < 2 ^ n → bit_or a b < 2 ^ n
bit_or-lt zero zero b h k = omega (arith, bit_or-bitwise 0 b)
bit_or-lt zero (suc a) b h k = absurd (omega arith)
bit_or-lt (suc n) a b h k = omega (
  arith,
  lowest_digit a b,
  bit_or-lt n (a / 2) (b / 2) (omega (arith, pow-suc 2 n)) (omega (arith, pow-suc 2 n)),
  pow-suc 2 n,
)

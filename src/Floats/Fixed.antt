-- ===== src/Floats/Fixed.antt =====
-- Thousandths as integers: operations that meet the laws of `FloatOps`.
use scrape_grid.Prelude.{ℕ, suc, ◌*◌, ◌/◌, ◌≤◌, ◌<◌, ◌≡◌, true, false, arith}
use scrape_grid.Floats.{FloatOps}
use scrape_grid.Prelude.Int.{ℤ, pos, negsuc, ◌+ℤ◌, ◌-ℤ◌, leb_ℤ, +ℤ_parts, -ℤ_parts}

unfoldable pub mul : ℤ → ℤ → ℤ
mul (pos a) (pos b) = pos (a * b / 1000)
mul (pos a) (negsuc b) = negsuc (a * suc b / 1000)
mul (negsuc a) (pos b) = negsuc (suc a * b / 1000)
mul (negsuc a) (negsuc b) = pos (suc a * suc b / 1000)

unfoldable pub div : ℤ → ℤ → ℤ
div (pos a) (pos b) = pos (a * 1000 / b)
div (pos a) (negsuc b) = negsuc (a * 1000 / suc b)
div (negsuc a) (pos b) = negsuc (suc a * 1000 / b)
div (negsuc a) (negsuc b) = pos (suc a * 1000 / suc b)

mul_le_mul : (a b c : ℕ) → a ≤ b → a * c ≤ b * c
mul_le_mul a b c h = grind arith

pub mul_nonneg :
    (a b : ℤ) → leb_ℤ (pos 0) a ≡ true → leb_ℤ (pos 0) b ≡ true → leb_ℤ (pos 0) (mul a b) ≡ true
unfolding mul
mul_nonneg (pos a) (pos b) h k = ground arith
mul_nonneg (pos a) (negsuc b) h k = ground arith
mul_nonneg (negsuc a) b h k = ground arith

pub mul_mono :
    (a b c : ℤ)
    → leb_ℤ (pos 0) a ≡ true
    → leb_ℤ a b ≡ true
    → leb_ℤ (pos 0) c ≡ true
    → leb_ℤ (mul a c) (mul b c) ≡ true
unfolding mul
mul_mono (pos a) (pos b) (pos c) h k l = ground (arith, mul_le_mul a b c)
mul_mono (pos a) (pos b) (negsuc c) h k l = ground arith
mul_mono (pos a) (negsuc b) c h k l = ground arith
mul_mono (negsuc a) b c h k l = ground arith

pub div_nonneg :
    (a b : ℤ) → leb_ℤ (pos 0) a ≡ true → leb_ℤ b (pos 0) ≡ false → leb_ℤ (pos 0) (div a b) ≡ true
unfolding div
div_nonneg (pos a) (pos b) h k = ground arith
div_nonneg (pos a) (negsuc b) h k = ground arith
div_nonneg (negsuc a) b h k = ground arith

pub of_ℕ_pos : (n : ℕ) → 0 < n → leb_ℤ (pos (n * 1000)) (pos 0) ≡ false
of_ℕ_pos n h = ground arith

pub le_refl : (a : ℤ) → leb_ℤ a a ≡ true
le_refl a = ground arith

pub le_trans : (a b c : ℤ) → leb_ℤ a b ≡ true → leb_ℤ b c ≡ true → leb_ℤ a c ≡ true
le_trans a b c h k = ground arith

pub le_total : (a b : ℤ) → leb_ℤ a b ≡ false → leb_ℤ b a ≡ true
le_total a b h = ground arith

pub of_ℕ_mono : (n m : ℕ) → n ≤ m → leb_ℤ (pos (n * 1000)) (pos (m * 1000)) ≡ true
of_ℕ_mono n m h = ground arith

pub pos_nonneg : (n : ℕ) → leb_ℤ (pos 0) (pos n) ≡ true
pos_nonneg n = ground arith

pub le-add_right : (a b : ℤ) → leb_ℤ (pos 0) b ≡ true → leb_ℤ a (a +ℤ b) ≡ true
le-add_right a b h = ground (arith, +ℤ_parts a b)

pub sub_nonneg : (a b : ℤ) → leb_ℤ b a ≡ true → leb_ℤ (pos 0) (a -ℤ b) ≡ true
sub_nonneg a b h = ground (arith, -ℤ_parts a b)

pub sub-le : (a b : ℤ) → leb_ℤ (pos 0) b ≡ true → leb_ℤ (a -ℤ b) a ≡ true
sub-le a b h = ground (arith, -ℤ_parts a b)

abbrev pub fixed : FloatOps
fixed = record {
  Float = ℤ;
  zero = pos 0;
  of_ℕ = λ n. pos (n * 1000);
  literal = λ n d. pos (n * 1000 / d);
  add = ◌+ℤ◌;
  sub = ◌-ℤ◌;
  mul = mul;
  div = div;
  le = leb_ℤ;
  le_refl = le_refl;
  le_trans = le_trans;
  le_total = le_total;
  of_ℕ_nonneg = λ n. pos_nonneg (n * 1000);
  of_ℕ_pos = of_ℕ_pos;
  of_ℕ_mono = of_ℕ_mono;
  literal_nonneg = λ n d. pos_nonneg (n * 1000 / d);
  le-add_right = le-add_right;
  sub_nonneg = sub_nonneg;
  sub-le = sub-le;
  mul_nonneg = mul_nonneg;
  div_nonneg = div_nonneg;
  mul_mono = mul_mono;
}

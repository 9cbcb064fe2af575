-- ===== src/BloomFilter/Bytes.antt =====
-- The bit array: single bits, what setting one changes, and that bytes stay bytes.
use Prim.Native.Nat.{bit_or}
use native.Mathlib.Decide.{ℕ_discrete}
use scrape_grid.Prelude.{
  ℕ, zero, suc, ◌/◌, ◌%◌, ◌^◌, ◌≤◌, ◌<◌, ◌≡◌, refl, sym, subst, ◌≢◌, Bool, true, false, ◌&&◌, ◌||◌,
  List, arith, ltb, ◌==◌, if◌then◌else◌, ltb→lt, &&-eq-true, ==_iff, length, length-set, replicate,
  get_or, set, get_elem?-some, get_or_lem, get_or-set_self, get_or-set_ne,
}
use scrape_grid.Result.{ok}
use scrape_grid.BloomFilter.{test, set_bit}
use scrape_grid.BloomFilter.Bits.{digit, digit-bit_or, bit_or-lt}

-- Over a small range, every value is checked by evaluation.
all_below : ℕ → (ℕ → Bool) → Bool
all_below zero test_of = true
all_below (suc n) test_of = all_below n test_of && test_of n

below-true : (test_of : ℕ → Bool) (n i : ℕ) → i < n → all_below n test_of ≡ true → test_of i ≡ true
unfolding all_below
below-true test_of zero i inside table = absurd (omega arith)
below-true test_of (suc n) i inside table =
    let (earlier, last) = &&-eq-true (all_below n test_of) (test_of n) table in
    elim (ℕ_discrete i n) [
      | yes same ↦ subst (λ j. test_of j ≡ true) (sym same) last
      | no ne ↦ below-true test_of n i (omega arith) earlier
    ]

eqb : Bool → Bool → Bool
eqb true b = b
eqb false true = false
eqb false false = true

eqb_eq : (a b : Bool) → eqb a b ≡ true → a ≡ b
unfolding eqb
eqb_eq true b h = sym h
eqb_eq false true h = cc
eqb_eq false false h = refl

-- Testing a bit of a byte reads its binary digit.
digits_agree : ℕ → ℕ → Bool
unfolding eqb
digits_agree a k = eqb (test a k) (digit k a == 1)

test_table : all_below 256 (λ a. all_below 8 (λ k. digits_agree a k)) ≡ true
unfolding all_below digits_agree
test_table = refl

test-digit : (a k : ℕ) → a < 256 → k < 8 → test a k ≡ (digit k a == 1)
unfolding digits_agree
test-digit a k h l = eqb_eq _ _ (
    below-true (λ k. digits_agree a k) 8 k l
      (below-true (λ a. all_below 8 (λ k. digits_agree a k)) 256 a h test_table))

-- `1 << j` has just the digit `j`.
one_bit_table :
    all_below 8 (λ j. all_below 8 (λ k. digit k (2 ^ j) == (if j == k then 1 else 0))) ≡ true
unfolding all_below
one_bit_table = refl

digit-one_bit : (j k : ℕ) → j < 8 → k < 8 → digit k (2 ^ j) ≡ (if j == k then 1 else 0)
digit-one_bit j k h l = (==_iff _ _).0 (
    below-true (λ k. digit k (2 ^ j) == (if j == k then 1 else 0)) 8 k l
      (below-true (λ j. all_below 8 (λ k. digit k (2 ^ j) == (if j == k then 1 else 0))) 8 j h
        one_bit_table))

digit-le : (k a : ℕ) → digit k a ≤ 1
digit-le zero a = omega arith
digit-le (suc k) a = digit-le k (a / 2)

pow_table : all_below 8 (λ j. ltb (2 ^ j) 256) ≡ true
unfolding all_below
pow_table = refl

pow_lt : (j : ℕ) → j < 8 → 2 ^ j < 256
pow_lt j h = ltb→lt _ _ (below-true (λ j. ltb (2 ^ j) 256) 8 j h pow_table)

pub test-bit_or :
    (a b k : ℕ) → a < 256 → b < 256 → k < 8 → test (bit_or a b) k ≡ (test a k || test b k)
test-bit_or a b k h l m =
    rw
      (
        test-digit (bit_or a b) k (bit_or-lt 8 a b h l) m,
        test-digit a k h m,
        test-digit b k l m,
        digit-bit_or k a b,
      )
      (ground (arith, digit-le k a, digit-le k b))

one_bit_or : (x y : Bool) → (x || ((if y then 1 else 0) == 1)) ≡ (y || x)
one_bit_or true true = refl
one_bit_or true false = refl
one_bit_or false true = refl
one_bit_or false false = refl

test-set :
    (a j k : ℕ) → a < 256 → j < 8 → k < 8 → test (bit_or a (2 ^ j)) k ≡ ((j == k) || test a k)
test-set a j k h l m =
    rw
      (
        test-bit_or a (2 ^ j) k h (pow_lt j l) m,
        test-digit (2 ^ j) k (pow_lt j l) m,
        digit-one_bit j k l m,
      )
      (one_bit_or (test a k) (j == k))

-- Bit `pos` of the array.
abbrev pub has_bit : List ℕ → ℕ → Bool
has_bit bits pos = test (get_or bits (pos / 8) 0) (pos % 8)

abbrev pub AreBytes : List ℕ → Type 0
AreBytes bits = (i : ℕ) → get_or bits i 0 < 256

blank : (n i : ℕ) → get_or {A = ℕ} (replicate n 0) i 0 ≡ 0
blank zero i = refl
blank (suc n) zero = refl
blank (suc n) (suc i) = blank n i

digit-zero : (k : ℕ) → digit k 0 ≡ 0
digit-zero zero = refl
digit-zero (suc k) = digit-zero k

pub has_bit-blank : (n q : ℕ) → has_bit (replicate n 0) q ≡ false
has_bit-blank n q =
    rw (blank n (q / 8), test-digit 0 (q % 8) (omega arith) (omega arith), digit-zero (q % 8)) refl

pub AreBytes-blank : (n : ℕ) → AreBytes (replicate n 0)
AreBytes-blank n i = rw (blank n i) (omega arith)

same_bit : (p q : ℕ) → p / 8 ≡ q / 8 → ((p % 8) == (q % 8)) ≡ (p == q)
same_bit p q h = ground arith

other_bit : (p q : ℕ) → p / 8 ≢ q / 8 → (p == q) ≡ false
other_bit p q h = ground arith

module _ (bits : List ℕ) (pos b : ℕ) (bytes : AreBytes bits) (inside : pos / 8 < length bits)
    (at : get_or bits (pos / 8) 0 ≡ b) where
  abbrev written : List ℕ
  written = set bits (pos / 8) (bit_or b (2 ^ (pos % 8)))

  low : pos % 8 < 8
  low = omega arith

  byte : b < 256
  byte = rw (← at) (bytes (pos / 8))

  written-AreBytes : AreBytes written
  written-AreBytes i = elim (ℕ_discrete (pos / 8) i) [
    | yes same ↦
        subst (λ j. get_or written j 0 < 256) same
          (rw (get_or-set_self bits (pos / 8) (bit_or b (2 ^ (pos % 8))) 0 inside)
            (bit_or-lt 8 b (2 ^ (pos % 8)) byte (pow_lt (pos % 8) low)))
    | no ne ↦ rw (get_or-set_ne bits (pos / 8) i (bit_or b (2 ^ (pos % 8))) 0 ne) (bytes i)
  ]

  written-has_bit : (q : ℕ) → has_bit written q ≡ ((pos == q) || has_bit bits q)
  written-has_bit q = elim (ℕ_discrete (pos / 8) (q / 8)) [
    | yes same ↦
        let hit : get_or written (q / 8) 0 ≡ bit_or b (2 ^ (pos % 8)) =
          subst (λ j. get_or written j 0 ≡ bit_or b (2 ^ (pos % 8))) same
            (get_or-set_self bits (pos / 8) (bit_or b (2 ^ (pos % 8))) 0 inside) in
        let held : get_or bits (q / 8) 0 ≡ b = subst (λ j. get_or bits j 0 ≡ b) same at in
        rw (hit, held, test-set b (pos % 8) (q % 8) byte low (omega arith), same_bit pos q same)
          refl
    | no ne ↦
        rw
          (get_or-set_ne bits (pos / 8) (q / 8) (bit_or b (2 ^ (pos % 8))) 0 ne, other_bit pos q ne)
          refl
  ]

-- Setting a bit inside the array sets that bit and no other, and the array stays one of bytes.
pub set_bit_lem :
    (bits : List ℕ) (pos : ℕ)
    → AreBytes bits
    → pos / 8 < length bits
    → (bits' : List ℕ) × (set_bit bits pos ≡ ok bits')
      × (length bits' ≡ length bits)
      × AreBytes bits'
      × ((q : ℕ) → has_bit bits' q ≡ ((pos == q) || has_bit bits q))
unfolding set_bit
set_bit_lem bits pos bytes inside =
    let (b, e) = get_elem?-some bits (pos / 8) inside in
    let at = get_or_lem bits (pos / 8) 0 b e in
    (
      set bits (pos / 8) (bit_or b (2 ^ (pos % 8))),
      ground arith,
      length-set bits (pos / 8) (bit_or b (2 ^ (pos % 8))),
      written-AreBytes bits pos b bytes inside at,
      written-has_bit bits pos b bytes inside at,
    )

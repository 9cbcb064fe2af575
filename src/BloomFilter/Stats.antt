-- ===== src/BloomFilter/Stats.antt =====
-- `fill_ratio` and `stats` of `BloomFilter`; `round_4` is `round(_, 4)`.
use scrape_grid.Prelude.{ℕ, zero, suc, ◌+◌, ◌/◌, ◌%◌, List, [], ◌∷◌, ◌==◌, if◌then◌else◌}
use scrape_grid.Result.{Result, ok, err, ◌>>=◌, zero_division_error}
use scrape_grid.Floats.{FloatOps}
use scrape_grid.BloomFilter.{BloomFilter}

-- `bin(b).count("1")`, with as many digits at most as the number has units.
unfoldable pub ones : (digits b : ℕ) → ℕ
ones zero b = 0
ones (suc digits) b = b % 2 + ones digits (b / 2)

unfoldable pub ones_of : List ℕ → ℕ
unfolding ones
ones_of [] = 0
ones_of (b ∷ bits) = ones b b + ones_of bits

module _ (fl : FloatOps) where
  open fl use {Float, of_ℕ, div}

  unfoldable pub fill_ratio : BloomFilter Float → Result Float
  unfolding ones_of
  fill_ratio f =
      if f.bit_size == 0
      then err zero_division_error
      else ok (div (of_ℕ (ones_of f.bits)) (of_ℕ f.bit_size))

  pub record Stats : Type 0 where
    pub capacity : ℕ
    pub items_added : ℕ
    pub duplicates_caught : ℕ
    pub bit_size : ℕ
    pub hash_functions : ℕ
    pub target_fp_rate : Float
    pub fill_ratio : Float

  unfoldable pub stats : (round_4 : Float → Float) → BloomFilter Float → Result Stats
  unfolding fill_ratio
  stats round_4 f = do
    filled ← fill_ratio f
    ok (record {
      capacity = f.capacity;
      items_added = f.item_count;
      duplicates_caught = f.duplicates_caught;
      bit_size = f.bit_size;
      hash_functions = f.hash_count;
      target_fp_rate = f.fp_rate;
      fill_ratio = round_4 filled;
    })

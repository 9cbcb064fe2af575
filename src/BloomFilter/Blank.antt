-- ===== src/BloomFilter/Blank.antt =====
-- The filter that `__init__` makes.
use scrape_grid.Prelude.{
  ℕ, zero, suc, ◌+◌, ◌/◌, ◌<◌, max, ◌≡◌, refl, ◌∙◌, false, List, arith, ==_ne, length-replicate,
  replicate,
}
use scrape_grid.Result.{ok}
use scrape_grid.Text.{Text}
use scrape_grid.BloomFilter.{BloomFilter, init, contains_from, contains}
use scrape_grid.BloomFilter.Bytes.{has_bit-blank, AreBytes-blank}
use scrape_grid.BloomFilter.Membership.{IsValid, contains_step, spot}

unset :
    (md5 : Text → List ℕ) (item : Text) (m : ℕ) (sized : 0 < m) (n count : ℕ)
    → n ≡ m / 8 + 1
    → 0 < count
    → contains_from md5 item m 0 count (replicate n 0) ≡ ok false
unset md5 item m sized n zero stored h = absurd (omega arith)
unset md5 item m sized n (suc count) stored h =
    rw
      (
        contains_step md5 item m sized (replicate n 0) (length-replicate n 0 ∙ stored) 0 count,
        has_bit-blank n (spot md5 item m sized 0),
      )
      refl

-- For a positive capacity and a positive bit count a filter is made, it is valid, and nothing is
-- found in it.
pub init_lem :
    {F : Type 0} (size : ℕ → F → ℕ) (rounds : ℕ → ℕ → ℕ) (capacity : ℕ) (fp_rate : F)
    → 0 < capacity
    → 0 < size capacity fp_rate
    → (f : BloomFilter F) × (init size rounds capacity fp_rate ≡ ok f)
      × IsValid f
      × ((md5 : Text → List ℕ) (item : Text) → contains md5 f item ≡ ok false)
unfolding init contains
init_lem size rounds capacity fp_rate positive sized =
    let m = size capacity fp_rate in
    (
      record {
        capacity = capacity;
        fp_rate = fp_rate;
        bit_size = m;
        hash_count = max 1 (rounds m capacity);
        bits = replicate (m / 8 + 1) 0;
        item_count = 0;
        duplicates_caught = 0;
      },
      rw (==_ne capacity 0 (λ e. omega arith)) refl,
      record {
        sized = sized;
        stored = length-replicate (m / 8 + 1) 0;
        bytes = AreBytes-blank (m / 8 + 1);
      },
      (λ md5 item.
          unset md5 item m sized (m / 8 + 1) (max 1 (rounds m capacity)) refl (omega arith)),
    )

-- ===== src/BloomFilter.antt =====
-- algorithms/bloom_filter.py: `BloomFilter`. `md5` stands for `hashlib.md5(…).digest()` on the
-- encoding of a text; `size` and `rounds` stand for the two `int(…)` expressions of `__init__` over
-- `math.log`, which give the bit count and the count of hash functions. A method that raises gives
-- the error alone: `_hash_at` raises before the first write, and no other error is reachable.
pub mod Bits
pub mod Bytes
pub mod Membership
pub mod Merge
pub mod Blank
pub mod Stats
mod Examples
use scrape_grid.Prelude.{
  take, ℕ, zero, suc, ◌+◌, ◌*◌, ◌/◌, ◌%◌, ◌^◌, max, Bool, true, false, Option, none, some, List, [],
  ◌∷◌, ◌++◌, ltb, ◌==◌, if◌then◌else◌, get_elem?, set, replicate,
}
use Prim.Native.Nat.{bit_and, bit_or}
use scrape_grid.Result.{Result, ok, err, index_error, zero_division_error, assertion_error, ◌>>=◌}
use scrape_grid.Text.{Text, decimal}

pub record BloomFilter (F : Type 0) : Type 0 where
  pub capacity : ℕ
  pub fp_rate : F
  pub bit_size : ℕ
  pub hash_count : ℕ
  pub bits : List ℕ
  pub item_count : ℕ
  pub duplicates_caught : ℕ

unfoldable pub init :
    {F : Type 0} (size : ℕ → F → ℕ) (rounds : ℕ → ℕ → ℕ) → ℕ → F → Result (BloomFilter F)
init size rounds capacity fp_rate =
    let m = size capacity fp_rate in
    if capacity == 0
    then err zero_division_error
    else ok (record {
      capacity = capacity;
      fp_rate = fp_rate;
      bit_size = m;
      hash_count = max 1 (rounds m capacity);
      bits = replicate (m / 8 + 1) 0;
      item_count = 0;
      duplicates_caught = 0;
    })

-- `int.from_bytes(raw, "big")`
unfoldable pub from_bytes : ℕ → List ℕ → ℕ
from_bytes acc [] = acc
from_bytes acc (b ∷ bs) = from_bytes (acc * 256 + b) bs

-- `xs[i]`
unfoldable pub read : List ℕ → ℕ → Result ℕ
read bits i = elim (get_elem? bits i) [ none ↦ err index_error | some b ↦ ok b ]

-- `bits[pos >> 3] |= 1 << (pos & 7)`
unfoldable pub set_bit : List ℕ → ℕ → Result (List ℕ)
unfolding read
set_bit bits pos = do b ← read bits (pos / 8); ok (set bits (pos / 8) (bit_or b (2 ^ (pos % 8))))

-- The truth of `byte & (1 << k)`.
abbrev pub test : ℕ → ℕ → Bool
test byte k = ltb 0 (bit_and byte (2 ^ k))

-- `self.bits[i] |= other.bits[i]` for each index of `self.bits`.
unfoldable pub or_all : List ℕ → List ℕ → Result (List ℕ)
or_all [] other = ok []
or_all (x ∷ xs) [] = err index_error
or_all (x ∷ xs) (y ∷ ys) = do rest ← or_all xs ys; ok (bit_or x y ∷ rest)

unfoldable pub merge : {F : Type 0} → BloomFilter F → BloomFilter F → Result (BloomFilter F)
merge f other =
    if f.bit_size == other.bit_size
    then (do bits ← or_all f.bits other.bits; ok (record f { bits = bits }))
    else err assertion_error

module _ (md5 : Text → List ℕ) where
  -- The hash of `_hash_at` before it is reduced to the bit count.
  unfoldable pub raw_hash : Text → ℕ → ℕ
  unfolding from_bytes
  raw_hash item seed = from_bytes 0 (take 8 (md5 (decimal seed ++ b':' ∷ item)))

  unfoldable pub hash_at : Text → (seed bit_size : ℕ) → Result ℕ
  hash_at item seed bit_size =
      if bit_size == 0 then err zero_division_error else ok (raw_hash item seed % bit_size)

  -- The loop of `add` from `seed` on, `left` rounds to go.
  unfoldable pub add_from : Text → (bit_size seed left : ℕ) → List ℕ → Result (List ℕ)
  unfolding hash_at set_bit
  add_from item bit_size seed zero bits = ok bits
  add_from item bit_size seed (suc left) bits = do
    pos ← hash_at item seed bit_size
    bits' ← set_bit bits pos
    add_from item bit_size (seed + 1) left bits'

  unfoldable pub add : {F : Type 0} → BloomFilter F → Text → Result (BloomFilter F)
  unfolding add_from
  add f item = do
    bits ← add_from item f.bit_size 0 f.hash_count f.bits
    ok (record f { bits = bits; item_count = f.item_count + 1 })

  -- The `all(…)` of `__contains__` from `seed` on.
  unfoldable pub contains_from : Text → (bit_size seed left : ℕ) → List ℕ → Result Bool
  unfolding hash_at read
  contains_from item bit_size seed zero bits = ok true
  contains_from item bit_size seed (suc left) bits =
      let rest = contains_from item bit_size (seed + 1) left bits in
      do
        pos ← hash_at item seed bit_size
        b ← read bits (pos / 8)
        if test b (pos % 8) then rest else ok false

  unfoldable pub contains : {F : Type 0} → BloomFilter F → Text → Result Bool
  unfolding contains_from
  contains f item = contains_from item f.bit_size 0 f.hash_count f.bits

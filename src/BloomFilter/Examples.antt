-- ===== src/BloomFilter/Examples.antt =====
-- A filter of 20 bits and three hashes; a stand-in for the digest has eight bytes that the text sets.
use scrape_grid.Prelude.{
  ℕ, ◌+◌, ◌*◌, ◌%◌, ◌/◌, ◌≡◌, refl, sym, ap, subst, inr, ◌<◌, ◌++◌, ◌||◌, length-replicate, true,
  false, List, [], ◌∷◌, arith, replicate,
}
use scrape_grid.Result.{ok, err, ◌>>=◌}
use scrape_grid.Text.{Text}
use scrape_grid.BloomFilter.{BloomFilter, init, add, contains, merge}
use scrape_grid.BloomFilter.Bytes.{has_bit, AreBytes-blank}
use scrape_grid.BloomFilter.Membership.{IsValid, add-contains, add-keeps}
use scrape_grid.BloomFilter.Merge.{merge_lem, merge-contains}

abbrev total : List ℕ → ℕ
total [] = 0
total (b ∷ bs) = b + 3 * total bs

abbrev digest : Text → List ℕ
digest t = replicate 7 0 ++ (total t % 256 ∷ replicate 8 9)

abbrev sized : ℕ → BloomFilter ℕ
sized m = record {
  capacity = 5;
  fp_rate = 1;
  bit_size = m;
  hash_count = 3;
  bits = replicate (m / 8 + 1) 0;
  item_count = 0;
  duplicates_caught = 0;
}

sized-IsValid : (m : ℕ) → 0 < m → IsValid (sized m)
sized-IsValid m h = record {
  sized = h;
  stored = length-replicate (m / 8 + 1) 0;
  bytes = AreBytes-blank (m / 8 + 1);
}

abbrev apple : Text
apple = b'a' ∷ b'p' ∷ []

abbrev pear : Text
pear = b'p' ∷ b'r' ∷ []

operations : Unit {0}
unfolding init add contains merge
operations = tt

added : (add digest (sized 20) apple >>= λ f. contains digest f apple) ≡ ok true
unfolding operations scrape_grid.BloomFilter.raw_hash scrape_grid.Text.decimal
added = refl

not_added : (add digest (sized 20) apple >>= λ f. contains digest f pear) ≡ ok false
unfolding operations scrape_grid.BloomFilter.raw_hash scrape_grid.Text.decimal
not_added = refl

abbrev with_apple : BloomFilter ℕ
with_apple = elim (add digest (sized 20) apple) [ ok f ↦ f | err e ↦ sized 20 ]

with_apple-IsValid : IsValid with_apple
with_apple-IsValid =
    let (f, e, valid, c) = add-contains digest (sized 20) (sized-IsValid 20 (omega arith)) apple in
    subst IsValid (sym (ap (λ r. elim r [ ok g ↦ g | err b ↦ sized 20 ]) e)) valid

add-contains_example :
    (f : BloomFilter ℕ) × (add digest with_apple pear ≡ ok f)
    × IsValid f
    × (contains digest f pear ≡ ok true)
add-contains_example = add-contains digest with_apple with_apple-IsValid pear

add-keeps_example : (add digest with_apple pear >>= λ f. contains digest f apple) ≡ ok true
unfolding operations scrape_grid.BloomFilter.raw_hash scrape_grid.Text.decimal
add-keeps_example = add-keeps digest with_apple with_apple-IsValid pear apple refl

merge_lem_example :
    (f : BloomFilter ℕ) × (merge with_apple (sized 20) ≡ ok f)
    × IsValid f
    × (f.bit_size ≡ 20)
    × (f.hash_count ≡ 3)
    × ((q : ℕ) → has_bit f.bits q ≡ (has_bit with_apple.bits q || has_bit (sized 20).bits q))
unfolding operations scrape_grid.BloomFilter.raw_hash scrape_grid.Text.decimal
merge_lem_example =
    merge_lem with_apple (sized 20) with_apple-IsValid (sized-IsValid 20 (omega arith)) refl

merge-contains_example : (merge (sized 20) with_apple >>= λ f. contains digest f apple) ≡ ok true
unfolding operations scrape_grid.BloomFilter.raw_hash scrape_grid.Text.decimal
merge-contains_example =
    merge-contains (sized 20) with_apple (sized-IsValid 20 (omega arith)) with_apple-IsValid refl
      digest apple refl (inr refl)

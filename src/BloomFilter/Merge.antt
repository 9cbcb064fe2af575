-- ===== src/BloomFilter/Merge.antt =====
-- Merging: the union of the bits of two filters of one size.
use Prim.Native.Nat.{bit_or}
use scrape_grid.Prelude.{
  ℕ, zero, suc, ◌+◌, ◌/◌, ◌%◌, ◌≡◌, refl, sym, ◌∙◌, ap, ◌⊎◌, inl, inr, true, ◌||◌, List, [], ◌∷◌,
  arith, ==_refl, length, get_or,
}
use scrape_grid.Result.{ok, ◌>>=◌}
use scrape_grid.Text.{Text}
use scrape_grid.BloomFilter.{BloomFilter, or_all, merge, contains}
use scrape_grid.BloomFilter.Bits.{bit_or-lt}
use scrape_grid.BloomFilter.Bytes.{test-bit_or, has_bit}
use scrape_grid.BloomFilter.Membership.{IsValid, contains_mono, or_left, or_right}

or_all_lem :
    (xs ys : List ℕ)
    → length xs ≡ length ys
    → (zs : List ℕ) × (or_all xs ys ≡ ok zs)
      × (length zs ≡ length xs)
      × ((i : ℕ) → get_or zs i 0 ≡ bit_or (get_or xs i 0) (get_or ys i 0))
unfolding or_all
or_all_lem [] [] h = ([], refl, refl, λ i. refl)
or_all_lem [] (y ∷ ys) h = absurd (omega arith)
or_all_lem (x ∷ xs) [] h = absurd (omega arith)
or_all_lem (x ∷ xs) (y ∷ ys) h =
    let (zs, e, size, at) = or_all_lem xs ys (omega arith) in
    (
      bit_or x y ∷ zs,
      rw e refl,
      ap suc size,
      λ i.
          elim i
            as (λ j.
              get_or (bit_or x y ∷ zs) j 0 ≡ bit_or (get_or (x ∷ xs) j 0) (get_or (y ∷ ys) j 0)) [
                | zero ↦ refl
                | suc j ↦ at j
              ],
    )

module _ {F : Type 0} (f other : BloomFilter F) (valid : IsValid f) (other_valid : IsValid other)
    (same : f.bit_size ≡ other.bit_size) where
  merged :
      (bits : List ℕ)
      → or_all f.bits other.bits ≡ ok bits
      → merge f other ≡ ok (record f { bits = bits })
  unfolding merge
  merged bits e = rw (← same, ==_refl f.bit_size, e) refl

  -- Merging two valid filters of one bit count succeeds, leaves a valid filter of the same counts,
  -- and its bits are just those of the one and of the other.
  pub merge_lem :
      (f' : BloomFilter F) × (merge f other ≡ ok f')
      × IsValid f'
      × (f'.bit_size ≡ f.bit_size)
      × (f'.hash_count ≡ f.hash_count)
      × ((q : ℕ) → has_bit f'.bits q ≡ (has_bit f.bits q || has_bit other.bits q))
  unfolding merge
  merge_lem =
      let (bits, e, size, at) =
        or_all_lem f.bits other.bits
          (valid.stored ∙ ap (λ m. m / 8 + 1) same ∙ sym other_valid.stored) in
      (
        record f { bits = bits },
        merged bits e,
        record {
          sized = valid.sized;
          stored = size ∙ valid.stored;
          bytes = λ i. rw (at i) (bit_or-lt 8 _ _ (valid.bytes i) (other_valid.bytes i));
        },
        refl,
        refl,
        λ q. rw (at (q / 8)) (
            test-bit_or _ _ (q % 8) (valid.bytes (q / 8)) (other_valid.bytes (q / 8))
              (omega arith)),
      )

  -- For two valid filters of one bit count and one count of hashes: an item that is found in either
  -- is found in the merged one.
  pub merge-contains :
      (md5 : Text → List ℕ) (item : Text)
      → f.hash_count ≡ other.hash_count
      → (contains md5 f item ≡ ok true) ⊎ (contains md5 other item ≡ ok true)
      → (merge f other >>= λ f'. contains md5 f' item) ≡ ok true
  merge-contains md5 item hashes found =
      let (g, e, g_valid, size, count, at) = merge_lem in
      rw e (elim found [
        | inl h ↦
            contains_mono md5 item f g valid g_valid (sym size) (sym count)
              (λ q b. or_left _ (at q) b) h
        | inr h ↦
            contains_mono md5 item other g other_valid g_valid (sym same ∙ sym size)
              (sym hashes ∙ sym count) (λ q b. or_right _ (at q) b) h
      ])

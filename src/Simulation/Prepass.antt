-- ===== src/Simulation/Prepass.antt =====
-- The pre-pass of `SimulationEngine.__init__` in simulation.py, which drops from the pool what the
-- Bloom filter has seen.
use scrape_grid.Prelude.{
  ℕ, ◌+◌, ◌≡◌, ◌≢◌, refl, sym, ◌∙◌, ap, subst, true, false, Bool, List, [], ◌∷◌, ◌++◌, arith,
  length, length-append, All,
}
use scrape_grid.Result.{Result, ok, ◌>>=◌}
use scrape_grid.Text.{Text}
use scrape_grid.BloomFilter.{BloomFilter, add, contains}
use scrape_grid.BloomFilter.Membership.{
  IsValid, add-contains, add-keeps, add-counts, contains-answers,
}

-- The filter, and `filtered`.
abbrev pub Pool : Type 0 → Type 0
Pool F = BloomFilter F × List Text

module _ (md5 : Text → List ℕ) {F : Type 0} where
  -- The body of the loop, once it is known whether the filter has seen the URL.
  unfoldable pub admit : Pool F → Text → Bool → Result (Pool F)
  unfolding add
  admit (f, filtered) url true =
      ok (record f { duplicates_caught = f.duplicates_caught + 1 }, filtered)
  admit (f, filtered) url false = do f' ← add md5 f url; ok (f', filtered ++ url ∷ [])

  unfoldable pub sift : Pool F → Text → Result (Pool F)
  unfolding contains admit
  sift pool url = do seen ← contains md5 pool.0 url; admit pool url seen

  unfoldable pub prepass : Pool F → List Text → Result (Pool F)
  unfolding sift
  prepass pool [] = ok pool
  prepass pool (url ∷ urls) = do pool' ← sift pool url; prepass pool' urls

abbrev pub Distinct : List Text → Type 0
Distinct [] = Unit {0}
Distinct (x ∷ xs) = All (λ y. x ≢ y) xs × Distinct xs

All-append : (P : Text → Type 0) (xs : List Text) (y : Text) → All P xs → P y → All P (xs ++ y ∷ [])
All-append P [] y a p = (p, tt)
All-append P (x ∷ xs) y (q, a) p = (q, All-append P xs y a p)

ok_differ : ok true ≢ ok false
ok_differ e = cc

Distinct-append :
    (xs : List Text) (y : Text) → All (λ x. x ≢ y) xs → Distinct xs → Distinct (xs ++ y ∷ [])
Distinct-append [] y a d = (tt, tt)
Distinct-append (x ∷ xs) y (p, a) (q, d) =
    (All-append (λ z. x ≢ z) xs y q p, Distinct-append xs y a d)

module _ (md5 : Text → List ℕ) {F : Type 0} where
  -- The URLs kept so far are in the filter, each of them once in the list.
  pub record IsSifted (pool : Pool F) : Type 0 where
    pub valid : IsValid pool.0
    pub found : All (λ u. contains md5 pool.0 u ≡ ok true) pool.1
    pub distinct : Distinct pool.1

  unseen :
      (f : BloomFilter F) (url : Text) (xs : List Text)
      → contains md5 f url ≡ ok false
      → All (λ u. contains md5 f u ≡ ok true) xs
      → All (λ x. x ≢ url) xs
  unseen f url [] h a = tt
  unseen f url (x ∷ xs) h (p, a) =
      ((λ e. ok_differ (sym p ∙ ap (contains md5 f) e ∙ h)), unseen f url xs h a)

  kept_found :
      (f f' : BloomFilter F) (valid : IsValid f) (url : Text) (xs : List Text)
      → add md5 f url ≡ ok f'
      → All (λ u. contains md5 f u ≡ ok true) xs
      → All (λ u. contains md5 f' u ≡ ok true) xs
  kept_found f f' valid url [] e a = tt
  kept_found f f' valid url (x ∷ xs) e (p, a) = (
    subst (λ r. (r >>= λ g. contains md5 g x) ≡ ok true) e (add-keeps md5 f valid url x p),
    kept_found f f' valid url xs e a,
  )

  -- The URLs kept and the duplicates caught.
  abbrev pub total : Pool F → ℕ
  total pool = length pool.1 + pool.0.duplicates_caught

  admit_lem :
      (pool : Pool F) (url : Text) (seen : Bool)
      → IsSifted pool
      → contains md5 pool.0 url ≡ ok seen
      → (pool' : Pool F) × (admit md5 pool url seen ≡ ok pool')
        × IsSifted pool'
        × (total pool' ≡ total pool + 1)
  unfolding admit contains
  admit_lem (f, kept) url true sifted e = (
    (record f { duplicates_caught = f.duplicates_caught + 1 }, kept),
    refl,
    record {
      valid = record {
        sized = sifted.valid.sized;
        stored = sifted.valid.stored;
        bytes = sifted.valid.bytes;
      };
      found = sifted.found;
      distinct = sifted.distinct;
    },
    omega arith,
  )
  admit_lem (f, kept) url false sifted e =
      let (f', added, valid, has) = add-contains md5 f sifted.valid url in
      (
        (f', kept ++ url ∷ []),
        rw added refl,
        record {
          valid = valid;
          found =
              All-append (λ u. contains md5 f' u ≡ ok true) kept url
                (kept_found f f' sifted.valid url kept added sifted.found) has;
          distinct = Distinct-append kept url (unseen f url kept e sifted.found) sifted.distinct;
        },
        omega (arith, length-append kept (url ∷ []), add-counts md5 f sifted.valid url f' added),
      )

  sift_lem :
      (pool : Pool F) (url : Text)
      → IsSifted pool
      → (pool' : Pool F) × (sift md5 pool url ≡ ok pool')
        × IsSifted pool'
        × (total pool' ≡ total pool + 1)
  unfolding sift
  sift_lem pool url sifted =
      let (seen, e) = contains-answers md5 pool.0 sifted.valid url in
      let (pool', f, sifted', one) = admit_lem pool url seen sifted e in
      (pool', ap (λ r. r >>= admit md5 pool url) e ∙ f, sifted', one)

  -- From a valid filter in which every URL kept so far is found, none of them kept twice, the
  -- pre-pass succeeds and ends in such a state again: no URL is kept twice. The kept and the caught
  -- together have grown by the count of the URLs.
  pub prepass_lem :
      (pool : Pool F) (urls : List Text)
      → IsSifted pool
      → (pool' : Pool F) × (prepass md5 pool urls ≡ ok pool')
        × IsSifted pool'
        × (total pool' ≡ total pool + length urls)
  unfolding prepass
  prepass_lem pool [] sifted = (pool, refl, sifted, omega arith)
  prepass_lem pool (url ∷ urls) sifted =
      let (next, e, next_sifted, one) = sift_lem pool url sifted in
      let (last, f, last_sifted, more) = prepass_lem next urls next_sifted in
      (last, ap (λ r. r >>= λ p. prepass md5 p urls) e ∙ f, last_sifted, omega (arith, one, more))

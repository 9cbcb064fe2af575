-- ===== src/BloomFilter/Membership.antt =====
-- What a valid filter finds, before and after an addition.
use scrape_grid.Prelude.{
  ℕ, zero, suc, ◌+◌, ◌/◌, ◌%◌, ◌<◌, ◌≡◌, refl, sym, ◌∙◌, ap, subst, Bool, true, false, ◌||◌, List,
  arith, if◌then◌else◌, ==_refl, length, get_elem?-some, get_or_lem, Bool-cases, inl, inr, get_or,
}
use scrape_grid.Result.{Result, ok, err, ◌>>=◌, >>=-eq-ok}
use scrape_grid.Text.{Text}
use scrape_grid.BloomFilter.{
  BloomFilter, raw_hash, hash_at, read, add_from, add, contains_from, contains,
}
use scrape_grid.BloomFilter.Bytes.{has_bit, AreBytes, set_bit_lem}

-- There is a bit for each hash, and a byte for each bit.
pub record IsValid {F : Type 0} (f : BloomFilter F) : Type 0 where
  pub sized : 0 < f.bit_size
  pub stored : length f.bits ≡ f.bit_size / 8 + 1
  pub bytes : AreBytes f.bits

both_true :
    (b : Bool) (r : Result Bool)
    → (if b then r else ok false) ≡ ok true
    → (b ≡ true) × (r ≡ ok true)
both_true true r h = (refl, h)
both_true false r h = cc

pub or_left : {a c : Bool} (b : Bool) → c ≡ (a || b) → a ≡ true → c ≡ true
or_left b h e = ground arith

pub or_right : {b c : Bool} (a : Bool) → c ≡ (a || b) → b ≡ true → c ≡ true
or_right a h e = ground arith

module _ (md5 : Text → List ℕ) (item : Text) (m : ℕ) (sized : 0 < m) where
  -- The position of hash `seed`.
  abbrev pub spot : ℕ → ℕ
  spot seed = raw_hash md5 item seed % m

  hash_at_lem : (seed : ℕ) → hash_at md5 item seed m ≡ ok (spot seed)
  unfolding hash_at
  hash_at_lem seed = ground arith

  spot_inside : (seed : ℕ) → spot seed / 8 < m / 8 + 1
  spot_inside seed = omega arith

  -- The bits of the hashes from `seed` on are set.
  abbrev pub Covered : List ℕ → (seed left : ℕ) → Type 0
  Covered bits seed zero = Unit {0}
  Covered bits seed (suc left) = (has_bit bits (spot seed) ≡ true) × Covered bits (seed + 1) left

  pub Covered-mono :
      (bits bits' : List ℕ) (seed left : ℕ)
      → ((q : ℕ) → has_bit bits q ≡ true → has_bit bits' q ≡ true)
      → Covered bits seed left
      → Covered bits' seed left
  Covered-mono bits bits' seed zero h c = tt
  Covered-mono bits bits' seed (suc left) h (b, c) =
      (h (spot seed) b, Covered-mono bits bits' (seed + 1) left h c)

  read_lem : (bits : List ℕ) (i : ℕ) → i < length bits → read bits i ≡ ok (get_or bits i 0)
  unfolding read
  read_lem bits i h =
      let (b, e) = get_elem?-some bits i h in ground (arith, get_or_lem bits i 0 b e)

  module _ (bits : List ℕ) (stored : length bits ≡ m / 8 + 1) where
    pub contains_step :
        (seed left : ℕ)
        → contains_from md5 item m seed (suc left) bits ≡ (
            if has_bit bits (spot seed)
            then contains_from md5 item m (seed + 1) left bits
            else ok false)
    unfolding contains_from
    contains_step seed left =
        rw
          (
            hash_at_lem seed,
            read_lem bits (spot seed / 8)
                (subst (λ n. spot seed / 8 < n) (sym stored) (spot_inside seed)),
          )
          refl

    pub contains_from_lem :
        (seed left : ℕ) → Covered bits seed left → contains_from md5 item m seed left bits ≡ ok true
    unfolding contains_from
    contains_from_lem seed zero c = refl
    contains_from_lem seed (suc left) (b, c) =
        rw (contains_step seed left, b) (contains_from_lem (seed + 1) left c)

    -- A lookup in a valid filter always gives an answer.
    pub contains_from-answers :
        (seed left : ℕ) → (b : Bool) × (contains_from md5 item m seed left bits ≡ ok b)
    unfolding contains_from
    contains_from-answers seed zero = (true, refl)
    contains_from-answers seed (suc left) =
        let (b, e) = contains_from-answers (seed + 1) left in
        elim (Bool-cases (has_bit bits (spot seed))) [
          | inl h ↦ (b, contains_step seed left ∙ rw h e)
          | inr h ↦ (false, contains_step seed left ∙ rw h refl)
        ]

    pub covered :
        (seed left : ℕ) → contains_from md5 item m seed left bits ≡ ok true → Covered bits seed left
    unfolding contains_from
    covered seed zero h = tt
    covered seed (suc left) h =
        let (b, rest) = both_true _ _ (sym (contains_step seed left) ∙ h) in
        (b, covered (seed + 1) left rest)

  -- The loop of `add` succeeds, keeps the array one of bytes and its length, and sets the bits of
  -- its hashes and clears none.
  pub add_from_lem :
      (seed left : ℕ) (bits : List ℕ)
      → length bits ≡ m / 8 + 1
      → AreBytes bits
      → (bits' : List ℕ) × (add_from md5 item m seed left bits ≡ ok bits')
        × (length bits' ≡ m / 8 + 1)
        × AreBytes bits'
        × ((q : ℕ) → has_bit bits q ≡ true → has_bit bits' q ≡ true)
        × Covered bits' seed left
  unfolding add_from
  add_from_lem seed zero bits stored bytes = (bits, refl, stored, bytes, λ q h. h, tt)
  add_from_lem seed (suc left) bits stored bytes =
      let inside = subst (λ n. spot seed / 8 < n) (sym stored) (spot_inside seed) in
      let (next, e, kept, next_bytes, at) = set_bit_lem bits (spot seed) bytes inside in
      let (last, f, last_stored, last_bytes, more, c) =
        add_from_lem (seed + 1) left next (kept ∙ stored) next_bytes in
      (
        last,
        rw (hash_at_lem seed, e) f,
        last_stored,
        last_bytes,
        (λ q h. more q (or_right _ (at q) h)),
        (more (spot seed) (or_left _ (at (spot seed)) (==_refl (spot seed))), c),
      )

module _ {F : Type 0} (md5 : Text → List ℕ) (f : BloomFilter F) (valid : IsValid f) where
  -- On a valid filter `add` succeeds and leaves a valid filter in which the item is found.
  pub add-contains :
      (item : Text)
      → (f' : BloomFilter F) × (add md5 f item ≡ ok f')
        × IsValid f'
        × (contains md5 f' item ≡ ok true)
  unfolding add contains
  add-contains item =
      let (bits, e, stored, bytes, more, c) =
        add_from_lem md5 item f.bit_size valid.sized 0 f.hash_count f.bits valid.stored
          valid.bytes in
      (
        record f { bits = bits; item_count = f.item_count + 1 },
        rw e refl,
        record { sized = valid.sized; stored = stored; bytes = bytes },
        contains_from_lem md5 item f.bit_size valid.sized bits stored 0 f.hash_count c,
      )

  pub contains-answers : (item : Text) → (b : Bool) × (contains md5 f item ≡ ok b)
  unfolding contains
  contains-answers item =
      contains_from-answers md5 item f.bit_size valid.sized f.bits valid.stored 0 f.hash_count

  pub add-counts :
      (item : Text) (f' : BloomFilter F)
      → add md5 f item ≡ ok f'
      → f'.duplicates_caught ≡ f.duplicates_caught
  unfolding add
  add-counts item f' h =
      let (bits, e, same) = >>=-eq-ok (add_from md5 item f.bit_size 0 f.hash_count f.bits) _ h in
      ap (λ r. elim r [ ok g ↦ g.duplicates_caught | err b ↦ 0 ]) (sym same)

  -- What is found in a valid filter is found in it after any addition, which succeeds.
  pub add-keeps :
      (item other : Text)
      → contains md5 f other ≡ ok true
      → (add md5 f item >>= λ f'. contains md5 f' other) ≡ ok true
  unfolding add contains
  add-keeps item other h =
      let (bits, e, stored, bytes, more, c) =
        add_from_lem md5 item f.bit_size valid.sized 0 f.hash_count f.bits valid.stored
          valid.bytes in
      rw e (
        contains_from_lem md5 other f.bit_size valid.sized bits stored 0 f.hash_count (
          Covered-mono md5 other f.bit_size valid.sized f.bits bits 0 f.hash_count more
            (covered md5 other f.bit_size valid.sized f.bits valid.stored 0 f.hash_count h)))

-- A valid filter of the same counts that has the bits of another finds what the other finds.
pub contains_mono :
    {F : Type 0} (md5 : Text → List ℕ) (item : Text) (f g : BloomFilter F)
    → IsValid f
    → IsValid g
    → f.bit_size ≡ g.bit_size
    → f.hash_count ≡ g.hash_count
    → ((q : ℕ) → has_bit f.bits q ≡ true → has_bit g.bits q ≡ true)
    → contains md5 f item ≡ ok true
    → contains md5 g item ≡ ok true
unfolding contains
contains_mono md5 item f g valid g_valid size count more h =
    let found : contains_from md5 item g.bit_size 0 g.hash_count f.bits ≡ ok true =
      rw (← size, ← count) h in
    contains_from_lem md5 item g.bit_size g_valid.sized g.bits g_valid.stored 0 g.hash_count (
      Covered-mono md5 item g.bit_size g_valid.sized f.bits g.bits 0 g.hash_count more (
        covered md5 item g.bit_size g_valid.sized f.bits (valid.stored ∙ ap (λ m. m / 8 + 1) size) 0
          g.hash_count found))

-- ===== src/UrlGenerator/Padding.antt =====
-- The whole of `generate_url_pool`, and the rounds of its padding loop.
use scrape_grid.Prelude.{
  ℕ, zero, suc, ◌+◌, ◌-◌, ◌*◌, ◌/◌, ◌%◌, ◌≤◌, ◌<◌, ◌≡◌, refl, subst, none, some, List, [], ◌∷◌,
  ◌++◌, arith, All, All-append, All-take, length, length-append, length-take, take, lt→ltb,
  Bool-cases, inl, inr,
}
use scrape_grid.Result.{ok}
use scrape_grid.Text.{Text, equal, equal_iff, equal_refl}
use scrape_grid.Dict.{Dict, get}
use scrape_grid.Simulation.Shards.{count}
use scrape_grid.UrlGenerator.{
  domain_categories, Pool, make_url, pad_once, pad, finish, generate_url_pool,
}
use scrape_grid.UrlGenerator.Urls.{read-All}
use scrape_grid.UrlGenerator.Filling.{IsKnown, IsFilled, fill_lem}

-- `random.choices` draws that many elements of a population that is not empty.
pub record IsChoices (choices : List Text → ℕ → List Text) : Type 0 where
  pub drawn : (xs : List Text) (k : ℕ) → 0 < length xs → length (choices xs k) ≡ k
  pub from_it :
      (xs : List Text) (k : ℕ) (u : Text)
      → 0 < length xs
      → 0 < count u (choices xs k)
      → 0 < count u xs

-- `random.shuffle` permutes.
pub record IsShuffle (shuffle : List Text → List Text) : Type 0 where
  pub counts : (xs : List Text) (u : Text) → count u (shuffle xs) ≡ count u xs
  pub lengths : (xs : List Text) → length (shuffle xs) ≡ length xs

module _ (P : Text → Type 0) where
  counted : (xs : List Text) (u : Text) → All P xs → 0 < count u xs → P u
  counted [] u a h = absurd (omega arith)
  counted (x ∷ xs) u (p, a) h = elim (Bool-cases (equal x u)) [
    | inl e ↦ subst P ((equal_iff x u).0 e) p
    | inr e ↦ counted xs u a (ground arith)
  ]

  All-counted : (xs : List Text) → ((u : Text) → 0 < count u xs → P u) → All P xs
  All-counted [] h = tt
  All-counted (x ∷ xs) h =
      (h x (ground (arith, equal_refl x)), All-counted xs (λ u more. h u (ground arith)))

-- A pool that is large enough is not padded, whatever the rounds allowed.
pad_full :
    (draw : ℕ → ℕ) (fuel k unique_target : ℕ) (p : Pool)
    → unique_target ≤ length p.urls
    → pad draw fuel k unique_target p ≡ ok (some p)
unfolding pad
pad_full draw zero k unique_target p h = ground arith
pad_full draw (suc fuel) k unique_target p h = ground arith

module _ (choices : List Text → ℕ → List Text) (shuffle : List Text → List Text)
    (is_choices : IsChoices choices) (is_shuffle : IsShuffle shuffle) where
  finish_lem :
      (draw : ℕ → ℕ) (total unique_target : ℕ) (p : Pool)
      → IsFilled p
      → length p.urls ≡ unique_target
      → 0 < unique_target
      → unique_target ≤ total
      → (length (finish draw choices shuffle total unique_target p).0 ≡ total)
        × All (IsKnown p.domain_map) (finish draw choices shuffle total unique_target p).0
  unfolding finish
  finish_lem draw total unique_target p filled size some_url enough =
      let kept = take unique_target p.urls in
      let kept_size : length kept ≡ unique_target =
        length-take unique_target p.urls (omega (arith, size)) in
      let kept_known = All-take (IsKnown p.domain_map) unique_target p.urls filled in
      let more = choices kept (total - length kept) in
      let more_size : length more ≡ total - length kept =
        is_choices.drawn kept (total - length kept) (omega arith) in
      let more_known = All-counted (IsKnown p.domain_map) more (λ u h.
        counted (IsKnown p.domain_map) kept u kept_known
          (is_choices.from_it kept (total - length kept) u (omega arith) h)) in
      let both = All-append (IsKnown p.domain_map) kept more kept_known more_known in
      (
        omega (
          arith,
          is_shuffle.lengths (kept ++ more),
          length-append kept more,
          kept_size,
          more_size,
        ),
        All-counted (IsKnown p.domain_map) (shuffle (kept ++ more)) (λ u h.
            counted (IsKnown p.domain_map) (kept ++ more) u both
              (omega (arith, is_shuffle.counts (kept ++ more) u))),
      )

  -- Where the count of unique URLs asked for is a positive multiple of 25 and no more than the total,
  -- as it is for the total of 20000 that the engine asks for, the pool is made without a single
  -- round of padding, whatever is drawn: it has `total` URLs, and each of them has one of the five
  -- categories in the map and a domain that can be read off it.
  pub generate_url_pool-ends :
      (draw : ℕ → ℕ) (fuel k total : ℕ)
      → 0 < k
      → 25 * k ≤ total
      → (pool : List Text) × (domain_map : Dict Text Text) × (generate_url_pool draw choices shuffle
            fuel total
            (25 * k)
          ≡ ok (some (pool, domain_map)))
        × (length pool ≡ total)
        × All (IsKnown domain_map) pool
  unfolding generate_url_pool
  generate_url_pool-ends draw fuel k total positive enough =
      let (p, e, filled, size) = fill_lem k in
      let per : 25 * k / 25 ≡ k = omega arith in
      let (total_size, known) = finish_lem draw total (25 * k) p filled size (omega arith) enough in
      (
        (finish draw choices shuffle total (25 * k) p).0,
        p.domain_map,
        rw (per, e, pad_full draw fuel 0 (25 * k) p (omega (arith, size))) refl,
        total_size,
        known,
      )

-- The map has the URL of `domain` that the padding loop would try next.
abbrev pub IsTaken : Pool → Text → Type 0
IsTaken p domain =
    (url : Text) × (make_url domain (length p.urls + 99999) ≡ ok url)
    × ((cat : Text) × (get equal p.domain_map url ≡ some cat))

abbrev pub AllTaken : Pool → Text × List Text → Type 0
AllTaken p (cat, domains) = All (IsTaken p) domains × (0 < length domains)

-- It has that of every domain.
abbrev pub IsStuck : Pool → Type 0
IsStuck p = All (AllTaken p) domain_categories

pad_once-IsStuck :
    (draw_cat draw_domain : ℕ) (p : Pool) → IsStuck p → pad_once draw_cat draw_domain p ≡ ok p
unfolding pad_once
pad_once-IsStuck i j p stuck =
    let ((cat, domains), e, (taken, some_domain)) =
      read-All (AllTaken p) domain_categories (i % length domain_categories) stuck (omega arith) in
    let (domain, f, (url, g, (old, h))) =
      read-All (IsTaken p) domains (j % length domains) taken (omega arith) in
    rw (e, f, g, h) refl

-- The padding loop makes no step once every domain has the URL that it tries next, whatever is drawn:
-- short of its target it still runs after any number of rounds.
pub pad-stuck :
    (draw : ℕ → ℕ) (fuel k unique_target : ℕ) (p : Pool)
    → IsStuck p
    → length p.urls < unique_target
    → pad draw fuel k unique_target p ≡ ok none
unfolding pad
pad-stuck draw zero k unique_target p stuck short = ground arith
pad-stuck draw (suc fuel) k unique_target p stuck short =
    rw
      (lt→ltb (length p.urls) unique_target short, pad_once-IsStuck (draw k) (draw (k + 1)) p stuck)
      (pad-stuck draw fuel (k + 2) unique_target p stuck short)

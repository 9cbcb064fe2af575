-- ===== src/UrlGenerator/Examples.antt =====
-- URLs of small indices, a pool of 30, and a pool whose padding stands still.
use scrape_grid.Prelude.{
  ℕ, zero, suc, ◌+◌, ◌*◌, ◌<◌, ◌≡◌, refl, Bool, true, false, ◌&&◌, none, some, List, [], ◌∷◌, arith,
  All, all, length, length-replicate, replicate, &&-eq-true, Option-cases, inl, inr, ltb, ltb→lt,
}
use scrape_grid.Result.{Result, ok, err, ◌>>=◌}
use scrape_grid.Text.{Text, codes, equal}
use scrape_grid.Dict.{Dict, get, put}
use scrape_grid.Simulation.{domain_of}
use scrape_grid.Simulation.Shards.{count}
use scrape_grid.UrlGenerator.{Pool, make_url, generate_url_pool, pad, domain_categories}
use scrape_grid.UrlGenerator.Urls.{domain_of-make_url, make_url_repeats}
use scrape_grid.UrlGenerator.Filling.{IsKnown}
use scrape_grid.UrlGenerator.Padding.{IsTaken, AllTaken, IsStuck, generate_url_pool-ends, pad-stuck}

abbrev site : Text
site = codes "sportnews.io"

news_url : make_url site 1 ≡ ok (codes "https://sportnews.io/news/2024/02/analysis")
unfolding make_url equal
news_url = refl

story_url : make_url site 11 ≡ ok (codes "https://sportnews.io/story/daily-11")
unfolding make_url equal
story_url = refl

domain_of-make_url_example : (make_url site 11 >>= domain_of) ≡ ok site
domain_of-make_url_example = domain_of-make_url site 11 (
  refl,
  (refl, (refl, (refl, (refl, (refl, (refl, (refl, (refl, (refl, (refl, (refl, tt))))))))))),
)

make_url_repeats_example : make_url site 129 ≡ make_url site 9
make_url_repeats_example = make_url_repeats site 9 refl

-- Draws the first element every time.
firsts : List Text → ℕ → List Text
firsts [] k = []
firsts (x ∷ xs) k = replicate k x

count-replicate : (u x : Text) (k : ℕ) → 0 < count u (replicate k x) → equal x u ≡ true
count-replicate u x zero h = absurd (omega arith)
count-replicate u x (suc k) h = ground (arith, count-replicate u x k)

firsts-drawn : (xs : List Text) (k : ℕ) → 0 < length xs → length (firsts xs k) ≡ k
unfolding firsts
firsts-drawn [] k h = absurd (omega arith)
firsts-drawn (x ∷ xs) k h = length-replicate k x

firsts-from_it :
    (xs : List Text) (k : ℕ) (u : Text) → 0 < length xs → 0 < count u (firsts xs k) → 0 < count u xs
unfolding firsts
firsts-from_it [] k u h c = absurd (omega arith)
firsts-from_it (x ∷ xs) k u h c = ground (arith, count-replicate u x k c)

abbrev unshuffled : List Text → List Text
unshuffled xs = xs

generate_url_pool-ends_example :
    (pool : List Text) × (domain_map : Dict Text Text) × (generate_url_pool
        (λ k. k)
        firsts
        unshuffled
        0
        30
        25
      ≡ ok (some (pool, domain_map)))
    × (length pool ≡ 30)
    × All (IsKnown domain_map) pool
generate_url_pool-ends_example =
    generate_url_pool-ends firsts unshuffled
      (record { drawn = firsts-drawn; from_it = firsts-from_it })
      (record { counts = λ xs u. refl; lengths = λ xs. refl }) (λ k. k) 0 1 30 (omega arith)
      (omega arith)

-- The URLs of index 100001 of these domains, as an earlier round may have put them in the map.
taken : Dict Text Text → List Text → Dict Text Text
taken m [] = m
taken m (domain ∷ domains) = elim (make_url domain 100001) [
  | err e ↦ taken m domains
  | ok url ↦ put equal (taken m domains) url (codes "tech")
]

all_taken : Dict Text (List Text) → Dict Text Text
all_taken [] = []
all_taken ((cat, domains) ∷ rest) = taken (all_taken rest) domains

crowded : Pool
crowded = record { urls = codes "u" ∷ codes "v" ∷ []; domain_map = all_taken domain_categories }

is_in : Dict Text Text → Result Text → Bool
is_in m (err e) = false
is_in m (ok url) = elim (get equal m url) [ none ↦ false | some cat ↦ true ]

is_in-IsTaken :
    (m : Dict Text Text) (r : Result Text)
    → is_in m r ≡ true
    → (url : Text) × (r ≡ ok url) × ((cat : Text) × (get equal m url ≡ some cat))
unfolding is_in
is_in-IsTaken m (err e) h = cc
is_in-IsTaken m (ok url) h = elim (Option-cases (get equal m url)) [
  | inl e ↦ absurd (ground arith)
  | inr found ↦ (url, refl, found)
]

module _ (p : Pool) where
  taken_all : List Text → Bool
  taken_all = all (λ domain. is_in p.domain_map (make_url domain (length p.urls + 99999)))

  domains-IsTaken : (domains : List Text) → taken_all domains ≡ true → All (IsTaken p) domains
  unfolding taken_all
  domains-IsTaken [] h = tt
  domains-IsTaken (d ∷ ds) h =
      let (now, later) =
        &&-eq-true (is_in p.domain_map (make_url d (length p.urls + 99999))) (taken_all ds) h in
      (is_in-IsTaken p.domain_map _ now, domains-IsTaken ds later)

  is_stuck : Dict Text (List Text) → Bool
  is_stuck = all (λ entry. taken_all entry.1 && ltb 0 (length entry.1))

  stuck-All : (cats : Dict Text (List Text)) → is_stuck cats ≡ true → All (AllTaken p) cats
  unfolding is_stuck
  stuck-All [] h = tt
  stuck-All ((cat, domains) ∷ rest) h =
      let (now, later) =
        &&-eq-true (taken_all domains && ltb 0 (length domains)) (is_stuck rest) h in
      let (each, some_domain) = &&-eq-true (taken_all domains) (ltb 0 (length domains)) now in
      ((domains-IsTaken domains each, ltb→lt 0 (length domains) some_domain), stuck-All rest later)

crowded-IsStuck : IsStuck crowded
unfolding is_stuck taken_all is_in crowded all_taken taken get put equal make_url
crowded-IsStuck = stuck-All crowded domain_categories refl

pad-stuck_example : pad (λ k. 7 * k) 1000 0 3 crowded ≡ ok none
unfolding crowded
pad-stuck_example = pad-stuck (λ k. 7 * k) 1000 0 3 crowded crowded-IsStuck (omega arith)

-- ===== src/UrlGenerator.antt =====
-- utils/url_generator.py. `draw k` is the k-th number that `random.Random(42)` gives out, below any
-- bound once it is reduced by it; `choices` and `shuffle` stand for `rng.choices` and `rng.shuffle`.
pub mod Template
pub mod Urls
pub mod Filling
pub mod Padding
mod Examples
use scrape_grid.Prelude.{
  ℕ, zero, suc, ◌+◌, ◌-◌, ◌*◌, ◌/◌, ◌%◌, Bool, Option, none, some, List, [], ◌∷◌, ◌++◌, ltb, leb,
  if◌then◌else◌, length, get_elem?, take,
}
use scrape_grid.Result.{Result, ok, err, index_error, ◌>>=◌}
use scrape_grid.Text.{Text, codes, equal, decimal}
use scrape_grid.Dict.{Dict, get, put, or_default}
use scrape_grid.UrlGenerator.Template.{format}

-- DOMAIN_CATEGORIES
abbrev pub domain_categories : Dict Text (List Text)
domain_categories =
    (
      codes "sports",
      codes "espn.sports.com"
          ∷ codes "bleacherreport.sports.net"
          ∷ codes "sportnews.io"
          ∷ codes "athleticscore.com"
          ∷ codes "gamezone.sports.org"
          ∷ [],
    )
    ∷ (
      codes "tech",
      codes "techcrunch.tech.com"
          ∷ codes "hackernews.tech.io"
          ∷ codes "devblog.tech.net"
          ∷ codes "silicon.tech.org"
          ∷ codes "codedaily.tech.com"
          ∷ [],
    )
    ∷ (
      codes "news",
      codes "globalnews.news.com"
          ∷ codes "dailyreport.news.net"
          ∷ codes "liveheadlines.news.io"
          ∷ codes "pressroom.news.org"
          ∷ codes "flashnews.news.com"
          ∷ [],
    )
    ∷ (
      codes "science",
      codes "naturemag.science.com"
          ∷ codes "arxivdaily.science.net"
          ∷ codes "labresults.science.io"
          ∷ codes "researchhub.science.org"
          ∷ codes "peerreview.science.com"
          ∷ [],
    )
    ∷ (
      codes "finance",
      codes "stockwatch.finance.com"
          ∷ codes "marketpulse.finance.net"
          ∷ codes "traderdesk.finance.io"
          ∷ codes "cryptofeed.finance.org"
          ∷ codes "wallstreetbuzz.finance.com"
          ∷ [],
    )
    ∷ []

-- PATH_TEMPLATES
abbrev pub path_templates : List Text
path_templates =
    codes "/article/{id}"
    ∷ codes "/news/{year}/{month}/{slug}"
    ∷ codes "/post/{id}/details"
    ∷ codes "/story/{slug}-{id}"
    ∷ codes "/category/{cat}/item/{id}"
    ∷ codes "/p/{id}"
    ∷ codes "/report/{year}-{id}"
    ∷ codes "/live/{id}/updates"
    ∷ []

-- WORDS
abbrev pub words : List Text
words =
    codes "breaking"
    ∷ codes "analysis"
    ∷ codes "review"
    ∷ codes "update"
    ∷ codes "insight"
    ∷ codes "deep-dive"
    ∷ codes "summary"
    ∷ codes "exclusive"
    ∷ codes "trending"
    ∷ codes "top"
    ∷ codes "weekly"
    ∷ codes "daily"
    ∷ codes "special"
    ∷ codes "featured"
    ∷ codes "latest"
    ∷ []

-- `xs[i]`
unfoldable pub read : {A : Type 0} → List A → ℕ → Result A
read xs i = elim (get_elem? xs i) [ none ↦ err index_error | some x ↦ ok x ]

-- `text.zfill(2)`, for a text without a sign
unfoldable pub zfill_2 : Text → Text
zfill_2 [] = b'0' ∷ b'0' ∷ []
zfill_2 (c ∷ []) = b'0' ∷ c ∷ []
zfill_2 (c ∷ d ∷ cs) = c ∷ d ∷ cs

-- `template.format(id=…, slug=…, year=…, month=…, cat="main")`
unfoldable pub fields : ℕ → Text → Dict Text Text
unfolding decimal zfill_2
fields idx slug =
    (codes "id", decimal idx)
    ∷ (codes "slug", slug)
    ∷ (codes "year", decimal (2023 + idx % 3))
    ∷ (codes "month", zfill_2 (decimal (idx % 12 + 1)))
    ∷ (codes "cat", codes "main")
    ∷ []

-- `_make_url`
unfoldable pub make_url : Text → ℕ → Result Text
unfolding read format fields
make_url domain idx = do
  template ← read path_templates (idx % 8)
  slug ← read words (idx % 15)
  path ← format (fields idx slug) template
  ok (codes "https://" ++ (domain ++ path))

pub record Pool : Type 0 where
  pub urls : List Text
  pub domain_map : Dict Text Text

-- `urls.append(url)` and `domain_map[url] = cat`
unfoldable pub append : Pool → Text → Text → Pool
unfolding put
append p cat url = record { urls = p.urls ++ url ∷ []; domain_map = put equal p.domain_map url cat }

-- The three nested loops that fill the pool, the innermost with `count` rounds to go.
unfoldable pub fill_domain : Text → Text → (count : ℕ) → Pool → Result Pool
unfolding make_url append
fill_domain cat domain zero p = ok p
fill_domain cat domain (suc count) p = do
  url ← make_url domain (length p.urls)
  fill_domain cat domain count (append p cat url)

unfoldable pub fill_category : Text → List Text → (count : ℕ) → Pool → Result Pool
unfolding fill_domain
fill_category cat [] count p = ok p
fill_category cat (domain ∷ domains) count p = do
  p' ← fill_domain cat domain count p
  fill_category cat domains count p'

unfoldable pub fill : Dict Text (List Text) → (count : ℕ) → Pool → Result Pool
unfolding fill_category
fill [] count p = ok p
fill ((cat, domains) ∷ rest) count p = do p' ← fill_category cat domains count p; fill rest count p'

-- One round of the padding loop, for the two numbers that `rng.choice` is given.
unfoldable pub pad_once : (draw_cat draw_domain : ℕ) → Pool → Result Pool
unfolding read make_url append get
pad_once draw_cat draw_domain p = do
  picked ← read domain_categories (draw_cat % length domain_categories)
  domain ← read picked.1 (draw_domain % length picked.1)
  url ← make_url domain (length p.urls + 99999)
  ok (elim (get equal p.domain_map url) [ none ↦ append p picked.0 url | some cat ↦ p ])

module _ (draw : ℕ → ℕ) where
  -- The padding loop with `fuel` rounds to go, from the `k`-th draw on; `none` means that it still
  -- runs when the rounds are used up.
  unfoldable pub pad : (fuel k unique_target : ℕ) → Pool → Result (Option Pool)
  unfolding pad_once
  pad zero k unique_target p = ok (if ltb (length p.urls) unique_target then none else some p)
  pad (suc fuel) k unique_target p =
      let more = (do p' ← pad_once (draw k) (draw (k + 1)) p; pad fuel (k + 2) unique_target p') in
      if ltb (length p.urls) unique_target then more else ok (some p)

  module _ (choices : List Text → ℕ → List Text) (shuffle : List Text → List Text) where
    -- The end of `generate_url_pool`: `urls[:unique_target]`, the duplicates and the shuffle.
    unfoldable pub finish : (total unique_target : ℕ) → Pool → List Text × Dict Text Text
    finish total unique_target p =
        let unique_urls = take unique_target p.urls in
        (shuffle (unique_urls ++ choices unique_urls (total - length unique_urls)), p.domain_map)

    -- `unique_target` is `int(total * (1 - duplicate_rate))`.
    unfoldable pub generate_url_pool :
        (fuel total unique_target : ℕ) → Result (Option (List Text × Dict Text Text))
    unfolding fill pad finish
    generate_url_pool fuel total unique_target = do
      filled ←
          fill domain_categories (unique_target / (length domain_categories * 5))
            (record { urls = []; domain_map = [] })
      padded ← pad fuel 0 unique_target filled
      ok (elim padded [ none ↦ none | some p ↦ some (finish total unique_target p) ])

unfoldable pub get_domain_category : Text → Dict Text Text → Text
unfolding get
get_domain_category url domain_map = or_default (get equal domain_map url) (codes "general")

-- ===== src/UrlGenerator/Filling.antt =====
-- What the nested loops of `generate_url_pool` leave.
use scrape_grid.Prelude.{
  Bool, not, all, ◌&&◌, ◌==◌, &&-eq-true, ℕ, zero, suc, ◌+◌, ◌*◌, ◌≡◌, refl, ◌∙◌, ap, true, false,
  none, some, List, [], ◌∷◌, ◌++◌, arith, All, All-append, length, length-append, Bool-cases,
  Option-cases, inl, inr,
}
use scrape_grid.Result.{Result, ok, ◌>>=◌}
use scrape_grid.Text.{Text, codes, equal, equal_iff, equal_refl}
use scrape_grid.Dict.{Dict, get, put}
use scrape_grid.Dict.Laws.{get-put}
use scrape_grid.Simulation.{domain_of}
use scrape_grid.UrlGenerator.{domain_categories, Pool, append, fill_domain, fill_category, fill}
use scrape_grid.UrlGenerator.Urls.{HasNoSlash, make_url-path, domain_of-https}

-- One of the five categories.
abbrev pub IsCategory : Text → Type 0
IsCategory cat = (domains : List Text) × (get equal domain_categories cat ≡ some domains)

-- A URL that the map gives one of the categories, and off which a domain can be read.
pub record IsKnown (domain_map : Dict Text Text) (url : Text) : Type 0 where
  pub category : (cat : Text) × (get equal domain_map url ≡ some cat) × IsCategory cat
  pub domain : (d : Text) × (domain_of url ≡ ok d)

abbrev pub IsFilled : Pool → Type 0
IsFilled p = All (IsKnown p.domain_map) p.urls

module _ (cat url : Text) (is_category : IsCategory cat) where
  IsKnown-put : (m : Dict Text Text) (u : Text) → IsKnown m u → IsKnown (put equal m url cat) u
  IsKnown-put m u k = elim (Bool-cases (equal url u)) [
    | inl h ↦ record {
      category = (cat, get-put equal equal_iff m url u cat ∙ rw h refl, is_category);
      domain = k.domain;
    }
    | inr h ↦ record {
      category =
          (k.category.0, get-put equal equal_iff m url u cat ∙ rw h k.category.1, k.category.2);
      domain = k.domain;
    }
  ]

  All-put :
      (m : Dict Text Text) (us : List Text)
      → All (IsKnown m) us
      → All (IsKnown (put equal m url cat)) us
  All-put m [] a = tt
  All-put m (u ∷ us) (k, a) = (IsKnown-put m u k, All-put m us a)

  pub append-IsFilled :
      (p : Pool) → (d : Text) × (domain_of url ≡ ok d) → IsFilled p → IsFilled (append p cat url)
  unfolding append
  append-IsFilled p domain filled =
      All-append (IsKnown (put equal p.domain_map url cat)) p.urls (url ∷ [])
        (All-put p.domain_map p.urls filled)
        (
          record {
            category = (
              cat,
              get-put equal equal_iff p.domain_map url url cat ∙ rw equal_refl refl,
              is_category,
            );
            domain = domain;
          },
          tt,
        )

-- What a loop that adds `n` URLs to `p` ends in.
abbrev Adds : ℕ → Pool → Result Pool → Type 0
Adds n p r = (p' : Pool) × (r ≡ ok p') × IsFilled p' × (length p'.urls ≡ length p.urls + n)

fill_domain-Adds :
    (cat domain : Text) (count : ℕ) (p : Pool)
    → IsCategory cat
    → HasNoSlash domain
    → IsFilled p
    → Adds count p (fill_domain cat domain count p)
unfolding fill_domain append
fill_domain-Adds cat domain zero p c n filled = (p, refl, filled, omega arith)
fill_domain-Adds cat domain (suc count) p c n filled =
    let (path, e) = make_url-path domain (length p.urls) in
    let url = codes "https://" ++ (domain ++ b'/' ∷ path) in
    let next = append-IsFilled cat url c p (domain, domain_of-https domain path n) filled in
    let (p', f, filled', size) = fill_domain-Adds cat domain count (append p cat url) c n next in
    (
      p',
      ap (λ r. r >>= λ u. fill_domain cat domain count (append p cat u)) e ∙ f,
      filled',
      omega (arith, size, length-append p.urls (url ∷ [])),
    )

fill_category-Adds :
    (cat : Text) (domains : List Text) (count : ℕ) (p : Pool)
    → IsCategory cat
    → All HasNoSlash domains
    → IsFilled p
    → Adds (length domains * count) p (fill_category cat domains count p)
unfolding fill_category
fill_category-Adds cat [] count p c n filled = (p, refl, filled, omega arith)
fill_category-Adds cat (domain ∷ domains) count p c (m, n) filled =
    let (p', e, filled', size) = fill_domain-Adds cat domain count p c m filled in
    let (p'', f, filled'', size') = fill_category-Adds cat domains count p' c n filled' in
    (
      p'',
      ap (λ r. r >>= fill_category cat domains count) e ∙ f,
      filled'',
      grind (arith, size, size'),
    )

abbrev pub domain_count : Dict Text (List Text) → ℕ
domain_count [] = 0
domain_count ((cat, domains) ∷ rest) = length domains + domain_count rest

abbrev AreUsable : Dict Text (List Text) → Type 0
AreUsable = All (λ entry. IsCategory entry.0 × All HasNoSlash entry.1)

fill-Adds :
    (cats : Dict Text (List Text)) (count : ℕ) (p : Pool)
    → AreUsable cats
    → IsFilled p
    → Adds (domain_count cats * count) p (fill cats count p)
unfolding fill
fill-Adds [] count p u filled = (p, refl, filled, omega arith)
fill-Adds ((cat, domains) ∷ rest) count p ((c, n), u) filled =
    let (p', e, filled', size) = fill_category-Adds cat domains count p c n filled in
    let (p'', f, filled'', size') = fill-Adds rest count p' u filled' in
    (p'', ap (λ r. r >>= fill rest count) e ∙ f, filled'', grind (arith, size, size'))

no_slash : Text → Bool
no_slash = all (λ c. not (c == b'/'))

all-HasNoSlash : (d : Text) → no_slash d ≡ true → HasNoSlash d
unfolding no_slash
all-HasNoSlash [] h = tt
all-HasNoSlash (c ∷ cs) h = (ground arith, all-HasNoSlash cs (ground arith))

domains-All : (ds : List Text) → all no_slash ds ≡ true → All HasNoSlash ds
domains-All [] h = tt
domains-All (d ∷ ds) h =
    let (p, q) = &&-eq-true (no_slash d) (all no_slash ds) h in
    (all-HasNoSlash d p, domains-All ds q)

is_category : Text → Bool
is_category cat = elim (get equal domain_categories cat) [ none ↦ false | some domains ↦ true ]

is_category-IsCategory : (cat : Text) → is_category cat ≡ true → IsCategory cat
unfolding is_category
is_category-IsCategory cat h = elim (Option-cases (get equal domain_categories cat)) [
  | inl e ↦ absurd (ground arith)
  | inr found ↦ found
]

is_usable : Text × List Text → Bool
is_usable (cat, domains) = is_category cat && all no_slash domains

all-AreUsable : (cats : Dict Text (List Text)) → all is_usable cats ≡ true → AreUsable cats
unfolding is_usable
all-AreUsable [] h = tt
all-AreUsable ((cat, domains) ∷ rest) h =
    let (p, q) = &&-eq-true (is_category cat && all no_slash domains) (all is_usable rest) h in
    let (c, n) = &&-eq-true (is_category cat) (all no_slash domains) p in
    ((is_category-IsCategory cat c, domains-All domains n), all-AreUsable rest q)

domain_categories-AreUsable : AreUsable domain_categories
unfolding is_usable is_category no_slash get equal
domain_categories-AreUsable = all-AreUsable domain_categories refl

-- The loops over all categories add 25 times `count` URLs.
pub fill_lem :
    (count : ℕ)
    → (p : Pool) × (fill domain_categories count (record { urls = []; domain_map = [] }) ≡ ok p)
      × IsFilled p
      × (length p.urls ≡ 25 * count)
fill_lem count =
    let (p, e, filled, size) =
      fill-Adds domain_categories count (record { urls = []; domain_map = [] })
        domain_categories-AreUsable tt in
    (p, e, filled, omega (arith, size))

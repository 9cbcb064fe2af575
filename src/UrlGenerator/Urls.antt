-- ===== src/UrlGenerator/Urls.antt =====
-- What `_make_url` gives, and what the scrapers read off it.
use scrape_grid.Prelude.{
  ℕ, zero, suc, ◌+◌, ◌%◌, ◌<◌, ◌≡◌, refl, ◌∙◌, ap, false, none, some, List, [], ◌∷◌, ◌++◌, arith,
  ◌==◌, All, length, get_elem?, get_elem?-some,
}
use scrape_grid.Result.{Result, ok, err, index_error, ◌>>=◌}
use scrape_grid.Text.{Text, codes}
use scrape_grid.Simulation.{split, domain_of}
use scrape_grid.UrlGenerator.{path_templates, words, read, fields, make_url}
use scrape_grid.UrlGenerator.Template.{format}

-- A template that gives a path, whatever the index and the slug.
abbrev IsPath : Text → Type 0
IsPath template =
    (idx : ℕ) (slug : Text) → (path : Text) × (format (fields idx slug) template ≡ ok (b'/' ∷ path))

templates-IsPath : All IsPath path_templates
unfolding format fields
templates-IsPath = (
  (λ i s. (_, refl)),
  (
    (λ i s. (_, refl)),
    (
      (λ i s. (_, refl)),
      (
        (λ i s. (_, refl)),
        ((λ i s. (_, refl)), ((λ i s. (_, refl)), ((λ i s. (_, refl)), ((λ i s. (_, refl)), tt)))),
      ),
    ),
  ),
)

pub read-All :
    {A : Type 0} (P : A → Type 0) (xs : List A) (i : ℕ)
    → All P xs
    → i < length xs
    → (x : A) × (read xs i ≡ ok x) × P x
unfolding read
read-All P [] i a h = absurd (omega arith)
read-All P (x ∷ xs) zero (p, a) h = (x, refl, p)
read-All P (x ∷ xs) (suc i) (p, a) h = read-All P xs i a (omega arith)

read-some : {A : Type 0} (xs : List A) (i : ℕ) → i < length xs → (x : A) × (read xs i ≡ ok x)
unfolding read
read-some xs i h = let (x, e) = get_elem?-some xs i h in (x, rw (e, read) refl)

pub make_url-path :
    (domain : Text) (idx : ℕ)
    → (path : Text) × (make_url domain idx ≡ ok (codes "https://" ++ (domain ++ b'/' ∷ path)))
unfolding make_url
make_url-path domain idx =
    let (template, e, is_path) =
      read-All IsPath path_templates (idx % 8) templates-IsPath (omega arith) in
    let (slug, f) = read-some words (idx % 15) (omega arith) in
    let (path, g) = is_path idx slug in (path, rw (e, f, g) refl)

abbrev pub HasNoSlash : Text → Type 0
HasNoSlash = All (λ c. (c == b'/') ≡ false)

split-part :
    (part rest : Text) → HasNoSlash part → split b'/' (part ++ b'/' ∷ rest) ≡ part ∷ split b'/' rest
unfolding split
split-part [] rest n = refl
split-part (c ∷ cs) rest (e, n) = rw (e, split-part cs rest n) refl

third : List Text → Result Text
third parts = elim (get_elem? (codes "https:" ∷ [] ∷ parts) 2) [
  | none ↦ err index_error
  | some part ↦ ok part
]

pub domain_of-https :
    (domain path : Text)
    → HasNoSlash domain
    → domain_of (codes "https://" ++ (domain ++ b'/' ∷ path)) ≡ ok domain
unfolding domain_of split third
domain_of-https domain path n = ap third (split-part domain path n)

-- For a domain without a slash and any index, a URL is made, and the domain read off it is the one
-- that it was made for.
pub domain_of-make_url :
    (domain : Text) (idx : ℕ) → HasNoSlash domain → (make_url domain idx >>= domain_of) ≡ ok domain
domain_of-make_url domain idx n =
    let (path, e) = make_url-path domain idx in
    ap (λ r. r >>= domain_of) e ∙ domain_of-https domain path n

-- The URLs of an index that is 1 modulo 8 recur after 120: the template there has no id.
pub make_url_repeats :
    (domain : Text) (idx : ℕ) → idx % 8 ≡ 1 → make_url domain (idx + 120) ≡ make_url domain idx
unfolding make_url read format fields
make_url_repeats domain idx h =
    let template : (idx + 120) % 8 ≡ 1 = omega arith in
    let slug : (idx + 120) % 15 ≡ idx % 15 = omega arith in
    let year : (idx + 120) % 3 ≡ idx % 3 = omega arith in
    let month : (idx + 120) % 12 ≡ idx % 12 = omega arith in
    rw (template, h, slug, year, month) refl

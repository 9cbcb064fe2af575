-- ===== src/Simulation/Scraper/Rounds.antt =====
-- What the round-robin search comes by: every queue of the dictionary, within one round.
use scrape_grid.Prelude.{
  ℕ, zero, suc, ◌+◌, ◌-◌, ◌%◌, ◌<◌, ◌≡◌, refl, sym, ◌∙◌, ap, subst, Option, none, some, List, [],
  ◌∷◌, arith, length, get_elem?, Bool-cases, inl, inr,
}
use native.Mathlib.Nat.{add-mod_right, mod-eq_of_lt}
use mathlib.Core.Option.{none-ne-some, some-injective}
use scrape_grid.Text.{Text, equal, equal_iff, equal_refl}
use scrape_grid.Dict.{get, keys}
use scrape_grid.Dict.Laws.{IsDict}
use scrape_grid.Simulation.{Shards, queue}
use scrape_grid.Simulation.Scraper.{find}
use scrape_grid.Simulation.Scraper.Keeps.{waiting}

step_back :
    (n idx i j : ℕ) → j < n → (idx + j) % n ≡ i → (k : ℕ) × (k < n) × ((suc idx + k) % n ≡ i)
step_back n idx i zero h at = (
  n - 1,
  omega arith,
  ap (λ m. m % n) (omega arith) ∙ add-mod_right idx n ∙ ap (λ m. m % n) (omega arith) ∙ at,
)
step_back n idx i (suc j) h at = (j, omega arith, ap (λ m. m % n) (omega arith) ∙ at)

-- From any index on, every position of a list of `n` is come to within `n` rounds.
turned : (n idx i : ℕ) → i < n → (j : ℕ) × (j < n) × ((idx + j) % n ≡ i)
turned n zero i h = (i, h, ap (λ m. m % n) (omega arith) ∙ mod-eq_of_lt h)
turned n (suc idx) i h = let (j, below, at) = turned n idx i h in step_back n idx i j below at

abbrev pub Empty : Shards → Text → Type 0
Empty queues cat = queue queues cat ≡ []

-- A round of the search that finds nothing.
passed_queue :
    (cat : Text) (idx : ℕ) (urls : List Text) (rest : Option Text × ℕ)
    → (elim urls as (λ _. Option Text × ℕ) [ [] ↦ rest | url ∷ us ↦ (some cat, idx + 1) ]).0 ≡ none
    → (rest.0 ≡ none) × (urls ≡ [])
passed_queue cat idx [] rest h = (h, refl)
passed_queue cat idx (url ∷ us) rest h = absurd (none-ne-some cat (sym h))

passed :
    (queues : Shards) (idx : ℕ) (o : Option Text) (rest : Option Text × ℕ)
    → (elim o as (λ _. Option Text × ℕ) [
      | none ↦ rest
      | some cat ↦ elim (queue queues cat) [ [] ↦ rest | url ∷ us ↦ (some cat, idx + 1) ]
    ]).0
      ≡ none
    → (rest.0 ≡ none) × ((cat : Text) → o ≡ some cat → Empty queues cat)
passed queues idx none rest h = (h, λ cat e. absurd (none-ne-some cat e))
passed queues idx (some c) rest h =
    let (more, empty) = passed_queue c idx (queue queues c) rest h in
    (more, λ cat e. subst (Empty queues) (some-injective c cat e) empty)

find-none :
    (cats : List Text) (queues : Shards) (left idx : ℕ)
    → (find cats queues left idx).0 ≡ none
    → (j : ℕ) (cat : Text) → j < left
    → get_elem? cats ((idx + j) % length cats) ≡ some cat
    → Empty queues cat
unfolding find
find-none cats queues zero idx h j cat below at = absurd (omega arith)
find-none cats queues (suc left) idx h zero cat below at =
    let first = get_elem? cats (idx % length cats) in
    (passed queues idx first (find cats queues left (idx + 1)) h).1 cat
      (ap (λ m. get_elem? cats (m % length cats)) (omega arith) ∙ at)
find-none cats queues (suc left) idx h (suc j) cat below at =
    let first = get_elem? cats (idx % length cats) in
    let (more, empty) = passed queues idx first (find cats queues left (idx + 1)) h in
    find-none cats queues left (idx + 1) more j cat (omega arith)
      (ap (λ m. get_elem? cats (m % length cats)) (omega arith) ∙ at)

get_elem?-lt : (xs : List Text) (i : ℕ) (x : Text) → get_elem? xs i ≡ some x → i < length xs
get_elem?-lt [] i x h = absurd (none-ne-some x h)
get_elem?-lt (y ∷ ys) zero x h = omega arith
get_elem?-lt (y ∷ ys) (suc i) x h = omega (arith, get_elem?-lt ys i x h)

-- A whole round that finds nothing has come by every category.
pub find-none_all :
    (cats : List Text) (queues : Shards) (idx : ℕ)
    → (find cats queues (length cats) idx).0 ≡ none
    → (i : ℕ) (cat : Text) → get_elem? cats i ≡ some cat
    → Empty queues cat
find-none_all cats queues idx h i cat at =
    let (j, below, there) = turned (length cats) idx i (get_elem?-lt cats i cat at) in
    find-none cats queues (length cats) idx h j cat below (ap (get_elem? cats) there ∙ at)

pass_all :
    (queues : Shards) (idx : ℕ) (o : Option Text) (rest : Option Text × ℕ)
    → rest.0 ≡ none
    → ((cat : Text) → Empty queues cat)
    → (elim o as (λ _. Option Text × ℕ) [
      | none ↦ rest
      | some cat ↦ elim (queue queues cat) [ [] ↦ rest | url ∷ us ↦ (some cat, idx + 1) ]
    ]).0
      ≡ none
pass_all queues idx none rest h empty = h
pass_all queues idx (some cat) rest h empty = rw (empty cat) h

pub find-Empty :
    (cats : List Text) (queues : Shards) (left idx : ℕ)
    → ((cat : Text) → Empty queues cat)
    → (find cats queues left idx).0 ≡ none
unfolding find
find-Empty cats queues zero idx empty = refl
find-Empty cats queues (suc left) idx empty =
    pass_all queues idx (get_elem? cats (idx % length cats)) (find cats queues left (idx + 1))
      (find-Empty cats queues left (idx + 1) empty) empty

get-keys :
    (queues : Shards) (i : ℕ) (cat : Text)
    → get_elem? (keys queues) i ≡ some cat
    → ¬ (get equal queues cat ≡ none)
unfolding get
get-keys [] i cat h e = absurd (none-ne-some cat h)
get-keys ((k, urls) ∷ queues) zero cat h e =
    none-ne-some urls (sym e ∙ rw (sym (some-injective k cat h), equal_refl k) refl)
get-keys ((k, urls) ∷ queues) (suc i) cat h e = elim (Bool-cases (equal k cat)) [
  | inl same ↦ none-ne-some urls (sym (rw same at e))
  | inr other ↦ get-keys queues i cat h (rw other at e)
]

later :
    (k : Text) (urls : List Text) (queues : Shards)
    → get equal queues k ≡ none
    → (i : ℕ) (cat : Text) → get_elem? (keys queues) i ≡ some cat
    → Empty ((k, urls) ∷ queues) cat
    → Empty queues cat
unfolding get
later k urls queues fresh i cat at h = elim (Bool-cases (equal k cat)) [
  | inl same ↦
      absurd
        (get-keys queues i cat at (ap (get equal queues) (sym ((equal_iff k cat).0 same)) ∙ fresh))
  | inr other ↦ rw other at h
]

pub waiting_none :
    (queues : Shards)
    → IsDict equal equal_iff queues
    → ((i : ℕ) (cat : Text) → get_elem? (keys queues) i ≡ some cat → Empty queues cat)
    → waiting queues ≡ 0
unfolding get
waiting_none [] d h = refl
waiting_none ((k, urls) ∷ queues) (fresh, d) h =
    let first : urls ≡ [] = rw (equal_refl k) at (h 0 k refl) in
    let rest =
      waiting_none queues d (λ i cat at. later k urls queues fresh i cat at (h (suc i) cat at)) in
    omega (arith, ap length first, rest)

nil_of : (urls : List Text) → length urls ≡ 0 → urls ≡ []
nil_of [] h = refl
nil_of (url ∷ urls) h = absurd (omega arith)

pub waiting-Empty : (queues : Shards) → waiting queues ≡ 0 → (cat : Text) → Empty queues cat
unfolding get
waiting-Empty [] h cat = refl
waiting-Empty ((k, urls) ∷ queues) h cat = elim (Bool-cases (equal k cat)) [
  | inl same ↦ rw same (nil_of urls (omega arith))
  | inr other ↦ rw other (waiting-Empty queues (omega arith) cat)
]

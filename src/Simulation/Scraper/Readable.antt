-- ===== src/Simulation/Scraper/Readable.antt =====
-- Queues of URLs off which a domain can be read.
use scrape_grid.Prelude.{
  ℕ, zero, suc, ◌+◌, ◌%◌, ◌≡◌, refl, sym, ◌∙◌, ap, Option, none, some, List, [], ◌∷◌, ◌++◌, arith,
  All, All-append, length, length-append, get_elem?, Bool-cases, inl, inr,
}
use mathlib.Core.Option.{none-ne-some, some-injective}
use scrape_grid.Result.{ok}
use scrape_grid.Text.{Text, equal, equal_iff}
use scrape_grid.Dict.{Dict, get, put, keys}
use scrape_grid.Dict.Laws.{IsDict, put-IsDict}
use scrape_grid.Simulation.{Shards, queue, domain_of, category_of}
use scrape_grid.Simulation.Scraper.{fill, find}
use scrape_grid.Simulation.Scraper.Keeps.{waiting, waiting-put}

-- What is found in a queue that the search stops at.
abbrev pub HasFirst : Shards → Text → Type 0
HasFirst queues cat = (url : Text) × (rest : List Text) × (queue queues cat ≡ url ∷ rest)

stop_queue :
    (queues : Shards) (c cat : Text) (idx : ℕ) (urls : List Text) (rest : Option Text × ℕ)
    → queue queues c ≡ urls
    → (elim urls as (λ _. Option Text × ℕ) [ [] ↦ rest | url ∷ us ↦ (some c, idx + 1) ]).0
      ≡ some cat
    → (rest.0 ≡ some cat → HasFirst queues cat)
    → HasFirst queues cat
stop_queue queues c cat idx [] rest e h more = more h
stop_queue queues c cat idx (url ∷ us) rest e h more =
    (url, us, ap (queue queues) (sym (some-injective c cat h)) ∙ e)

stop_found :
    (queues : Shards) (cat : Text) (idx : ℕ) (o : Option Text) (rest : Option Text × ℕ)
    → (elim o as (λ _. Option Text × ℕ) [
      | none ↦ rest
      | some c ↦ elim (queue queues c) [ [] ↦ rest | url ∷ us ↦ (some c, idx + 1) ]
    ]).0
      ≡ some cat
    → (rest.0 ≡ some cat → HasFirst queues cat)
    → HasFirst queues cat
stop_found queues cat idx none rest h more = more h
stop_found queues cat idx (some c) rest h more =
    stop_queue queues c cat idx (queue queues c) rest refl h more

pub find-some :
    (cats : List Text) (queues : Shards) (left idx : ℕ) (cat : Text)
    → (find cats queues left idx).0 ≡ some cat
    → HasFirst queues cat
unfolding find
find-some cats queues zero idx cat h = absurd (none-ne-some cat h)
find-some cats queues (suc left) idx cat h =
    stop_found queues cat idx (get_elem? cats (idx % length cats)) (find cats queues left (idx + 1))
      h (find-some cats queues left (idx + 1) cat)

abbrev pub HasDomain : Text → Type 0
HasDomain url = (domain : Text) × (domain_of url ≡ ok domain)

-- A domain can be read off each URL that waits.
abbrev pub AllReadable : Shards → Type 0
AllReadable queues = All (λ e. All HasDomain e.1) queues

pub AllReadable-queue :
    (queues : Shards) (cat : Text) → AllReadable queues → All HasDomain (queue queues cat)
unfolding get
AllReadable-queue [] cat h = tt
AllReadable-queue ((k, urls) ∷ queues) cat (h, hs) = elim (Bool-cases (equal k cat)) [
  | inl same ↦ rw same h
  | inr other ↦ rw other (AllReadable-queue queues cat hs)
]

pub AllReadable-put :
    (queues : Shards) (cat : Text) (urls : List Text)
    → AllReadable queues
    → All HasDomain urls
    → AllReadable (put equal queues cat urls)
unfolding put
AllReadable-put [] cat urls h r = (r, tt)
AllReadable-put ((k, old) ∷ queues) cat urls (h, hs) r = elim (Bool-cases (equal k cat)) [
  | inl same ↦ rw same (r, hs)
  | inr other ↦ rw other (h, AllReadable-put queues cat urls hs r)
]

-- A queue that is not empty is one of the dictionary's, which keeps its keys when it is replaced.
pub keys-put :
    (queues : Shards) (cat url : Text) (rest urls : List Text)
    → queue queues cat ≡ url ∷ rest
    → keys (put equal queues cat urls) ≡ keys queues
unfolding get put
keys-put [] cat url rest urls h = cc
keys-put ((k, old) ∷ queues) cat url rest urls h = elim (Bool-cases (equal k cat)) [
  | inl same ↦ rw same refl
  | inr other ↦ rw other (ap (λ ks. k ∷ ks) (keys-put queues cat url rest urls (rw other at h)))
]

pub fill_lem :
    (m : Dict Text Text) (urls : List Text) (queues : Shards)
    → IsDict equal equal_iff queues
    → AllReadable queues
    → All HasDomain urls
    → let filled = fill m queues urls in
      IsDict equal equal_iff filled
      × AllReadable filled
      × (waiting filled ≡ waiting queues + length urls)
unfolding fill
fill_lem m [] queues d r h = (d, r, omega arith)
fill_lem m (url ∷ urls) queues d r (first, h) =
    let cat = category_of url m in
    let dq = queue queues cat ++ url ∷ [] in
    let readable =
      All-append HasDomain (queue queues cat) (url ∷ []) (AllReadable-queue queues cat r)
        (first, tt) in
    let (d', r', grown) =
      fill_lem m urls (put equal queues cat dq) (put-IsDict equal equal_iff queues cat dq d)
        (AllReadable-put queues cat dq r readable) h in
    (
      d',
      r',
      omega (arith, grown, waiting-put queues cat dq, length-append (queue queues cat) (url ∷ [])),
    )

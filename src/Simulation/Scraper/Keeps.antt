-- ===== src/Simulation/Scraper/Keeps.antt =====
-- The URLs waiting and the URLs scraped, before and after a turn.
use scrape_grid.Prelude.{
  ℕ, ◌+◌, ◌≡◌, refl, ◌∙◌, ap, Option, none, some, List, [], ◌∷◌, arith, Bool, true, false,
  if◌then◌else◌, Bool-cases, inl, inr, length,
}
use scrape_grid.Result.{Result, ok, err}
use scrape_grid.Text.{Text, equal}
use scrape_grid.Floats.{FloatOps}
use scrape_grid.Dict.{get, put, or_default}
use scrape_grid.Simulation.Delay.{time_sleep}
use scrape_grid.Simulation.{Shards, queue, domain_of}
use scrape_grid.Simulation.Scraper.{
  SingleNodeScraper, Reading, Outcome, goes_on, finishes, halts, raises, sample, back_off,
  block_for, block, succeed, fetch, visit, pop_left, proceed, turn, find,
}

abbrev pub waiting : Shards → ℕ
waiting [] = 0
waiting ((cat, urls) ∷ queues) = length urls + waiting queues

pub waiting-put :
    (queues : Shards) (cat : Text) (urls : List Text)
    → waiting (put equal queues cat urls) + length (queue queues cat) ≡ waiting queues + length urls
unfolding get put
waiting-put [] cat urls = omega arith
waiting-put ((k, old) ∷ queues) cat urls = elim (Bool-cases (equal k cat)) [
  | inl h ↦ rw h (omega arith)
  | inr h ↦ rw h (omega (arith, waiting-put queues cat urls))
]

module _ (fl : FloatOps) (round_1 round_2 : fl.Float → fl.Float) where
  abbrev pub left : SingleNodeScraper fl → ℕ
  left s = waiting s.queues + s.urls_scraped

  -- What a turn leaves, with the URLs that an exception leaves in hand.
  abbrev pub tally : Outcome fl → ℕ
  tally (goes_on s) = left s
  tally (finishes s) = left s
  tally (halts s) = left s
  tally (raises e urls s) = left s + length urls

  back_off_lem :
      (s : SingleNodeScraper fl) (r : Reading fl) (slept : Result fl.Float)
      → tally (back_off fl round_1 round_2 s r slept) ≡ left s
  unfolding back_off
  back_off_lem s r (err e) = omega arith
  back_off_lem s r (ok t) = refl

  block_for_lem :
      (s : SingleNodeScraper fl) (r : Reading fl) (url cat domain : Text) (n : ℕ)
      (backoff : Result fl.Float)
      → tally (block_for fl round_1 round_2 s r url cat domain n backoff) ≡ left s + 1
  unfolding block_for
  block_for_lem s r url cat domain n (err e) = refl
  block_for_lem s r url cat domain n (ok backoff) =
      back_off_lem _ r (time_sleep fl backoff)
      ∙ omega (arith, waiting-put s.queues cat (url ∷ queue s.queues cat))

  either :
      (x y : Outcome fl) (b : Bool) (n : ℕ)
      → tally x ≡ n
      → tally y ≡ n
      → tally (if b then x else y) ≡ n
  either x y true n h k = h
  either x y false n h k = k

  fetch_lem :
      (s : SingleNodeScraper fl) (r : Reading fl) (url cat domain : Text) (waited : Result fl.Float)
      → tally (fetch fl round_1 round_2 s r url cat domain waited) ≡ left s + 1
  unfolding fetch block succeed
  fetch_lem s r url cat domain (err e) = refl
  fetch_lem s r url cat domain (ok t) =
      let n = or_default (get equal s.domain_req domain) 0 in
      either (block fl round_1 round_2 s r url cat domain n)
        (goes_on (succeed fl round_1 round_2 s domain n)) (r.fires n) (left s + 1)
        (block_for_lem s r url cat domain n _) (omega arith)

  visit_lem :
      (s : SingleNodeScraper fl) (r : Reading fl) (url cat : Text) (d : Result Text)
      → tally (visit fl round_1 round_2 s r url cat d) ≡ left s + 1
  unfolding visit
  visit_lem s r url cat (err e) = refl
  visit_lem s r url cat (ok domain) = fetch_lem _ r url cat domain _

  pop_left_lem :
      (s : SingleNodeScraper fl) (r : Reading fl) (cat : Text) (urls : List Text)
      → queue s.queues cat ≡ urls
      → tally (pop_left fl round_1 round_2 s r cat urls) ≡ left s
  unfolding pop_left
  pop_left_lem s r cat [] h = omega arith
  pop_left_lem s r cat (url ∷ rest) h =
      visit_lem (record s { queues = put equal s.queues cat rest }) r url cat (domain_of url)
      ∙ omega (arith, waiting-put s.queues cat rest, ap length h)

  proceed_lem :
      (s : SingleNodeScraper fl) (r : Reading fl) (found : Option Text)
      → tally (proceed fl round_1 round_2 s r found) ≡ left s
  unfolding proceed
  proceed_lem s r none = refl
  proceed_lem s r (some cat) = pop_left_lem s r cat (queue s.queues cat) refl

  sample-left :
      (s : SingleNodeScraper fl) (now : fl.Float) → left (sample fl round_1 round_2 s now) ≡ left s
  unfolding sample
  sample-left s now = ground arith

  -- However a turn goes, the count of the URLs that wait, that are scraped, and that an exception
  -- left in hand is what it was.
  pub turn-keeps :
      (s : SingleNodeScraper fl) (r : Reading fl) → tally (turn fl round_1 round_2 s r) ≡ left s
  unfolding turn
  turn-keeps s r =
      proceed_lem _ r (find s.categories s.queues (length s.categories) s.cat_idx).0
      ∙ sample-left s r.now

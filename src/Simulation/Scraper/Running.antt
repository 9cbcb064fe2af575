-- ===== src/Simulation/Scraper/Running.antt =====
-- A turn of the single scraper does not change whether it is to run.
use scrape_grid.Prelude.{
  ℕ, ◌≡◌, refl, ◌∙◌, Bool, true, false, Option, none, some, List, [], ◌∷◌, ◌++◌, if◌then◌else◌,
  length,
}
use scrape_grid.Result.{Result, ok, err}
use scrape_grid.Text.{Text, equal}
use scrape_grid.Floats.{FloatOps}
use scrape_grid.Dict.{get, or_default}
use scrape_grid.Simulation.Delay.{time_sleep}
use scrape_grid.Simulation.{queue, domain_of}
use scrape_grid.Simulation.Scraper.{
  SingleNodeScraper, Reading, Outcome, goes_on, finishes, halts, raises, sample, back_off,
  block_for, block, fetch, visit, succeed, pop_left, proceed, turn, find,
}

module _ (fl : FloatOps) where
  -- The scraper that a turn leaves, whether its thread goes on or ends.
  unfoldable pub left_by : Outcome fl → SingleNodeScraper fl
  left_by (goes_on s) = s
  left_by (finishes s) = s
  left_by (halts s) = s
  left_by (raises e urls s) = s

  module _ (round_1 round_2 : fl.Float → fl.Float) where
    abbrev Keeps : SingleNodeScraper fl → Outcome fl → Type 0
    Keeps s o = (left_by o).running ≡ s.running

    either :
        (s : SingleNodeScraper fl) (x y : Outcome fl) (b : Bool)
        → Keeps s x
        → Keeps s y
        → Keeps s (if b then x else y)
    either s x y true h k = h
    either s x y false h k = k

    back_off-Keeps :
        (s : SingleNodeScraper fl) (r : Reading fl) (slept : Result fl.Float)
        → Keeps s (back_off fl round_1 round_2 s r slept)
    unfolding back_off left_by
    back_off-Keeps s r (err e) = refl
    back_off-Keeps s r (ok t) = refl

    block_for-Keeps :
        (s : SingleNodeScraper fl) (r : Reading fl) (url cat domain : Text) (n : ℕ)
        (backoff : Result fl.Float)
        → Keeps s (block_for fl round_1 round_2 s r url cat domain n backoff)
    unfolding block_for left_by
    block_for-Keeps s r url cat domain n (err e) = refl
    block_for-Keeps s r url cat domain n (ok backoff) = back_off-Keeps _ r (time_sleep fl backoff)

    fetch-Keeps :
        (s : SingleNodeScraper fl) (r : Reading fl) (url cat domain : Text)
        (waited : Result fl.Float)
        → Keeps s (fetch fl round_1 round_2 s r url cat domain waited)
    unfolding fetch block succeed left_by
    fetch-Keeps s r url cat domain (err e) = refl
    fetch-Keeps s r url cat domain (ok t) =
        let n = or_default (get equal s.domain_req domain) 0 in
        either s (block fl round_1 round_2 s r url cat domain n)
          (goes_on (succeed fl round_1 round_2 s domain n)) (r.fires n)
          (block_for-Keeps s r url cat domain n _) refl

    visit-Keeps :
        (s : SingleNodeScraper fl) (r : Reading fl) (url cat : Text) (d : Result Text)
        → Keeps s (visit fl round_1 round_2 s r url cat d)
    unfolding visit left_by
    visit-Keeps s r url cat (err e) = refl
    visit-Keeps s r url cat (ok domain) = fetch-Keeps _ r url cat domain _

    pop_left-Keeps :
        (s : SingleNodeScraper fl) (r : Reading fl) (cat : Text) (urls : List Text)
        → Keeps s (pop_left fl round_1 round_2 s r cat urls)
    unfolding pop_left left_by
    pop_left-Keeps s r cat [] = refl
    pop_left-Keeps s r cat (url ∷ rest) = visit-Keeps _ r url cat (domain_of url)

    proceed-Keeps :
        (s : SingleNodeScraper fl) (r : Reading fl) (found : Option Text)
        → Keeps s (proceed fl round_1 round_2 s r found)
    unfolding proceed left_by
    proceed-Keeps s r none = refl
    proceed-Keeps s r (some cat) = pop_left-Keeps s r cat (queue s.queues cat)

    either_sampled :
        (s x y : SingleNodeScraper fl) (b : Bool)
        → x.running ≡ s.running
        → y.running ≡ s.running
        → (if b then x else y).running ≡ s.running
    either_sampled s x y true h k = h
    either_sampled s x y false h k = k

    sample_running :
        (s : SingleNodeScraper fl) (now : fl.Float)
        → (sample fl round_1 round_2 s now).running ≡ s.running
    unfolding sample
    sample_running s now =
        either_sampled s
          (record s {
            throughput_history = s.throughput_history ++ (round_1 now, s.urls_scraped) ∷ [];
            last_snapshot = now;
          })
          s (fl.le (fl.of_ℕ 1) (fl.sub now s.last_snapshot)) refl refl

    pub turn-Keeps :
        (s : SingleNodeScraper fl) (r : Reading fl) → Keeps s (turn fl round_1 round_2 s r)
    unfolding turn
    turn-Keeps s r =
        proceed-Keeps _ r (find s.categories s.queues (length s.categories) s.cat_idx).0
        ∙ sample_running s r.now

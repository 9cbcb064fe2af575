-- ===== src/Simulation/Scraper.antt =====
-- `SingleNodeScraper` of simulation.py. `turn` is the body of the loop of `_run`, and
-- `run_once` the body with the test that heads the loop: the readings of the clock, the page's
-- `simulated_latency_ms`, the time slept and the draw of `_ip_block_fires` are the fields of
-- `Reading`. `round_1` and `round_2` are `round(_, 1)` and `round(_, 2)`.
pub mod Keeps
pub mod Rounds
pub mod Search
pub mod Snapshot
pub mod Readable
pub mod Progress
pub mod Running
use scrape_grid.Prelude.{
  ℕ, zero, suc, ◌+◌, ◌*◌, ◌^◌, ◌%◌, min, Bool, true, false, Option, none, some, List, [], ◌∷◌, ◌++◌,
  ◌==◌, if◌then◌else◌, length, get_elem?,
}
use scrape_grid.Result.{Result, ok, err, PyError, index_error}
use scrape_grid.Text.{Text, equal}
use scrape_grid.Floats.{FloatOps}
use scrape_grid.Dict.{Dict, get, put, or_default, keys}
use scrape_grid.Simulation.Delay.{quotient, time_sleep, wait_page}
use scrape_grid.Simulation.{Shards, queue, domain_of, category_of}

-- The strings of `status`, by what they are made from.
pub data Status : Type 0 where
  idle done : Status
  scraping blocked : Text → Status

-- `__init__` fills one queue per category.
unfoldable pub fill : Dict Text Text → Shards → List Text → Shards
unfolding category_of put
fill domain_map queues [] = queues
fill domain_map queues (url ∷ urls) =
    let cat = category_of url domain_map in
    fill domain_map (put equal queues cat (queue queues cat ++ url ∷ [])) urls

-- The search for a category with URLs, from `cat_idx` on, with the index it ends at.
unfoldable pub find : List Text → Shards → (left cat_idx : ℕ) → Option Text × ℕ
find categories queues zero cat_idx = (none, cat_idx)
find categories queues (suc left) cat_idx =
    let rest = find categories queues left (cat_idx + 1) in
    elim (get_elem? categories (cat_idx % length categories)) [
      | none ↦ rest
      | some cat ↦ elim (queue queues cat) [ [] ↦ rest | url ∷ urls ↦ (some cat, cat_idx + 1) ]
    ]

module _ (fl : FloatOps) where
  open fl use {Float, zero, of_ℕ, literal, add, sub, mul, div, le}

  pub record Block : Type 0 where
    pub time : Float
    pub domain : Text
    pub category : Text
    pub requests_before_block : ℕ
    pub backoff_s : Float

  pub record SingleNodeScraper : Type 0 where
    pub domain_map : Dict Text Text
    pub speed : Float
    pub queues : Shards
    pub domain_req : Dict Text ℕ
    pub urls_scraped : ℕ
    pub blocks : ℕ
    pub block_events : List Block
    pub status : Status
    pub current_domain : Option Text
    pub dead_time_s : Float
    pub throughput_history : List (Float × ℕ)
    pub running : Bool
    -- the locals of `_run`
    pub categories : List Text
    pub cat_idx : ℕ
    pub last_snapshot : Float

  unfoldable pub init : List Text → Dict Text Text → (speed : Float) → SingleNodeScraper
  unfolding fill
  init url_pool domain_map speed = record {
    domain_map = domain_map;
    speed = speed;
    queues = fill domain_map [] url_pool;
    domain_req = [];
    urls_scraped = 0;
    blocks = 0;
    block_events = [];
    status = idle;
    current_domain = none;
    dead_time_s = zero;
    throughput_history = [];
    running = false;
    categories = [];
    cat_idx = 0;
    last_snapshot = zero;
  }

  -- With the lines of `_run` before its loop, in the thread that is started.
  unfoldable pub start : SingleNodeScraper → SingleNodeScraper
  start s = record s {
    running = true;
    categories = keys s.queues;
    cat_idx = 0;
    last_snapshot = zero;
  }

  unfoldable pub stop : SingleNodeScraper → SingleNodeScraper
  stop s = record s { running = false }

  pub record Reading : Type 0 where
    pub now : Float
    pub simulated_latency_ms : ℕ
    pub block_at : Float
    pub slept : Float
    pub fires : ℕ → Bool

  -- How a turn ends: the loop goes on, finds no URL, or finds the scraper stopped; an exception ends
  -- the thread, with the URLs that it has in hand.
  pub data Outcome : Type 0 where
    goes_on finishes halts : SingleNodeScraper → Outcome
    raises : PyError → List Text → SingleNodeScraper → Outcome

  module _ (round_1 round_2 : Float → Float) where
    -- The throughput snapshot of every second.
    unfoldable pub sample : SingleNodeScraper → Float → SingleNodeScraper
    sample s now =
        if le (of_ℕ 1) (sub now s.last_snapshot)
        then record s {
          throughput_history = s.throughput_history ++ (round_1 now, s.urls_scraped) ∷ [];
          last_snapshot = now;
        }
        else s

    -- The end of a block, once the thread has slept or failed to.
    unfoldable pub back_off : SingleNodeScraper → Reading → Result Float → Outcome
    back_off s r (err e) = raises e [] s
    back_off s r (ok t) = goes_on (record s { dead_time_s = add s.dead_time_s r.slept })

    -- The branch where a block fires, once the backoff is computed or has failed to be, `url` being
    -- off its queue.
    unfoldable pub block_for :
        SingleNodeScraper → Reading → (url cat domain : Text) → ℕ → Result Float → Outcome
    unfolding back_off time_sleep put
    block_for s r url cat domain req_count (err e) = raises e (url ∷ []) s
    block_for s r url cat domain req_count (ok backoff) =
        back_off
          (record s {
            blocks = s.blocks + 1;
            block_events =
                s.block_events
                ++ record {
                  time = round_1 r.block_at;
                  domain = domain;
                  category = cat;
                  requests_before_block = req_count;
                  backoff_s = round_2 backoff;
                }
                  ∷ [];
            status = blocked cat;
            domain_req = put equal s.domain_req domain 0;
            queues = put equal s.queues cat (url ∷ queue s.queues cat);
          })
          r (time_sleep fl backoff)

    unfoldable pub block : SingleNodeScraper → Reading → (url cat domain : Text) → ℕ → Outcome
    unfolding quotient block_for
    block s r url cat domain req_count =
        block_for s r url cat domain req_count
          (quotient fl (mul (of_ℕ (2 ^ min s.blocks 5)) (literal 5 10)) s.speed)

    unfoldable pub succeed : SingleNodeScraper → (domain : Text) → ℕ → SingleNodeScraper
    unfolding put
    succeed s domain req_count = record s {
      domain_req = put equal s.domain_req domain (req_count + 1);
      urls_scraped = s.urls_scraped + 1;
    }

    -- The turn once the page has been waited for, or the wait has failed.
    unfoldable pub fetch :
        SingleNodeScraper → Reading → (url cat domain : Text) → Result Float → Outcome
    unfolding block succeed get
    fetch s r url cat domain (err e) = raises e (url ∷ []) s
    fetch s r url cat domain (ok t) =
        let req_count = or_default (get equal s.domain_req domain) 0 in
        if r.fires req_count
        then block s r url cat domain req_count
        else goes_on (succeed s domain req_count)

    -- A URL off its queue, with the domain read from it.
    unfoldable pub visit : SingleNodeScraper → Reading → (url cat : Text) → Result Text → Outcome
    unfolding fetch wait_page
    visit s r url cat (err e) = raises e (url ∷ []) s
    visit s r url cat (ok domain) =
        fetch (record s { status = scraping cat; current_domain = some cat }) r url cat domain
          (wait_page fl r.simulated_latency_ms s.speed (literal 3 10))

    -- `popleft` of the category found; on an empty queue it is an `IndexError`.
    unfoldable pub pop_left : SingleNodeScraper → Reading → (cat : Text) → List Text → Outcome
    unfolding visit domain_of put
    pop_left s r cat [] = raises index_error [] s
    pop_left s r cat (url ∷ rest) =
        visit (record s { queues = put equal s.queues cat rest }) r url cat (domain_of url)

    unfoldable pub proceed : SingleNodeScraper → Reading → Option Text → Outcome
    unfolding pop_left
    proceed s r none = finishes (record s { status = done })
    proceed s r (some cat) = pop_left s r cat (queue s.queues cat)

    unfoldable pub turn : SingleNodeScraper → Reading → Outcome
    unfolding sample find proceed
    turn s r =
        let sampled = sample s r.now in
        let (found, cat_idx) = find s.categories s.queues (length s.categories) s.cat_idx in
        proceed (record sampled { cat_idx = cat_idx }) r found

    unfoldable pub run_once : SingleNodeScraper → Reading → Outcome
    unfolding turn
    run_once s r = if s.running then turn s r else halts s

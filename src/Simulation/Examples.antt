-- ===== src/Simulation/Examples.antt =====
-- Turns of a worker and of the single scraper over thousandths, and a small reduction.
use scrape_grid.Prelude.{
  ℕ, ◌+◌, ◌≡◌, refl, ◌↔◌, All, true, false, none, some, List, [], ◌∷◌, ltb, arith, replicate,
}
use scrape_grid.Result.{ok, ◌>>=◌}
use scrape_grid.BloomFilter.{BloomFilter}
use scrape_grid.BloomFilter.Bytes.{AreBytes-blank}
use scrape_grid.Simulation.Prepass
use scrape_grid.Simulation.Prepass.{Pool, prepass, IsSifted, prepass_lem}
use scrape_grid.Prelude.Int.{ℤ, pos}
use scrape_grid.Text.{Text, equal}
use scrape_grid.Dict.{get}
use scrape_grid.Floats.Fixed.{fixed}
use scrape_grid.Simulation.{domain_of}
use scrape_grid.Simulation.Worker
use scrape_grid.Simulation.Worker.{World, Note, Page, DistributedWorker, Reading}
use scrape_grid.Simulation.Worker.Turn.{pass}
use scrape_grid.Simulation.Conservation.{tally, held, pass-keeps}
use scrape_grid.Simulation.Scraper
use scrape_grid.Simulation.Scraper.{SingleNodeScraper, goes_on, init, start, turn, run_once}
use scrape_grid.Simulation.Scraper.Readable.{HasDomain}
use scrape_grid.Simulation.Scraper.Search.{IsReady, Finishes, turn-Finishes_iff}
use scrape_grid.Simulation.Scraper.Progress
use scrape_grid.Simulation.Scraper.Progress.{run-scrapes}
use scrape_grid.Simulation.Scraper.Keeps
use scrape_grid.Simulation.Scraper.Keeps.{waiting, left, turn-keeps}
use scrape_grid.Simulation.MapReduce.{Input, run_mapreduce, of_category}
use scrape_grid.Simulation.MapReduce.Groups.{summarised, run_mapreduce_lem}

-- "a://d/p"
abbrev page_url : Text
page_url = b'a' ∷ b':' ∷ b'/' ∷ b'/' ∷ b'd' ∷ b'/' ∷ b'p' ∷ []

abbrev news : Text
news = b'n' ∷ []

abbrev tech : Text
tech = b't' ∷ []

abbrev same : ℤ → ℤ
same x = x

abbrev told : Note → Text
told n = []

abbrev content : Text → Page fixed
content url = record { word_count = 200; simulated_latency_ms = 500; quality_score = pos 700 }

abbrev world : World fixed
world = record {
  shards = (news, []) ∷ (tech, page_url ∷ page_url ∷ []) ∷ [];
  domain_map = (page_url, tech) ∷ [];
  buckets = [];
  results = [];
  clock = record { value = 3 };
  events = record { events = [] };
  known_nodes = [];
}

worker : DistributedWorker fixed
worker = Worker.init fixed 0 news (pos 2000) 4

abbrev reading : Reading fixed
reading = record {
  gate_at = pos 0;
  consume_at = pos 0;
  failure_at = pos 0;
  elapsed = pos 0;
  fires = λ n. ltb 2 n;
}

domain_read : domain_of page_url ≡ ok (b'd' ∷ [])
unfolding domain_of
domain_read = refl

pass-keeps_example :
    tally fixed same told content page_url (pass fixed same told content world worker reading)
    ≡ held fixed same told content page_url world
pass-keeps_example = pass-keeps fixed same told content page_url world worker reading

scraper : SingleNodeScraper fixed
scraper = record {
  domain_map = (page_url, tech) ∷ [];
  speed = pos 2000;
  queues = (news, []) ∷ (tech, page_url ∷ []) ∷ [];
  domain_req = [];
  urls_scraped = 5;
  blocks = 0;
  block_events = [];
  status = Scraper.idle;
  current_domain = none;
  dead_time_s = pos 0;
  throughput_history = [];
  running = true;
  categories = news ∷ tech ∷ [];
  cat_idx = 0;
  last_snapshot = pos 0;
}

abbrev scraper_reading : Scraper.Reading fixed
scraper_reading = record {
  now = pos 1000;
  simulated_latency_ms = 500;
  block_at = pos 1100;
  slept = pos 250;
  fires = λ n. true;
}

turn-keeps_example :
    Keeps.tally fixed same same (turn fixed same same scraper scraper_reading)
    ≡ left fixed same same scraper
turn-keeps_example = turn-keeps fixed same same scraper scraper_reading

scraper-IsReady : IsReady fixed same same scraper
unfolding scraper get equal
scraper-IsReady = record { dict = (refl, (refl, tt)); complete = refl }

turn-Finishes_iff_example :
    Finishes fixed same same (turn fixed same same scraper scraper_reading)
    ↔ (waiting scraper.queues ≡ 0)
turn-Finishes_iff_example =
    turn-Finishes_iff fixed same same scraper scraper_reading scraper-IsReady

abbrev calm : Scraper.Reading fixed
calm = record {
  now = pos 1000;
  simulated_latency_ms = 500;
  block_at = pos 0;
  slept = pos 0;
  fires = λ n. false;
}

abbrev pool : List Text
pool = page_url ∷ page_url ∷ []

readable : All HasDomain pool
readable = ((b'd' ∷ [], domain_read), ((b'd' ∷ [], domain_read), tt))

run-scrapes_example :
    (s : SingleNodeScraper fixed) × (Progress.run fixed same same
        (start fixed (init fixed pool [] (pos 2000)))
        (calm ∷ calm ∷ [])
      ≡ goes_on s)
    × (s.urls_scraped ≡ 2)
    × ((r : Scraper.Reading fixed) → Finishes fixed same same (run_once fixed same same s r))
run-scrapes_example =
    run-scrapes fixed same same pool [] (pos 2000) (calm ∷ calm ∷ []) readable refl
      ((λ n. refl), ((λ n. refl), tt)) refl

abbrev results : List (Input fixed)
results =
    record { category = some tech; quality_score = some (pos 500); word_count = some 10 }
    ∷ record { category = none; quality_score = none; word_count = some 7 }
    ∷ record { category = some tech; quality_score = some (pos 700); word_count = none }
    ∷ []

run_mapreduce_lem_example :
    get equal (run_mapreduce fixed same same results) tech
    ≡ summarised fixed same same (of_category fixed same same tech results)
run_mapreduce_lem_example = run_mapreduce_lem fixed same same results tech

abbrev filter : BloomFilter ℕ
filter = record {
  capacity = 5;
  fp_rate = 1;
  bit_size = 20;
  hash_count = 3;
  bits = replicate 3 0;
  item_count = 0;
  duplicates_caught = 0;
}

filter-IsSifted : IsSifted (λ t. t) (filter, [])
filter-IsSifted = record {
  valid = record { sized = omega arith; stored = refl; bytes = AreBytes-blank 3 };
  found = tt;
  distinct = tt;
}

abbrev raw : List Text
raw = news ∷ tech ∷ news ∷ []

sifted : (prepass (λ t. t) (filter, []) raw >>= λ pool. ok (pool.1)) ≡ ok (news ∷ tech ∷ [])
unfolding prepass equal scrape_grid.BloomFilter.raw_hash scrape_grid.Text.decimal
sifted = refl

prepass_lem_example :
    (pool : Pool ℕ) × (prepass (λ t. t) (filter, []) raw ≡ ok pool)
    × IsSifted (λ t. t) pool
    × (Prepass.total (λ t. t) pool ≡ Prepass.total (λ t. t) (filter, []) + 3)
prepass_lem_example = prepass_lem (λ t. t) (filter, []) raw filter-IsSifted

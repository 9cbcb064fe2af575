-- ===== src/Simulation/Fleet/Snapshot.antt =====
-- The reports of `DistributedFleet`. Reading the fill of a bucket refills it.
use scrape_grid.Prelude.{
  ℕ, ◌+◌, Bool, true, false, Option, none, List, [], ◌∷◌, if◌then◌else◌, length, take_last,
}
use scrape_grid.Result.{Result, ok, err, ◌>>=◌}
use scrape_grid.Text.{Text}
use scrape_grid.Floats.{FloatOps}
use scrape_grid.Dict.{Dict}
use scrape_grid.CircuitBreaker.{State, cooldown_remaining}
use scrape_grid.Clocks.Vector
use scrape_grid.TokenBucket.{TokenBucket, fill_level}
use scrape_grid.Simulation.{Shards}
use scrape_grid.Simulation.Worker.{
  DistributedWorker, Scraped, Status, idle, dead, done, cooling, scraping, blocked,
}
use scrape_grid.Simulation.MapReduce.{Stats}
use scrape_grid.Simulation.Scraper.Snapshot.{rate}
use scrape_grid.Simulation.Fleet.{DistributedFleet, ScaleEvent, BlockEvent}

-- The status is neither "dead" nor "done"; no category has one of these words in its name.
unfoldable pub is_active : Status → Bool
is_active dead = false
is_active done = false
is_active idle = true
is_active (cooling shard) = true
is_active (scraping cat) = true
is_active (blocked cat) = true

unfoldable pub get_work_queue_sizes : Shards → Dict Text ℕ
get_work_queue_sizes [] = []
get_work_queue_sizes ((cat, dq) ∷ shards) = (cat, length dq) ∷ get_work_queue_sizes shards

module _ (fl : FloatOps) where
  open fl use {Float}

  pub record WorkerSnapshot : Type 0 where
    pub status : Status
    pub circuit_state : State
    pub urls_scraped : ℕ
    pub blocks : ℕ
    pub domain : Option Text
    pub tasks_stolen : ℕ
    pub cooldown_remaining : Float

  -- `DistributedWorker.snapshot`
  unfoldable pub worker_snapshot : DistributedWorker fl → Float → WorkerSnapshot
  unfolding cooldown_remaining
  worker_snapshot w now = record {
    status = w.status;
    circuit_state = w.cb.state;
    urls_scraped = w.urls_scraped;
    blocks = w.blocks;
    domain = w.current_domain;
    tasks_stolen = w.tasks_stolen;
    cooldown_remaining = cooldown_remaining fl w.cb now;
  }

  unfoldable pub nodes_snap : Dict ℕ (DistributedWorker fl) → Float → Dict ℕ WorkerSnapshot
  unfolding worker_snapshot
  nodes_snap [] now = []
  nodes_snap ((nid, w) ∷ workers) now = (nid, worker_snapshot w now) ∷ nodes_snap workers now

  -- The sums over the workers' snapshots.
  unfoldable pub active_count : Dict ℕ WorkerSnapshot → ℕ
  unfolding is_active
  active_count [] = 0
  active_count ((nid, n) ∷ nodes) = (if is_active n.status then 1 else 0) + active_count nodes

  unfoldable pub sum_of : (WorkerSnapshot → ℕ) → Dict ℕ WorkerSnapshot → ℕ
  sum_of field [] = 0
  sum_of field ((nid, n) ∷ nodes) = field n + sum_of field nodes

  unfoldable pub vector_clocks : Dict ℕ (DistributedWorker fl) → Dict ℕ (List ℕ)
  unfolding Vector.snapshot
  vector_clocks [] = []
  vector_clocks ((nid, w) ∷ workers) = (nid, Vector.snapshot w.vc) ∷ vector_clocks workers

  unfoldable pub get_results : DistributedFleet fl → List (Scraped fl)
  get_results f = f.world.results

  pub record FleetSnapshot : Type 0 where
    pub urls_scraped : ℕ
    pub blocks : ℕ
    pub stolen_tasks : ℕ
    pub active_node_count : ℕ
    pub nodes : Dict ℕ WorkerSnapshot
    pub rate : Float
    pub scale_events : List (ScaleEvent fl)
    pub block_events : List (BlockEvent fl)
    pub throughput_history : List (Float × ℕ)
    pub vector_clocks : Dict ℕ (List ℕ)
    pub mapreduce_results : Option (Dict Text (Stats fl))

  unfoldable pub snapshot : (round_1 : Float → Float) → DistributedFleet fl → Float → FleetSnapshot
  unfolding nodes_snap active_count sum_of vector_clocks rate
  snapshot round_1 f now =
      let nodes = nodes_snap f.workers now in
      record {
        urls_scraped = sum_of (λ n. n.urls_scraped) nodes;
        blocks = sum_of (λ n. n.blocks) nodes;
        stolen_tasks = sum_of (λ n. n.tasks_stolen) nodes;
        active_node_count = active_count nodes;
        nodes = nodes;
        rate = rate fl round_1 f.throughput_history;
        scale_events = f.scale_events;
        block_events = take_last 50 f.block_events;
        throughput_history = f.throughput_history;
        vector_clocks = vector_clocks f.workers;
        mapreduce_results = none;
      }

  pub record BucketStats : Type 0 where
    pub fill : Float
    pub consumed : ℕ

  -- A bucket's entry, and the entries of the buckets behind it.
  unfoldable pub bucket_entry :
      (round_3 : Float → Float)
      → Text
      → Result Float × TokenBucket fl
      → Dict Text (TokenBucket fl)
      → Result (Dict Text BucketStats) × Dict Text (TokenBucket fl)
      → Result (Dict Text BucketStats) × Dict Text (TokenBucket fl)
  bucket_entry round_3 cat (err e, b) unread rest = (err e, (cat, b) ∷ unread)
  bucket_entry round_3 cat (ok level, b) unread (stats, buckets) = (
    stats >>= λ entries.
        ok ((cat, record { fill = round_3 level; consumed = b.total_consumed }) ∷ entries),
    (cat, b) ∷ buckets,
  )

  unfoldable pub get_token_bucket_stats :
      (round_3 : Float → Float)
      → Dict Text (TokenBucket fl)
      → Float
      → Result (Dict Text BucketStats) × Dict Text (TokenBucket fl)
  unfolding fill_level bucket_entry
  get_token_bucket_stats round_3 [] now = (ok [], [])
  get_token_bucket_stats round_3 ((cat, b) ∷ buckets) now =
      bucket_entry round_3 cat (fill_level fl b now) buckets
        (get_token_bucket_stats round_3 buckets now)

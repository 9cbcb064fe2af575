-- ===== src/Simulation/Fleet.antt =====
-- `DistributedFleet` of simulation.py. `md5` is the digest of the ring; `round_1` and `round_2` are
-- `round(_, 1)` and `round(_, 2)`, `message` renders the f-strings of the log, and `elapsed` is a
-- reading of the clock. The data that the workers share is in `world`.
pub mod Assignment
pub mod Lifecycle
pub mod Autoscale
pub mod Scaling
pub mod Limits
pub mod Building
pub mod Snapshot
pub mod Rest
pub mod Rewriting
pub mod Unchanged
pub mod Population
mod Examples
pub mod Run
pub mod Sleepers
pub mod Dealing
pub mod Shares
use scrape_grid.Prelude.{
  ℕ, zero, suc, ◌+◌, ◌-◌, ◌%◌, max, Bool, true, false, not, ◌&&◌, ◌||◌, Option, none, some, List,
  [], ◌∷◌, ◌++◌, ltb, ◌==◌, if◌then◌else◌, length, get_elem?,
}
use scrape_grid.Result.{Result, ok, err, index_error, zero_division_error}
use scrape_grid.Text.{Text, codes, equal, decimal}
use scrape_grid.Floats.{FloatOps, lt}
use scrape_grid.Dict.{Dict, get, put, keys}
use scrape_grid.TokenBucket
use scrape_grid.TokenBucket.{TokenBucket}
use scrape_grid.CircuitBreaker.{State, opened, closed, half_open}
use scrape_grid.HashRing.{ConsistentHashRing, get_node}
use scrape_grid.UrlGenerator.{domain_categories}
use scrape_grid.Simulation.{Shards, queue, category_of}
use scrape_grid.Simulation.Worker
use scrape_grid.Simulation.Worker.{
  World, DistributedWorker, Status, idle, dead, done, cooling, scraping, blocked, Note, spawned,
  killed_node, scaled_up, scaled_down, success, warning, report, kill,
}

-- `"blocked" in status`; no category has the word in its name.
unfoldable pub is_blocked : Status → Bool
is_blocked (blocked cat) = true
is_blocked idle = false
is_blocked dead = false
is_blocked done = false
is_blocked (cooling shard) = false
is_blocked (scraping cat) = false

-- The values that a scale event gives as its reason.
pub data Reason : Type 0 where
  busy : (queue_depth blocked_n : ℕ) → Reason
  low_load : (queue_depth : ℕ) → Reason

module _ (fl : FloatOps) where
  open fl use {Float, of_ℕ, le}

  pub record ScaleEvent : Type 0 where
    pub time : Float
    pub from_n : ℕ
    pub to_n : ℕ
    pub reason : Reason

  pub record BlockEvent : Type 0 where
    pub time : Float
    pub category : Text

  pub record DistributedFleet : Type 0 where
    pub world : World fl
    pub workers : Dict ℕ (DistributedWorker fl)
    pub next_id : ℕ
    pub running : Bool
    pub speed : Float
    pub max_nodes : ℕ
    pub min_nodes : ℕ
    pub auto_scale : Bool
    pub ring : ConsistentHashRing
    pub scale_events : List ScaleEvent
    pub block_events : List BlockEvent
    pub throughput_history : List (Float × ℕ)

  -- The buckets, each of which reads the clock once.
  unfoldable pub make_buckets : Float → List Text → Dict Text (TokenBucket fl)
  unfolding TokenBucket.init
  make_buckets now [] = []
  make_buckets now (cat ∷ cats) =
      (cat, TokenBucket.init fl (of_ℕ 15) (of_ℕ 30) now) ∷ make_buckets now cats

  unfoldable pub each :
      (DistributedWorker fl → DistributedWorker fl)
      → Dict ℕ (DistributedWorker fl)
      → Dict ℕ (DistributedWorker fl)
  each f [] = []
  each f ((nid, w) ∷ workers) = (nid, f w) ∷ each f workers

  unfoldable pub start : DistributedFleet → DistributedFleet
  unfolding each Worker.start
  start f = record f { running = true; workers = each (Worker.start fl) f.workers }

  unfoldable pub stop : DistributedFleet → DistributedFleet
  unfolding each Worker.stop
  stop f = record f { running = false; workers = each (Worker.stop fl) f.workers }

  -- The sum of `urls_scraped`.
  unfoldable pub scraped : Dict ℕ (DistributedWorker fl) → ℕ
  scraped [] = 0
  scraped ((nid, w) ∷ workers) = w.urls_scraped + scraped workers

  -- `current_domain or "?"`
  unfoldable pub shown : Option Text → Text
  shown none = codes "?"
  shown (some []) = codes "?"
  shown (some (c ∷ cs)) = c ∷ cs

  -- An event like the last one is not noted again.
  unfoldable pub note_block : List BlockEvent → BlockEvent → List BlockEvent
  unfolding equal
  note_block [] e = e ∷ []
  note_block (x ∷ []) e =
      if le x.time e.time && (le e.time x.time && equal x.category e.category)
      then x ∷ []
      else x ∷ e ∷ []
  note_block (x ∷ y ∷ es) e = x ∷ note_block (y ∷ es) e

  unfoldable pub note_blocks :
      Float → List BlockEvent → Dict ℕ (DistributedWorker fl) → List BlockEvent
  unfolding is_blocked shown note_block
  note_blocks time events [] = events
  note_blocks time events ((nid, w) ∷ workers) =
      note_blocks time
        (if is_blocked w.status
          then note_block events (record { time = time; category = shown w.current_domain })
          else events)
        workers

  -- The body of the loop of `_snapshot_loop`.
  unfoldable pub sample : (Float → Float) → DistributedFleet → Float → DistributedFleet
  unfolding scraped note_blocks
  sample round_1 f now = record f {
    throughput_history = f.throughput_history ++ (round_1 now, scraped f.workers) ∷ [];
    block_events = note_blocks (round_1 now) f.block_events f.workers;
  }

  unfoldable pub snapshot_turn : (Float → Float) → DistributedFleet → Float → DistributedFleet
  unfolding sample
  snapshot_turn round_1 f now = if f.running then sample round_1 f now else f

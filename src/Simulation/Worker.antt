-- ===== src/Simulation/Worker.antt =====
-- `DistributedWorker` of simulation.py: its data, the data that the workers of a fleet share, and
-- the log calls. `round_2` is `round(_, 2)`, and `message` renders the f-strings of the log.
pub mod Steal
pub mod Turn
pub mod Identity
pub mod Results
use scrape_grid.Prelude.{
  ℕ, ◌+◌, ◌%◌, max, Bool, true, false, not, ◌&&◌, Option, none, some, List, [], ◌∷◌, ◌++◌, ltb,
  ◌==◌, if◌then◌else◌, length,
}
use scrape_grid.Result.{Result, ok, err, PyError}
use scrape_grid.Text.{Text, equal, decimal, codes}
use scrape_grid.Floats.{FloatOps}
use scrape_grid.Dict.{Dict, get, put, or_default}
use scrape_grid.CircuitBreaker.{
  CircuitBreaker, State, allow_request, record_success, record_failure,
}
use scrape_grid.CircuitBreaker
use scrape_grid.TokenBucket.{TokenBucket, consume}
use scrape_grid.Clocks.Lamport.{LamportClock, increment}
use scrape_grid.Clocks.Vector.{VectorClock, tick}
use scrape_grid.Clocks.Vector
use scrape_grid.EventLog.{EventLog, log}
use scrape_grid.Simulation.{Shards, queue, domain_of, category_of}

-- The strings of `status`, by what they are made from.
pub data Status : Type 0 where
  idle dead done : Status
  cooling scraping blocked : Text → Status

-- What the gossip protocol is told of a worker's status: "scraping", or its `status`.
pub data Activity : Type 0 where
  scraping_now : Activity
  status_is : Status → Activity

-- The messages that the classes of simulation.py log, by the values they hold; the one of a block also
-- shows the breaker's `cooldown_remaining`, a reading of the clock.
pub data Note : Type 0 where
  stole : Text → ℕ → Note
  ip_blocked : Text → Text → ℕ → State → Note
  spawned : ℕ → Text → Note
  killed_node : ℕ → Note
  scaled_up scaled_down : (n queue_depth blocked_n : ℕ) → Note
  initialised : (pool unique caught : ℕ) → Note
  race_started : Note
  leader_crashed recovered : ℕ → Note
  race_finished : (single distributed categories : ℕ) → Note

-- The locals of `_run` that a turn keeps while it sleeps.
pub record Job : Type 0 where
  pub url : Text
  pub cat : Text
  pub domain : Text

abbrev pub info : Text
info = codes "info"

abbrev pub success : Text
success = codes "success"

abbrev pub warning : Text
warning = codes "warning"

abbrev pub error : Text
error = codes "error"

-- f"Node-{node_id}"
unfoldable pub node_name : ℕ → Text
unfolding decimal
node_name n = codes "Node-" ++ decimal n

module _ (fl : FloatOps) where
  open fl use {Float, of_ℕ}

  pub record Page : Type 0 where
    pub word_count : ℕ
    pub simulated_latency_ms : ℕ
    pub quality_score : Float

  -- An element of the result store.
  pub record Scraped : Type 0 where
    pub url : Text
    pub content : Page
    pub category : Text
    pub node_id : ℕ
    pub lamport : ℕ
    pub vector : List ℕ

  -- What the gossip protocol is told of a worker.
  pub record Report : Type 0 where
    pub activity : Activity
    pub urls : ℕ
    pub lamport : ℕ

  -- What the workers of a fleet share.
  pub record World : Type 0 where
    pub shards : Shards
    pub domain_map : Dict Text Text
    pub buckets : Dict Text (TokenBucket fl)
    pub results : List Scraped
    pub clock : LamportClock
    pub events : EventLog Float
    pub known_nodes : Dict ℕ Report

  pub record DistributedWorker : Type 0 where
    pub node_id : ℕ
    pub shard_name : Text
    pub speed : Float
    pub cb : CircuitBreaker fl
    pub vc : VectorClock
    pub domain_req : Dict Text ℕ
    pub urls_scraped : ℕ
    pub blocks : ℕ
    pub tasks_stolen : ℕ
    pub status : Status
    pub current_domain : Option Text
    pub running : Bool
    pub killed : Bool

  unfoldable pub init : (node_id : ℕ) → Text → (speed : Float) → (num_nodes : ℕ) → DistributedWorker
  init node_id shard_name speed num_nodes = record {
    node_id = node_id;
    shard_name = shard_name;
    speed = speed;
    cb = CircuitBreaker.init fl 1;
    vc = Vector.init (node_id % max num_nodes 1) num_nodes;
    domain_req = [];
    urls_scraped = 0;
    blocks = 0;
    tasks_stolen = 0;
    status = idle;
    current_domain = none;
    running = false;
    killed = false;
  }

  -- The part of `start` that changes the worker; the thread's turns are `pass`.
  unfoldable pub start : DistributedWorker → DistributedWorker
  start s = record s { running = true }

  unfoldable pub stop : DistributedWorker → DistributedWorker
  stop s = record s { running = false }

  unfoldable pub kill : DistributedWorker → DistributedWorker
  kill s = record s { killed = true; running = false; status = dead }

  pub record Reading : Type 0 where
    pub gate_at : Float
    pub consume_at : Float
    pub failure_at : Float
    pub elapsed : Float
    pub fires : ℕ → Bool

  -- How a turn ends: the loop goes on, or an exception ends the thread, with the URLs that it has in
  -- hand.
  pub data Outcome : Type 0 where
    goes_on : World → DistributedWorker → Outcome
    raises : PyError → List Text → World → DistributedWorker → Outcome

  -- How the part of a turn before its sleep ends: the turn is over, or it sleeps over a URL off its
  -- queue.
  pub data Begun : Type 0 where
    over : Outcome → Begun
    sleeps : Job → World → DistributedWorker → Begun

  module _ (round_2 : Float → Float) (message : Note → Text) where
    -- `self._events.log(…)` with a fresh stamp of the global clock.
    unfoldable pub report : World → Text → Text → Note → Float → World
    unfolding log increment
    report w source level told t =
        let (stamp, clock) = increment w.clock in
        record w {
          clock = clock;
          events = log round_2 w.events (record {
            lamport = stamp;
            t = t;
            source = source;
            level = level;
            message = message told;
          });
        }

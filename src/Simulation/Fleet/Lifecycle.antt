-- ===== src/Simulation/Fleet/Lifecycle.antt =====
-- Workers that `DistributedFleet` spawns and kills, and its construction.
use scrape_grid.Prelude.{
  ℕ, zero, suc, ◌+◌, Bool, false, Option, none, some, List, [], ◌==◌, if◌then◌else◌,
}
use scrape_grid.Result.{Result, ok, err, ◌>>=◌}
use scrape_grid.Text.{Text, codes, decimal}
use scrape_grid.Floats.{FloatOps}
use scrape_grid.Dict.{Dict, get, put}
use scrape_grid.HashRing.{ConsistentHashRing, get_node}
use scrape_grid.Simulation.Worker
use scrape_grid.Simulation.Worker.{
  World, DistributedWorker, Status, idle, dead, done, cooling, scraping, blocked, Note, spawned,
  killed_node, scaled_up, scaled_down, success, warning, report, kill,
}
use scrape_grid.Simulation.Fleet.{DistributedFleet, make_buckets}
use scrape_grid.Clocks.Lamport.{LamportClock}
use scrape_grid.EventLog.{EventLog}
use scrape_grid.Simulation.Fleet.Assignment.{pick, empty_shards, distribute}

module _ (fl : FloatOps) (md5 : Text → List ℕ) (round_2 : fl.Float → fl.Float)
    (message : Note → Text) where
  open fl use {Float}

  -- `_shard_for`
  unfoldable pub shard_for : DistributedFleet fl → ℕ → Result Text
  unfolding pick get_node decimal
  shard_for f node_id = pick f.world.shards node_id (get_node md5 f.ring (decimal node_id))

  -- `_spawn_worker`: the id is used up also if no shard is found.
  unfoldable pub spawn_in :
      DistributedFleet fl → Float → Result Text → Result ℕ × DistributedFleet fl
  unfolding Worker.init Worker.start report put
  spawn_in f elapsed (err e) = (err e, record f { next_id = f.next_id + 1 })
  spawn_in f elapsed (ok shard_name) =
      let nid = f.next_id in
      let w = Worker.init fl nid shard_name f.speed f.max_nodes in
      (
        ok nid,
        record f {
          next_id = nid + 1;
          workers = put ◌==◌ f.workers nid (if f.running then Worker.start fl w else w);
          world =
              report fl round_2 message f.world (codes "Fleet") success (spawned nid shard_name)
                elapsed;
        },
      )

  unfoldable pub spawn_worker : DistributedFleet fl → Float → Result ℕ × DistributedFleet fl
  unfolding shard_for spawn_in
  spawn_worker f elapsed = spawn_in f elapsed (shard_for f f.next_id)

  -- `_kill_worker`
  unfoldable pub kill_in :
      DistributedFleet fl → ℕ → Float → Option (DistributedWorker fl) → DistributedFleet fl
  unfolding kill report put
  kill_in f nid elapsed none = f
  kill_in f nid elapsed (some w) = record f {
    workers = put ◌==◌ f.workers nid (kill fl w);
    world = report fl round_2 message f.world (codes "Fleet") warning (killed_node nid) elapsed;
  }

  unfoldable pub kill_worker : DistributedFleet fl → ℕ → Float → DistributedFleet fl
  unfolding kill_in get
  kill_worker f nid elapsed = kill_in f nid elapsed (get ◌==◌ f.workers nid)

  -- The state of `__init__` before its loop. `now` is the reading of the clock, minus 0.
  unfoldable pub bare :
      (cats : List Text) (first : Text) (url_pool : List Text) (domain_map : Dict Text Text)
      → (speed : Float) (max_nodes min_nodes : ℕ) → Bool
      → LamportClock
      → EventLog Float
      → ConsistentHashRing
      → Float
      → DistributedFleet fl
  unfolding empty_shards distribute make_buckets
  bare cats first url_pool domain_map speed max_nodes min_nodes auto_scale clock events ring now =
      record {
        world = record {
          shards = distribute domain_map first (empty_shards cats) url_pool;
          domain_map = domain_map;
          buckets = make_buckets fl now cats;
          results = [];
          clock = clock;
          events = events;
          known_nodes = [];
        };
        workers = [];
        next_id = 0;
        running = false;
        speed = speed;
        max_nodes = max_nodes;
        min_nodes = min_nodes;
        auto_scale = auto_scale;
        ring = ring;
        scale_events = [];
        block_events = [];
        throughput_history = [];
      }

  -- The loop that spawns the first workers.
  unfoldable pub spawn_all : ℕ → Float → DistributedFleet fl → Result (DistributedFleet fl)
  unfolding spawn_worker
  spawn_all zero elapsed f = ok f
  spawn_all (suc n) elapsed f =
      let (r, f') = spawn_worker f elapsed in let rest = spawn_all n elapsed f' in r >>= λ nid. rest

  -- `__init__`; `cats` are the keys of DOMAIN_CATEGORIES and `first` is `cats[0]`.
  unfoldable pub init :
      (initial_nodes : ℕ) (cats : List Text) (first : Text) (url_pool : List Text)
      (domain_map : Dict Text Text)
      → (speed : Float) (max_nodes min_nodes : ℕ) → Bool
      → LamportClock
      → EventLog Float
      → ConsistentHashRing
      → Float
      → Result (DistributedFleet fl)
  unfolding bare spawn_all
  init initial_nodes cats first url_pool domain_map speed max_nodes min_nodes auto_scale clock
        events ring now =
      spawn_all initial_nodes now (
        bare cats first url_pool domain_map speed max_nodes min_nodes auto_scale clock events ring
          now)

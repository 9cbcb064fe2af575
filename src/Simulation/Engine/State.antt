-- ===== src/Simulation/Engine/State.antt =====
-- `get_state` of `SimulationEngine`: the report, and what it changes. While the race runs the leader's
-- log grows, and the buckets whose fill is read are refilled; an exception leaves what came before it.
use scrape_grid.Prelude.{ℕ, Bool, Option, List, [], ◌∷◌, ◌+◌}
use scrape_grid.Result.{Result, ok, err, ◌>>=◌}
use scrape_grid.Text.{Text}
use scrape_grid.Floats.{FloatOps}
use scrape_grid.Dict.{Dict}
use scrape_grid.BloomFilter.Stats.{Stats, stats}
use scrape_grid.EventLog.{Event, all_events}
use scrape_grid.HashRing.Snapshot.{Point, ring_snapshot}
use scrape_grid.Raft.{Node}
use scrape_grid.Raft.Status.{Status, status}
use scrape_grid.TokenBucket.{TokenBucket}
use scrape_grid.Simulation.Worker.{Note, Page, Report}
use scrape_grid.Simulation.Scraper.Snapshot.{ScraperSnapshot}
use scrape_grid.Simulation.Scraper.Snapshot as Single
use scrape_grid.Simulation.Membership.{GossipProtocol}
use scrape_grid.Simulation.Membership.State.{GossipState, state}
use scrape_grid.Simulation.Fleet.Snapshot.{
  FleetSnapshot, BucketStats, snapshot, get_token_bucket_stats, get_work_queue_sizes,
}
use scrape_grid.Simulation.Engine.{SimulationEngine, elapsed}
use scrape_grid.Simulation.Engine.Control.{leader_from, log_progress}

-- `[rn.status() for rn in self.raft_nodes]`, from node `i` on.
unfoldable pub statuses : {F C : Type 0} → ℕ → List (Node F C) → List Status
unfolding status
statuses i [] = []
statuses i (n ∷ ns) = status i n ∷ statuses (i + 1) ns

module _ (fl : FloatOps) where
  open fl use {Float}

  pub record EngineState : Type 0 where
    pub elapsed : Float
    pub duration : Float
    pub race_running : Bool
    pub race_finished : Bool
    pub single : ScraperSnapshot fl
    pub distributed : FleetSnapshot fl
    pub raft : List Status
    pub raft_leader : Option ℕ
    pub hash_ring : List (Point fl)
    pub gossip : GossipState fl
    pub bloom : Stats fl
    pub url_pool_total : ℕ
    pub url_pool_filtered : ℕ
    pub lamport : ℕ
    pub vector_clocks : Dict ℕ (List ℕ)
    pub token_buckets : Dict Text (BucketStats fl)
    pub work_queue_sizes : Dict Text ℕ
    pub events : List (Event Float)

  -- The engine whose buckets have been read.
  unfoldable pub with_buckets :
      SimulationEngine fl → Dict Text (TokenBucket fl) → SimulationEngine fl
  with_buckets e buckets = record e {
    threads = record (e.threads) {
      fleet = record (e.threads.fleet) {
        world = record (e.threads.fleet.world) { buckets = buckets };
      };
    };
  }

  module _ (md5 : Text → List ℕ) (round_1 round_2 round_3 round_4 : Float → Float)
      (message : Note → Text) (page : Text → Page fl) where
    -- The dictionary that is returned, the entries of the buckets having been read.
    unfoldable pub engine_state :
        SimulationEngine fl → Float → Stats fl → Dict Text (BucketStats fl) → EngineState
    unfolding elapsed Single.snapshot snapshot statuses leader_from ring_snapshot state
        get_work_queue_sizes all_events
    engine_state e now bloom token_buckets =
        let f = e.threads.fleet in
        let fleet_snap = snapshot fl round_1 f now in
        let g : GossipProtocol (Report fl) = record {
          rounds = e.rounds;
          known_nodes = f.world.known_nodes;
          recent_exchanges = e.recent_exchanges;
        } in
        record {
          elapsed = elapsed fl e now;
          duration = e.cfg.race_duration;
          race_running = e.race_running;
          race_finished = e.race_finished;
          single = Single.snapshot fl round_1 e.single (elapsed fl e now);
          distributed = record fleet_snap { mapreduce_results = e.mapreduce_results };
          raft = statuses 0 e.raft_nodes;
          raft_leader = leader_from 0 e.raft_nodes;
          hash_ring = ring_snapshot fl f.ring;
          gossip = state fl round_3 g e.cfg.max_nodes;
          bloom = bloom;
          url_pool_total = e.url_pool_total;
          url_pool_filtered = e.url_pool_filtered;
          lamport = f.world.clock.value;
          vector_clocks = fleet_snap.vector_clocks;
          token_buckets = token_buckets;
          work_queue_sizes = get_work_queue_sizes f.world.shards;
          events = all_events f.world.events;
        }

    -- From the entry of the filter on; `logged` is the engine behind `append_log`.
    unfoldable pub read_state :
        (e logged : SimulationEngine fl)
        → Float
        → Result (Stats fl)
        → Result EngineState × SimulationEngine fl
    unfolding get_token_bucket_stats with_buckets engine_state
    read_state e logged now (err x) = (err x, logged)
    read_state e logged now (ok bloom) =
        let (entries, buckets) =
          get_token_bucket_stats fl round_3 e.threads.fleet.world.buckets now in
        (entries >>= λ found. ok (engine_state e now bloom found), with_buckets logged buckets)

    unfoldable pub get_state :
        SimulationEngine fl → Float → Result EngineState × SimulationEngine fl
    unfolding log_progress stats read_state
    get_state e now =
        read_state e (log_progress fl md5 round_1 round_2 round_3 message page e now) now
          (stats fl round_4 e.bloom)

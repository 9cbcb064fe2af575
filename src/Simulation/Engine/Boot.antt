-- ===== src/Simulation/Engine/Boot.antt =====
-- `SimulationEngine.__init__`. `size` and `hashes` stand for the two expressions of the Bloom filter
-- over `math.log`, `md5` for the bytes of a digest and `hex` for its hexadecimal digits; `raw_pool` and
-- `domain_map` are what `generate_url_pool` gives.
use scrape_grid.Prelude.{ℕ, false, none, List, [], ◌∷◌, length}
use scrape_grid.Result.{Result, ok, ◌>>=◌}
use scrape_grid.Text.{Text, codes}
use scrape_grid.Floats.{FloatOps}
use scrape_grid.Dict.{Dict, keys}
use scrape_grid.Clocks.Lamport
use scrape_grid.EventLog
use scrape_grid.BloomFilter.{BloomFilter}
use scrape_grid.BloomFilter
use scrape_grid.HashRing.{ConsistentHashRing, add_node}
use scrape_grid.HashRing
use scrape_grid.Raft
use scrape_grid.Raft.{Node}
use scrape_grid.UrlGenerator.{domain_categories, read}
use scrape_grid.Simulation.Worker.{Note, success, initialised}
use scrape_grid.Simulation.Scraper
use scrape_grid.Simulation.Prepass.{prepass}
use scrape_grid.Simulation.Fleet.{DistributedFleet}
use scrape_grid.Simulation.Fleet.Lifecycle
use scrape_grid.Simulation.Engine.{SimulationEngine, Config, note}

-- The loop that puts the categories on the ring.
unfoldable pub add_all : (Text → List ℕ) → ConsistentHashRing → List Text → ConsistentHashRing
unfolding add_node
add_all hex ring [] = ring
add_all hex ring (cat ∷ cats) = add_all hex (add_node hex ring cat) cats

module _ (fl : FloatOps) (size : ℕ → fl.Float → ℕ) (hashes : ℕ → ℕ → ℕ) (md5 hex : Text → List ℕ)
    (round_2 : fl.Float → fl.Float) (message : Note → Text) where
  open fl use {Float, literal}

  -- The engine around a fleet that has been built.
  unfoldable pub assemble :
      Config fl
      → (raw_pool : List Text) (domain_map : Dict Text Text) → BloomFilter Float × List Text
      → (now : Float) (timeout : ℕ → Float) → DistributedFleet fl
      → SimulationEngine fl
  unfolding Scraper.init Raft.init note
  assemble cfg raw_pool domain_map (bloom, filtered) now timeout fleet =
      note fl round_2 message
        (record {
          cfg = cfg;
          url_pool_total = length raw_pool;
          bloom = bloom;
          url_pool_filtered = length filtered;
          rounds = 0;
          recent_exchanges = [];
          raft_nodes =
              Raft.init now (timeout 0)
              ∷ Raft.init now (timeout 1)
              ∷ Raft.init now (timeout 2)
              ∷ [];
          single = Scraper.init fl filtered domain_map cfg.speed;
          threads = record { fleet = fleet; asleep = []; ended = []; hands = [] };
          race_running = false;
          race_finished = false;
          start_time = fl.zero;
          mapreduce_results = none;
        })
        (codes "Engine") success
        (initialised (length raw_pool) (length filtered) bloom.duplicates_caught) fl.zero

  unfoldable pub build_fleet :
      Config fl → List Text → Dict Text Text → (now : Float) → Result (DistributedFleet fl)
  unfolding Lifecycle.init add_all HashRing.init Lamport.init EventLog.init read
  build_fleet cfg filtered domain_map now = do
    first ← read (keys domain_categories) 0
    Lifecycle.init fl hex round_2 message cfg.initial_nodes (keys domain_categories) first filtered
        domain_map cfg.speed cfg.max_nodes cfg.min_nodes cfg.auto_scale Lamport.init EventLog.init
        (add_all hex (HashRing.init 150) (keys domain_categories)) now

  unfoldable pub init :
      Config fl
      → (raw_pool : List Text) (domain_map : Dict Text Text) (now : Float) (timeout : ℕ → Float)
      → Result (SimulationEngine fl)
  unfolding BloomFilter.init prepass build_fleet assemble
  init cfg raw_pool domain_map now timeout = do
    bloom ← BloomFilter.init size hashes 25000 (literal 1 100)
    sifted ← prepass md5 (bloom, []) raw_pool
    fleet ← build_fleet cfg sifted.1 domain_map now
    ok (assemble cfg raw_pool domain_map sifted now timeout fleet)

-- ===== src/Simulation/Engine.antt =====
-- `SimulationEngine` of simulation.py. The Lamport clock, the event log and the table of the gossip
-- protocol, which it shares with the fleet, are in the fleet's `world`; `threads` is the fleet with
-- what its threads hold. Node `i` of `raft_nodes` has the node_id `i`. `now` is a reading of the clock.
pub mod Control
pub mod Boot
pub mod Start
pub mod Leader
pub mod State
pub mod Final
mod Examples
use scrape_grid.Prelude.{
  ℕ, zero, suc, ◌+◌, Bool, true, false, not, ◌&&◌, Option, none, some, List, [], ◌∷◌, ◌++◌, map,
  ◌==◌, if◌then◌else◌, length,
}
use scrape_grid.Result.{Result, ok, err}
use scrape_grid.Text.{Text, codes}
use scrape_grid.Floats.{FloatOps}
use scrape_grid.Dict.{Dict, or_default}
use scrape_grid.BloomFilter.{BloomFilter}
use scrape_grid.Gossip.{Exchange}
use scrape_grid.Raft.{Node, append_own, append_entry, is_leader}
use scrape_grid.Raft
use scrape_grid.Simulation.Worker.{Note, Page, Scraped, Report, report}
use scrape_grid.Simulation.Scraper.{SingleNodeScraper}
use scrape_grid.Simulation.MapReduce.{Input, Stats}
use scrape_grid.Simulation.Membership.{GossipProtocol}
use scrape_grid.Simulation.Fleet.Run.{Threads}

module _ (fl : FloatOps) where
  open fl use {Float, of_ℕ, literal, sub}

  pub record Config : Type 0 where
    pub lambda_intensity : Float
    pub initial_nodes : ℕ
    pub max_nodes : ℕ
    pub min_nodes : ℕ
    pub race_duration : Float
    pub speed : Float
    pub auto_scale : Bool

  -- The dictionary that the engine is called with; every key is optional.
  pub record Settings : Type 0 where
    pub lambda_intensity : Option Float
    pub initial_nodes : Option ℕ
    pub max_nodes : Option ℕ
    pub min_nodes : Option ℕ
    pub race_duration : Option Float
    pub speed : Option Float
    pub auto_scale : Option Bool

  -- `{…, **config}`
  unfoldable pub configure : Settings → Config
  configure config = record {
    lambda_intensity = or_default config.lambda_intensity (literal 9 1000);
    initial_nodes = or_default config.initial_nodes 4;
    max_nodes = or_default config.max_nodes 10;
    min_nodes = or_default config.min_nodes 2;
    race_duration = or_default config.race_duration (of_ℕ 90);
    speed = or_default config.speed (of_ℕ 2);
    auto_scale = or_default config.auto_scale true;
  }

  -- The command that `get_state` appends to the log of Raft.
  pub record TaskSnapshot : Type 0 where
    pub elapsed : Float
    pub scraped : ℕ

  pub record SimulationEngine : Type 0 where
    pub cfg : Config
    pub url_pool_total : ℕ
    pub bloom : BloomFilter Float
    pub url_pool_filtered : ℕ
    pub rounds : ℕ
    pub recent_exchanges : List Exchange
    pub raft_nodes : List (Node Float TaskSnapshot)
    pub single : SingleNodeScraper fl
    pub threads : Threads fl
    pub race_running : Bool
    pub race_finished : Bool
    pub start_time : Float
    pub mapreduce_results : Option (Dict Text (Stats fl))

  unfoldable pub elapsed : SimulationEngine → Float → Float
  elapsed e now = sub now e.start_time

  -- What `run_mapreduce` reads of a result.
  unfoldable pub inputs : List (Scraped fl) → List (Input fl)
  inputs [] = []
  inputs (x ∷ xs) =
      record {
        category = some x.category;
        quality_score = some x.content.quality_score;
        word_count = some x.content.word_count;
      }
      ∷ inputs xs

  module _ (round_2 : Float → Float) (message : Note → Text) where
    -- A log call of the engine.
    unfoldable pub note : SimulationEngine → Text → Text → Note → Float → SimulationEngine
    unfolding report
    note e source level told t = record e {
      threads = record (e.threads) {
        fleet = record (e.threads.fleet) {
          world = report fl round_2 message e.threads.fleet.world source level told t;
        };
      };
    }

module _ {F C : Type 0} where
  -- The loop of `kill_raft_leader`: the node that it finds, from node `i` on, is crashed.
  unfoldable pub crash_leader : ℕ → List (Node F C) → Option ℕ × List (Node F C)
  unfolding Raft.force_crash
  crash_leader i [] = (none, [])
  crash_leader i (n ∷ ns) =
      let (found, rest) = crash_leader (i + 1) ns in
      if is_leader n.state && not n.crashed
      then (some i, Raft.force_crash n ∷ ns)
      else (found, n ∷ rest)

  -- The loop of `recover_raft_node` over the nodes from `i` on.
  unfoldable pub recover_at :
      ℕ → (node_id : ℕ) → (now timeout : F) → List (Node F C) → Bool × List (Node F C)
  unfolding Raft.recover
  recover_at i node_id now timeout [] = (false, [])
  recover_at i node_id now timeout (n ∷ ns) =
      let (found, rest) = recover_at (i + 1) node_id now timeout ns in
      if i == node_id then (true, Raft.recover n now timeout ∷ rest) else (found, n ∷ rest)

  -- The first thing that the threads of the coordinators do.
  unfoldable pub set_running : Node F C → Node F C
  set_running n = record n { running = true }

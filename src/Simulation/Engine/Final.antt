-- ===== src/Simulation/Engine/Final.antt =====
-- A race that has ended, and what its threads can still change: the turns that sleep when it ends go
-- on later.
use scrape_grid.Prelude.{ℕ, ◌≡◌, true, false, some, List, [], ◌∷◌, ◌+◌, ◌≤◌, ◌++◌, length}
use scrape_grid.Text.{Text}
use scrape_grid.Floats.{FloatOps}
use scrape_grid.Simulation.Worker.{Note, Page, Scraped}
use scrape_grid.Simulation.Scraper
use scrape_grid.Simulation.Scraper.{Reading, turn}
use scrape_grid.Simulation.Scraper.Running.{left_by}
use scrape_grid.Simulation.MapReduce.{run_mapreduce}
use scrape_grid.Simulation.Fleet.Run
use scrape_grid.Simulation.Fleet.Rest
use scrape_grid.Simulation.Fleet.Rest.{IsStopped, Continues, StaysAs}
use scrape_grid.Simulation.Engine.{SimulationEngine, inputs}
use scrape_grid.BloomFilter.Stats.{Stats}
use scrape_grid.Result.{Result}
use scrape_grid.Simulation.Engine.State.{get_state}
use scrape_grid.Simulation.Engine.Control.{
  start_race, stop_race, kill_raft_leader, recover_raft_node, race_timer, gossip_turn,
}

-- The calls of the controls, and the turns of the engine's, the fleet's and the single scraper's
-- threads. A turn of the single scraper may come at any time, as it may have begun before its thread
-- was told to stop.
pub data Event (fl : FloatOps) : Type 0 where
  starts_race stops_race kills_leader checks_timer is_read : fl.Float → Event fl
  recovers_node : ℕ → (now timeout : fl.Float) → Event fl
  gossips : ℕ × ℕ → Event fl
  turns : Run.Event fl → Event fl
  scrapes : Reading fl → Event fl

module _ (fl : FloatOps) (md5 : Text → List ℕ)
    (round_1 round_2 round_3 round_4 : fl.Float → fl.Float) (message : Note → Text)
    (page : Text → Page fl) where
  unfoldable pub step : SimulationEngine fl → Event fl → SimulationEngine fl
  unfolding start_race stop_race kill_raft_leader race_timer get_state recover_raft_node gossip_turn
      Run.step left_by turn
  step e (starts_race now) = start_race fl md5 round_1 round_2 round_3 message page e now
  step e (stops_race now) = stop_race fl md5 round_1 round_2 round_3 message page e now
  step e (kills_leader now) = (kill_raft_leader fl md5 round_1 round_2 round_3 message page e now).1
  step e (checks_timer now) = race_timer fl md5 round_1 round_2 round_3 message page e now
  step e (is_read now) = (get_state fl md5 round_1 round_2 round_3 round_4 message page e now).1
  step e (recovers_node i now timeout) =
      recover_raft_node fl md5 round_1 round_2 round_3 message page e i now timeout
  step e (gossips drawn) = gossip_turn fl md5 round_1 round_2 round_3 message page e drawn
  step e (turns t) = record e { threads = Run.step fl md5 round_1 round_2 message page e.threads t }
  step e (scrapes r) = record e { single = left_by fl (turn fl round_1 round_2 e.single r) }

  unfoldable pub run : SimulationEngine fl → List (Event fl) → SimulationEngine fl
  unfolding step
  run e [] = e
  run e (x ∷ xs) = run (step e x) xs

  -- The race is over: it is marked so, and both systems are told to stop. What `run_mapreduce` makes of
  -- the fleet's results is stored, but for the last of these; they are, with the turns that still sleep,
  -- `n` at most.
  pub record IsOver (n : ℕ) (e : SimulationEngine fl) : Type 0 where
    pub finished : e.race_finished ≡ true
    pub ended : e.race_running ≡ false
    pub single_stopped : e.single.running ≡ false
    pub fleet_stopped : IsStopped fl e.threads.fleet
    pub store : List (Scraped fl)
    pub late : List (Scraped fl)
    pub reduced : e.mapreduce_results ≡ some (run_mapreduce fl round_3 round_1 (inputs fl store))
    pub grown : e.threads.fleet.world.results ≡ store ++ late
    pub few : length late + length e.threads.asleep ≤ n

  -- No race is started anew.
  abbrev pub Follows : Event fl → Type 0
  Follows (starts_race now) = ⊥
  Follows (turns t) = Continues fl t
  Follows (stops_race now) = Unit
  Follows (kills_leader now) = Unit
  Follows (checks_timer now) = Unit
  Follows (is_read now) = Unit
  Follows (recovers_node i now timeout) = Unit
  Follows (gossips drawn) = Unit
  Follows (scrapes r) = Unit

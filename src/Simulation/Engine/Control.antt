-- ===== src/Simulation/Engine/Control.antt =====
-- The controls of `SimulationEngine` and its own threads. A call runs to its end before another
-- thread takes a step; turns of workers that sleep meanwhile go on after it.
use scrape_grid.Prelude.{
  ℕ, ◌+◌, true, false, not, ◌&&◌, Option, none, some, List, [], ◌∷◌, map, ◌==◌, if◌then◌else◌,
  length, get_elem?, set,
}
use scrape_grid.Text.{Text, codes}
use scrape_grid.Floats.{FloatOps, lt}
use scrape_grid.Dict.{Dict, put, keys}
use scrape_grid.Raft.{Node, append_own, append_entry, is_leader, Entry}
use scrape_grid.Raft
use scrape_grid.Simulation.Worker.{
  DistributedWorker, Note, Page, Report, status_is, success, error, race_started, leader_crashed,
  recovered, race_finished,
}
use scrape_grid.Simulation.Scraper
use scrape_grid.Simulation.MapReduce.{run_mapreduce}
use scrape_grid.Simulation.Membership.{GossipProtocol, gossip_round}
use scrape_grid.Simulation.Fleet.{scraped}
use scrape_grid.Simulation.Fleet.Run.{starts, stops, step}
use scrape_grid.Simulation.Engine.{
  SimulationEngine, TaskSnapshot, elapsed, inputs, note, crash_leader, recover_at, set_running,
}

module _ {F C : Type 0} where
  -- `peer._append_entry(entry)` for the peers of node `leader`, from node `i` on.
  unfoldable pub replicate_to : (leader i : ℕ) → Entry C → List (Node F C) → List (Node F C)
  unfolding append_entry
  replicate_to leader i entry [] = []
  replicate_to leader i entry (n ∷ ns) =
      (if i == leader then n else append_entry n entry) ∷ replicate_to leader (i + 1) entry ns

  -- `append_log` behind its own part, `n` being the node after it, while no thread of a node acts.
  unfoldable pub replicate : ℕ → Option (Entry C) × Node F C → List (Node F C) → List (Node F C)
  unfolding replicate_to
  replicate i (none, n) nodes = nodes
  replicate i (some entry, n) nodes = replicate_to i 0 entry (set nodes i n)

  -- `append_log` on node `i`, if there is such a node.
  unfoldable pub log_at : ℕ → C → List (Node F C) → Option (Node F C) → List (Node F C)
  unfolding append_own replicate
  log_at i command nodes none = nodes
  log_at i command nodes (some n) = replicate i (append_own n command) nodes

  -- `next((r["id"] for r in raft_states if r["state"] == "leader"), None)`, from node `i` on, and the
  -- call of `append_log` for what it gives.
  unfoldable pub leader_from : ℕ → List (Node F C) → Option ℕ
  leader_from i [] = none
  leader_from i (n ∷ ns) =
      let rest = leader_from (i + 1) ns in if is_leader n.state then some i else rest

  unfoldable pub log_on : C → List (Node F C) → Option ℕ → List (Node F C)
  unfolding log_at
  log_on command nodes none = nodes
  log_on command nodes (some i) = log_at i command nodes (get_elem? nodes i)

module _ (fl : FloatOps) (md5 : Text → List ℕ) (round_1 round_2 round_3 : fl.Float → fl.Float)
    (message : Note → Text) (page : Text → Page fl) where
  open fl use {Float}

  unfoldable pub start_race : SimulationEngine fl → Float → SimulationEngine fl
  unfolding set_running Scraper.start step note
  start_race e now =
      if e.race_running
      then e
      else note fl round_2 message
          (record e {
            start_time = now;
            race_running = true;
            race_finished = false;
            raft_nodes = map set_running e.raft_nodes;
            single = Scraper.start fl e.single;
            threads = step fl md5 round_1 round_2 message page e.threads starts;
          })
          (codes "Engine") success race_started fl.zero

  -- `_end_race`. Turns of workers that sleep when it is called go on after it.
  unfoldable pub end_race : SimulationEngine fl → Float → SimulationEngine fl
  unfolding Scraper.stop step Raft.stop inputs run_mapreduce scraped note elapsed
  end_race e now =
      let threads = step fl md5 round_1 round_2 message page e.threads stops in
      let reduced = run_mapreduce fl round_3 round_1 (inputs fl threads.fleet.world.results) in
      note fl round_2 message
        (record e {
          race_running = false;
          race_finished = true;
          single = Scraper.stop fl e.single;
          threads = threads;
          raft_nodes = map Raft.stop e.raft_nodes;
          mapreduce_results = some reduced;
        })
        (codes "Engine") success
        (race_finished e.single.urls_scraped (scraped fl threads.fleet.workers) (length reduced))
        (elapsed fl e now)

  unfoldable pub stop_race : SimulationEngine fl → Float → SimulationEngine fl
  unfolding end_race
  stop_race e now = end_race e now

  -- The end of `kill_raft_leader`, which answers with the node that has been crashed.
  unfoldable pub crash_noted :
      SimulationEngine fl
      → Float
      → Option ℕ × List (Node Float (TaskSnapshot fl))
      → Option ℕ × SimulationEngine fl
  unfolding note elapsed
  crash_noted e now (none, nodes) = (none, e)
  crash_noted e now (some i, nodes) = (
    some i,
    note fl round_2 message (record e { raft_nodes = nodes }) (codes "Raft") error
        (leader_crashed i) (elapsed fl e now),
  )

  unfoldable pub kill_raft_leader : SimulationEngine fl → Float → Option ℕ × SimulationEngine fl
  unfolding crash_leader crash_noted
  kill_raft_leader e now = crash_noted e now (crash_leader 0 e.raft_nodes)

  unfoldable pub recover_raft_node :
      SimulationEngine fl → ℕ → (now timeout : Float) → SimulationEngine fl
  unfolding recover_at note elapsed
  recover_raft_node e node_id now timeout =
      let (found, nodes) = recover_at 0 node_id now timeout e.raft_nodes in
      if found
      then note fl round_2 message (record e { raft_nodes = nodes }) (codes "Raft") success
          (recovered node_id) (elapsed fl e now)
      else e

  -- A turn of `_race_timer`: the test that heads its loop, and what follows once it fails.
  unfoldable pub race_timer : SimulationEngine fl → Float → SimulationEngine fl
  unfolding end_race elapsed
  race_timer e now =
      if e.race_running && not (lt fl (elapsed fl e now) e.cfg.race_duration)
      then end_race e now
      else e

  -- The loop of `_gossip_loop` over the workers.
  unfoldable pub tell_all :
      (lamport : ℕ) → Dict ℕ (DistributedWorker fl) → Dict ℕ (Report fl) → Dict ℕ (Report fl)
  unfolding put
  tell_all lamport [] known = known
  tell_all lamport ((nid, w) ∷ workers) known = tell_all lamport workers (
      put ◌==◌ known nid
        (record { activity = status_is w.status; urls = w.urls_scraped; lamport = lamport }))

  -- The body of the loop of `_gossip_loop`; `drawn` is what `random.sample` gives.
  unfoldable pub spread : SimulationEngine fl → ℕ × ℕ → SimulationEngine fl
  unfolding gossip_round tell_all
  spread e drawn =
      let f = e.threads.fleet in
      let g : GossipProtocol (Report fl) = record {
        rounds = e.rounds;
        known_nodes = f.world.known_nodes;
        recent_exchanges = e.recent_exchanges;
      } in
      let g' = gossip_round g (keys f.workers) drawn in
      record e {
        rounds = g'.rounds;
        recent_exchanges = g'.recent_exchanges;
        threads = record (e.threads) {
          fleet = record f {
            world = record (f.world) {
              known_nodes = tell_all f.world.clock.value f.workers g'.known_nodes;
            };
          };
        };
      }

  unfoldable pub gossip_turn : SimulationEngine fl → ℕ × ℕ → SimulationEngine fl
  unfolding spread
  gossip_turn e drawn = if e.race_running then spread e drawn else e

  -- The call of `append_log` in `get_state`: the leader's log grows by a snapshot while the race runs.
  unfoldable pub log_snapshot : SimulationEngine fl → Float → SimulationEngine fl
  unfolding leader_from log_on scraped elapsed
  log_snapshot e now =
      let command : TaskSnapshot fl = record {
        elapsed = round_1 (elapsed fl e now);
        scraped = scraped fl e.threads.fleet.workers;
      } in
      record e { raft_nodes = log_on command e.raft_nodes (leader_from 0 e.raft_nodes) }

  unfoldable pub log_progress : SimulationEngine fl → Float → SimulationEngine fl
  unfolding log_snapshot
  log_progress e now = if e.race_running then log_snapshot e now else e

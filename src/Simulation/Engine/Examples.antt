-- ===== src/Simulation/Engine/Examples.antt =====
-- An engine over thousandths.
use scrape_grid.Prelude.{ℕ, ◌+◌, ◌≡◌, refl, true, false, none, some, List, [], ◌∷◌, arith}
use scrape_grid.Prelude.Int.{ℤ, pos}
use scrape_grid.Result.{ok}
use scrape_grid.Text.{Text, codes}
use scrape_grid.Floats.Fixed.{fixed}
use scrape_grid.BloomFilter.{BloomFilter}
use scrape_grid.HashRing
use scrape_grid.Raft.{Node, lead}
use scrape_grid.Raft
use scrape_grid.Simulation.Worker
use scrape_grid.Simulation.Worker.{Note, Page, World, Job, Reading}
use scrape_grid.Simulation.Scraper
use scrape_grid.Simulation.Fleet.{DistributedFleet}
use scrape_grid.Simulation.Fleet.Run
use scrape_grid.Simulation.Engine.{Config, SimulationEngine, TaskSnapshot, configure}
use scrape_grid.Simulation.Engine.Control.{start_race, kill_raft_leader}
use scrape_grid.Simulation.Engine.Boot.{init}
use scrape_grid.Simulation.Engine.Start.{IsFair, init_lem}
use scrape_grid.Simulation.Engine.Leader.{IsCrashed, kill_raft_leader_lem}
use scrape_grid.Simulation.Engine.Final.{
  Event, gossips, kills_leader, is_read, checks_timer, turns, scrapes,
}

abbrev url : Text
url = codes "a://d/p"

abbrev other : Text
other = codes "a://d/q"

abbrev digest : Text → List ℕ
digest t = t

abbrev same : ℤ → ℤ
same x = x

abbrev told : Note → Text
told n = []

abbrev content : Text → Page fixed
content u = record { word_count = 200; simulated_latency_ms = 500; quality_score = pos 700 }

cfg : Config fixed
cfg = configure fixed (record {
  lambda_intensity = none;
  initial_nodes = some 3;
  max_nodes = none;
  min_nodes = none;
  race_duration = none;
  speed = none;
  auto_scale = none;
})

abbrev size : ℕ → ℤ → ℕ
size n p = n + 7

abbrev hashes : ℕ → ℕ → ℕ
hashes m n = 3

abbrev raw : List Text
raw = url ∷ other ∷ url ∷ []

abbrev ready : ℕ → ℤ
ready i = pos 300

init_lem_example :
    (e : SimulationEngine fixed) × (init fixed size hashes digest digest same told cfg raw []
        (pos 0)
        ready
      ≡ ok e)
    × IsFair fixed size hashes digest digest same same told content cfg raw e
init_lem_example =
    init_lem fixed size hashes digest digest same same told content cfg raw [] (pos 0) ready
      (omega arith)

abbrev world : World fixed
world = record {
  shards = (codes "tech", url ∷ []) ∷ [];
  domain_map = (url, codes "tech") ∷ [];
  buckets = [];
  results = [];
  clock = record { value = 3 };
  events = record { events = [] };
  known_nodes = [];
}

abbrev fleet : DistributedFleet fixed
fleet = record {
  world = world;
  workers = (0, Worker.init fixed 0 (codes "tech") (pos 2000) 4) ∷ [];
  next_id = 1;
  running = false;
  speed = pos 2000;
  max_nodes = 4;
  min_nodes = 1;
  auto_scale = true;
  ring = HashRing.init 150;
  scale_events = [];
  block_events = [];
  throughput_history = [];
}

-- A turn of the worker that sleeps over a URL when the race is stopped.
abbrev asleep : List (ℕ × Job)
asleep = (0, record { url = other; cat = codes "tech"; domain = codes "d" }) ∷ []

abbrev reading : Reading fixed
reading = record {
  gate_at = pos 9000;
  consume_at = pos 9000;
  failure_at = pos 9000;
  elapsed = pos 8000;
  fires = λ n. false;
}

abbrev calm : Scraper.Reading fixed
calm = record {
  now = pos 9000;
  simulated_latency_ms = 500;
  block_at = pos 9000;
  slept = pos 0;
  fires = λ n. false;
}

abbrev bloom : BloomFilter ℤ
bloom = record {
  capacity = 5;
  fp_rate = pos 10;
  bit_size = 1;
  hash_count = 1;
  bits = 0 ∷ [];
  item_count = 0;
  duplicates_caught = 0;
}

node : Node ℤ (TaskSnapshot fixed)
node = Raft.init (pos 0) (pos 300)

engine : SimulationEngine fixed
engine = record {
  cfg = cfg;
  url_pool_total = 1;
  bloom = bloom;
  url_pool_filtered = 1;
  rounds = 0;
  recent_exchanges = [];
  raft_nodes = node ∷ lead 1 node ∷ lead 2 node ∷ [];
  single = Scraper.init fixed (url ∷ []) [] (pos 2000);
  threads = record { fleet = fleet; asleep = asleep; ended = []; hands = [] };
  race_running = false;
  race_finished = false;
  start_time = pos 0;
  mapreduce_results = none;
}

abbrev started : SimulationEngine fixed
started = start_race fixed digest same same same told content engine (pos 1000)

crashed_one :
    (kill_raft_leader fixed digest same same same told content engine (pos 2000)).0 ≡ some 1
unfolding kill_raft_leader engine node lead Raft.init
crashed_one = refl

kill_raft_leader_lem_example :
    IsCrashed 0 engine.raft_nodes
      (kill_raft_leader fixed digest same same same told content engine (pos 2000)).0
      (kill_raft_leader fixed digest same same same told content engine (pos 2000)).1.raft_nodes
kill_raft_leader_lem_example =
    kill_raft_leader_lem fixed digest same same same told content engine (pos 2000)

abbrev afterwards : List (Event fixed)
afterwards =
    gossips (0, 1)
    ∷ turns (Run.scales (pos 9000))
    ∷ turns (Run.wakes 0 reading)
    ∷ scrapes calm
    ∷ kills_leader (pos 9000)
    ∷ is_read (pos 9000)
    ∷ checks_timer (pos 99000)
    ∷ []

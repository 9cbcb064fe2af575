-- ===== src/Simulation/Fleet/Examples.antt =====
-- A fleet of two workers over thousandths.
use scrape_grid.Prelude.{ℕ, ◌≡◌, refl, true, List, [], ◌∷◌, arith, ltb, length}
use scrape_grid.Prelude.Int.{ℤ, pos}
use scrape_grid.Text.{Text, codes}
use scrape_grid.Floats.Fixed.{fixed}
use scrape_grid.HashRing
use scrape_grid.Simulation.Worker
use scrape_grid.Simulation.Worker.{DistributedWorker, Note, Page, Reading, World}
use scrape_grid.Simulation.Fleet.{DistributedFleet}
use scrape_grid.Simulation.Fleet.Autoscale.{autoscale}
use scrape_grid.Simulation.Fleet.Scaling.{alive, IsValid}
use scrape_grid.Simulation.Fleet.Limits.{IsScaled, autoscale_lem}
use scrape_grid.Simulation.Fleet.Run.{Threads, Event, works, wakes, scales, samples, stops, run}
use scrape_grid.Simulation.Fleet.Population.{IsWithin, run-IsWithin}
use scrape_grid.Simulation.Fleet.Shares.{accounted, run-keeps}

abbrev url : Text
url = codes "a://d/p"

abbrev tech : Text
tech = codes "tech"

abbrev digest : Text → List ℕ
digest t = t

abbrev same : ℤ → ℤ
same x = x

abbrev told : Note → Text
told n = []

abbrev content : Text → Page fixed
content u = record { word_count = 200; simulated_latency_ms = 500; quality_score = pos 700 }

abbrev world : World fixed
world = record {
  shards = (codes "news", []) ∷ (tech, url ∷ url ∷ []) ∷ [];
  domain_map = (url, tech) ∷ [];
  buckets = [];
  results = [];
  clock = record { value = 3 };
  events = record { events = [] };
  known_nodes = [];
}

abbrev worker : ℕ → Text → DistributedWorker fixed
worker nid shard = Worker.start fixed (Worker.init fixed nid shard (pos 2000) 4)

abbrev fleet : DistributedFleet fixed
fleet = record {
  world = world;
  workers = (0, worker 0 (codes "news")) ∷ (1, worker 1 tech) ∷ [];
  next_id = 2;
  running = true;
  speed = pos 2000;
  max_nodes = 4;
  min_nodes = 1;
  auto_scale = true;
  ring = HashRing.init 150;
  scale_events = [];
  block_events = [];
  throughput_history = [];
}

fleet-IsValid : IsValid fixed fleet
unfolding Worker.init Worker.start scrape_grid.Dict.get
fleet-IsValid = record {
  dict = (refl, (refl, tt));
  keyed = ((refl, omega arith), ((refl, omega arith), tt));
}

abbrev scaled : DistributedFleet fixed
scaled = autoscale fixed digest same same told fleet (pos 9000)

-- Two URLs are few, so one of the two idle workers is killed.
scaled_down : alive fixed scaled.workers ≡ 1
unfolding autoscale Worker.init Worker.start
scaled_down = refl

autoscale_lem_example :
    IsValid fixed scaled
    × IsScaled fixed digest same same told fleet fleet-IsValid (pos 9000) scaled
autoscale_lem_example = autoscale_lem fixed digest same same told fleet fleet-IsValid (pos 9000)

abbrev reading : Reading fixed
reading = record {
  gate_at = pos 0;
  consume_at = pos 0;
  failure_at = pos 0;
  elapsed = pos 0;
  fires = λ n. ltb 0 n;
}

abbrev threads : Threads fixed
threads = record { fleet = fleet; asleep = []; ended = []; hands = [] }

-- Worker 0 steals a URL and scrapes it, worker 1, idle, is killed.
abbrev turns : List (Event fixed)
turns =
    works 0 reading
    ∷ wakes 0 reading
    ∷ scales (pos 9000)
    ∷ works 1 reading
    ∷ samples (pos 9500)
    ∷ stops
    ∷ works 1 reading
    ∷ []

scraped_once :
    length (run fixed digest same same told content threads turns).fleet.world.results ≡ 1
unfolding run Worker.init Worker.start scrape_grid.CircuitBreaker.init
    scrape_grid.Clocks.Vector.init scrape_grid.Floats.Fixed.div
scraped_once = refl

run-keeps_example :
    accounted fixed digest same same told content url
      (run fixed digest same same told content threads turns)
    ≡ accounted fixed digest same same told content url threads
run-keeps_example = run-keeps fixed digest same same told content url threads turns

threads-IsWithin : IsWithin fixed digest same same told content fleet
unfolding Worker.init Worker.start scrape_grid.Simulation.Fleet.Autoscale.living
threads-IsWithin = record { valid = fleet-IsValid; floor = omega arith; ceiling = omega arith }

run-IsWithin_example :
    IsWithin fixed digest same same told content
      (run fixed digest same same told content threads turns).fleet
run-IsWithin_example =
    run-IsWithin fixed digest same same told content threads turns threads-IsWithin

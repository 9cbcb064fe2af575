-- ===== src/Simulation/Fleet/Building.antt =====
-- The fleet that `DistributedFleet.__init__` builds.
use scrape_grid.Prelude.{
  ℕ, zero, suc, ◌+◌, ◌≤◌, ◌<◌, ◌≡◌, refl, ◌∙◌, ap, Bool, List, [], ◌∷◌, ◌++◌, arith, length,
  if◌then◌else◌, Bool-cases, inl, inr,
}
use scrape_grid.Result.{Result, ok, ◌>>=◌}
use scrape_grid.Text.{Text, equal, decimal}
use scrape_grid.Floats.{FloatOps}
use scrape_grid.Dict.{Dict, put}
use scrape_grid.Clocks.Lamport.{LamportClock}
use scrape_grid.EventLog.{EventLog}
use scrape_grid.HashRing.{ConsistentHashRing, get_node}
use scrape_grid.Simulation.{Shards, queue, category_of}
use scrape_grid.Simulation.Shards.{count}
use scrape_grid.Simulation.Worker.{Note, Page, report}
use scrape_grid.Simulation.Conservation.{held}
use scrape_grid.Simulation.Fleet.{DistributedFleet}
use scrape_grid.Simulation.Fleet.Assignment.{has_shard, empty_shards, distribute}
use scrape_grid.Simulation.Fleet.Lifecycle.{
  spawn_in, spawn_worker, shard_for, spawn_all, bare, init,
}
use scrape_grid.Simulation.Fleet.Autoscale.{living}
use scrape_grid.Simulation.Fleet.Scaling.{alive, IsValid, spawn_in-alive}
use scrape_grid.Simulation.Fleet.Dealing.{distribute_lem, pick_lem}
use scrape_grid.Simulation.Fleet.Shares.{held-spawn_worker}

length-put :
    (shards : Shards) (name : Text) (dq : List Text)
    → length shards ≤ length (put equal shards name dq)
unfolding put
length-put [] name dq = omega arith
length-put ((k, old) ∷ shards) name dq = elim (Bool-cases (equal k name)) [
  | inl h ↦ rw h (omega arith)
  | inr h ↦ rw h (omega (arith, length-put shards name dq))
]

length-empty_shards : (cats : List Text) → length (empty_shards cats) ≡ length cats
unfolding empty_shards
length-empty_shards [] = refl
length-empty_shards (cat ∷ cats) = ap suc (length-empty_shards cats)

length-distribute :
    (domain_map : Dict Text Text) (first : Text) (shards : Shards) (urls : List Text)
    → length shards ≤ length (distribute domain_map first shards urls)
unfolding distribute
length-distribute m first shards [] = omega arith
length-distribute m first shards (url ∷ urls) =
    let cat = category_of url m in
    let name = if has_shard shards cat then cat else first in
    let dq = queue shards name ++ url ∷ [] in
    omega
      (arith, length-put shards name dq, length-distribute m first (put equal shards name dq) urls)

module _ (fl : FloatOps) (md5 : Text → List ℕ) (round_1 round_2 : fl.Float → fl.Float)
    (message : Note → Text) (page : Text → Page fl) where
  -- With a shard, a worker is spawned, and the shards stay.
  spawn_worker_lem :
      (f : DistributedFleet fl) (e : fl.Float)
      → 0 < length f.world.shards
      → let r = spawn_worker fl md5 round_2 message f e in
        (name : Text) × (shard_for fl md5 round_2 message f f.next_id ≡ ok name)
        × (r.0 ≡ ok f.next_id)
        × (r.1.world.shards ≡ f.world.shards)
        × (r.1.next_id ≡ f.next_id + 1)
  unfolding spawn_worker shard_for spawn_in report
  spawn_worker_lem f e h =
      let (name, at, there) =
        pick_lem f.world.shards f.next_id (get_node md5 f.ring (decimal f.next_id)) h in
      (name, at, rw at refl, rw at refl, rw at refl)

  spawn_alive :
      (f : DistributedFleet fl) (e : fl.Float) (name : Text)
      → IsValid fl f
      → shard_for fl md5 round_2 message f f.next_id ≡ ok name
      → let f' = (spawn_worker fl md5 round_2 message f e).1 in
        IsValid fl f' × (alive fl f'.workers ≡ alive fl f.workers + 1)
  unfolding spawn_worker
  spawn_alive f e name valid at =
      rw at (spawn_in-alive fl md5 round_1 round_2 message f valid e (ok name))

  -- What `n` workers more make of a fleet.
  abbrev IsGrown : ℕ → DistributedFleet fl → Result (DistributedFleet fl) → Type 0
  IsGrown n f r =
      (g : DistributedFleet fl) × (r ≡ ok g)
      × IsValid fl g
      × (alive fl g.workers ≡ alive fl f.workers + n)
      × ((u : Text)
          → held fl round_2 message page u g.world ≡ held fl round_2 message page u f.world)

  spawn_all_lem :
      (n : ℕ) (e : fl.Float) (f : DistributedFleet fl)
      → IsValid fl f
      → 0 < length f.world.shards
      → IsGrown n f (spawn_all fl md5 round_2 message n e f)
  unfolding spawn_all
  spawn_all_lem zero e f valid h = (f, refl, valid, omega arith, λ u. refl)
  spawn_all_lem (suc n) e f valid h =
      let (name, at, there, same, next) = spawn_worker_lem f e h in
      let (valid', more) = spawn_alive f e name valid at in
      let f' = (spawn_worker fl md5 round_2 message f e).1 in
      let (g, done, valid_g, alive_g, held_g) = spawn_all_lem n e f' valid' (rw same h) in
      (
        g,
        ap (λ r. r >>= λ nid. spawn_all fl md5 round_2 message n e f') there ∙ done,
        valid_g,
        omega (arith, alive_g, more),
        λ u. held_g u ∙ held-spawn_worker fl md5 round_1 round_2 message page u f e,
      )

  -- With one category at least, the construction succeeds: the fleet is valid, has `initial_nodes`
  -- living workers, and holds each URL as often as the pool does.
  pub init_lem :
      (initial_nodes : ℕ) (cats : List Text) (first : Text) (url_pool : List Text)
      (domain_map : Dict Text Text) (speed : fl.Float) (max_nodes min_nodes : ℕ) (auto_scale : Bool)
      (clock : LamportClock) (events : EventLog fl.Float) (ring : ConsistentHashRing)
      (now : fl.Float)
      → 0 < length cats
      → let built =
          init fl md5 round_2 message initial_nodes cats first url_pool domain_map speed max_nodes
            min_nodes auto_scale clock events ring now in
        (f : DistributedFleet fl) × (built ≡ ok f)
        × IsValid fl f
        × (alive fl f.workers ≡ initial_nodes)
        × ((u : Text) → held fl round_2 message page u f.world ≡ count u url_pool)
  unfolding init bare living empty_shards
  init_lem n cats first url_pool m speed max_nodes min_nodes auto_scale clock events ring now h =
      let f =
        bare fl md5 round_2 message cats first url_pool m speed max_nodes min_nodes auto_scale clock
          events ring now in
      let many = length-distribute m first (empty_shards cats) url_pool in
      let (g, done, valid, alive_g, held_g) =
        spawn_all_lem n now f (record { dict = tt; keyed = tt })
          (omega (arith, many, length-empty_shards cats)) in
      (
        g,
        done,
        valid,
        omega (arith, alive_g),
        λ u. held_g u ∙ omega (arith, distribute_lem u m cats first url_pool),
      )

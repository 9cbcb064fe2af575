-- ===== src/Simulation/Fleet/Unchanged.antt =====
-- The limits of a fleet over a turn of the autoscaler.
use scrape_grid.Prelude.{
  ℕ, max, ◌≡◌, refl, ◌∙◌, Bool, true, false, not, ◌&&◌, Option, none, some, List, ltb, ◌==◌,
  if◌then◌else◌, length,
}
use scrape_grid.Result.{Result, ok, err}
use scrape_grid.Text.{Text}
use scrape_grid.Floats.{FloatOps, lt}
use scrape_grid.Dict.{get}
use scrape_grid.Simulation.Worker.{DistributedWorker, Note}
use scrape_grid.Simulation.Fleet.{DistributedFleet}
use scrape_grid.Simulation.Fleet.Lifecycle.{spawn_in, spawn_worker, kill_in, kill_worker, shard_for}
use scrape_grid.Simulation.Fleet.Autoscale.{
  living, queue_depth, blocked_count, first_idle, noted_up, scale_down, autoscale,
}

module _ (fl : FloatOps) where
  abbrev pub SameLimits : DistributedFleet fl → DistributedFleet fl → Type 0
  SameLimits f g = (g.max_nodes ≡ f.max_nodes) × (g.min_nodes ≡ f.min_nodes)

module _ (fl : FloatOps) (md5 : Text → List ℕ) (round_1 round_2 : fl.Float → fl.Float)
    (message : Note → Text) where
  spawn_in-SameLimits :
      (f : DistributedFleet fl) (e : fl.Float) (r : Result Text)
      → SameLimits fl f (spawn_in fl md5 round_2 message f e r).1
  unfolding spawn_in
  spawn_in-SameLimits f e (err x) = (refl, refl)
  spawn_in-SameLimits f e (ok name) = (refl, refl)

  noted_up-SameLimits :
      (f : DistributedFleet fl) (n depth blocked_n : ℕ) (e : fl.Float) (r : Result ℕ)
      → SameLimits fl f (noted_up fl md5 round_1 round_2 message n depth blocked_n e (r, f))
  unfolding noted_up
  noted_up-SameLimits f n depth blocked_n e (err x) = (refl, refl)
  noted_up-SameLimits f n depth blocked_n e (ok nid) = (refl, refl)

  kill_in-SameLimits :
      (f : DistributedFleet fl) (nid : ℕ) (e : fl.Float) (o : Option (DistributedWorker fl))
      → SameLimits fl f (kill_in fl md5 round_2 message f nid e o)
  unfolding kill_in
  kill_in-SameLimits f nid e none = (refl, refl)
  kill_in-SameLimits f nid e (some w) = (refl, refl)

  scale_down-SameLimits :
      (f : DistributedFleet fl) (n depth blocked_n : ℕ) (e : fl.Float) (o : Option ℕ)
      → SameLimits fl f (scale_down fl md5 round_1 round_2 message f n depth blocked_n e o)
  unfolding scale_down kill_worker
  scale_down-SameLimits f n depth blocked_n e none = (refl, refl)
  scale_down-SameLimits f n depth blocked_n e (some nid) =
      kill_in-SameLimits f nid e (get ◌==◌ f.workers nid)

  either :
      (f x y : DistributedFleet fl) (b : Bool)
      → SameLimits fl f x
      → SameLimits fl f y
      → SameLimits fl f (if b then x else y)
  either f x y true h k = h
  either f x y false h k = k

  pub autoscale-SameLimits :
      (f : DistributedFleet fl) (e : fl.Float)
      → SameLimits fl f (autoscale fl md5 round_1 round_2 message f e)
  unfolding autoscale spawn_worker
  autoscale-SameLimits f e =
      let alive = living fl f.workers in
      let n = length alive in
      let depth = queue_depth f.world.shards in
      let blocked_n = blocked_count fl alive in
      let rate = fl.div (fl.of_ℕ blocked_n) (fl.of_ℕ (max n 1)) in
      let (nid, grown) = spawn_worker fl md5 round_2 message f e in
      let up = noted_up fl md5 round_1 round_2 message n depth blocked_n e (nid, grown) in
      let down =
        scale_down fl md5 round_1 round_2 message f n depth blocked_n e (first_idle fl alive) in
      let calm = if ltb depth 80 && ltb f.min_nodes n then down else f in
      let busy = ltb 300 depth && lt fl (fl.literal 4 10) rate && ltb n f.max_nodes in
      let (a, b) = spawn_in-SameLimits f e (shard_for fl md5 round_2 message f f.next_id) in
      let (a', b') = noted_up-SameLimits grown n depth blocked_n e nid in
      either f f (if busy then up else calm) (not (f.auto_scale && f.running)) (refl, refl)
        (either f up calm busy (a' ∙ a, b' ∙ b)
          (either f down f (ltb depth 80 && ltb f.min_nodes n)
            (scale_down-SameLimits f n depth blocked_n e (first_idle fl alive)) (refl, refl)))

-- ===== src/Simulation/Fleet/Autoscale.antt =====
-- `_autoscale_loop` of `DistributedFleet`: one turn of it, behind its sleep.
use scrape_grid.Prelude.{
  ℕ, ◌+◌, ◌-◌, max, Bool, true, false, not, ◌&&◌, ◌||◌, Option, none, some, List, [], ◌∷◌, ◌++◌,
  ltb, if◌then◌else◌, length,
}
use scrape_grid.Result.{Result, ok, err}
use scrape_grid.Text.{Text, codes}
use scrape_grid.Floats.{FloatOps, lt}
use scrape_grid.Dict.{Dict}
use scrape_grid.CircuitBreaker.{State, opened, closed, half_open}
use scrape_grid.Simulation.{Shards}
use scrape_grid.Simulation.Worker.{
  DistributedWorker, Status, idle, dead, done, cooling, scraping, blocked, Note, scaled_up,
  scaled_down, success, warning, report,
}
use scrape_grid.Simulation.Fleet.{DistributedFleet, busy, low_load, is_blocked}
use scrape_grid.Simulation.Fleet.Lifecycle.{spawn_worker, kill_worker}

-- `len` of all shards.
unfoldable pub queue_depth : Shards → ℕ
queue_depth [] = 0
queue_depth ((name, dq) ∷ shards) = length dq + queue_depth shards

unfoldable pub is_idle : Status → Bool
is_idle idle = true
is_idle (blocked cat) = false
is_idle dead = false
is_idle done = false
is_idle (cooling shard) = false
is_idle (scraping cat) = false

unfoldable pub is_open : State → Bool
is_open opened = true
is_open closed = false
is_open half_open = false

module _ (fl : FloatOps) where
  -- The workers that are not killed, and of these the first that is idle.
  unfoldable pub living : Dict ℕ (DistributedWorker fl) → List (DistributedWorker fl)
  living [] = []
  living ((nid, w) ∷ workers) = let rest = living workers in if w.killed then rest else w ∷ rest

  unfoldable pub first_idle : List (DistributedWorker fl) → Option ℕ
  unfolding is_idle
  first_idle [] = none
  first_idle (w ∷ ws) =
      let rest = first_idle ws in if is_idle w.status then some w.node_id else rest

  unfoldable pub blocked_count : List (DistributedWorker fl) → ℕ
  unfolding is_blocked is_open
  blocked_count [] = 0
  blocked_count (w ∷ ws) =
      (if is_blocked w.status || is_open w.cb.state then 1 else 0) + blocked_count ws

module _ (fl : FloatOps) (md5 : Text → List ℕ) (round_1 round_2 : fl.Float → fl.Float)
    (message : Note → Text) where
  open fl use {Float, of_ℕ, literal, div}

  -- The branch of `_autoscale_loop` that scales up; an error of `_spawn_worker` ends the thread.
  unfoldable pub noted_up :
      (n depth blocked_n : ℕ) → Float → Result ℕ × DistributedFleet fl → DistributedFleet fl
  unfolding report
  noted_up n depth blocked_n elapsed (err e, f) = f
  noted_up n depth blocked_n elapsed (ok nid, f) = record f {
    scale_events =
        f.scale_events
        ++ record {
          time = round_1 elapsed;
          from_n = n;
          to_n = n + 1;
          reason = busy depth blocked_n;
        }
          ∷ [];
    world =
        report fl round_2 message f.world (codes "Scaler") success (scaled_up n depth blocked_n)
          elapsed;
  }

  -- The branch that scales down, for the first idle worker.
  unfoldable pub scale_down :
      DistributedFleet fl → (n depth blocked_n : ℕ) → Float → Option ℕ → DistributedFleet fl
  unfolding kill_worker report
  scale_down f n depth blocked_n elapsed none = f
  scale_down f n depth blocked_n elapsed (some nid) =
      let f' = kill_worker fl md5 round_2 message f nid elapsed in
      record f' {
        scale_events =
            f'.scale_events
            ++ record { time = round_1 elapsed; from_n = n; to_n = n - 1; reason = low_load depth }
              ∷ [];
        world =
            report fl round_2 message f'.world (codes "Scaler") warning
              (scaled_down n depth blocked_n) elapsed;
      }

  -- A turn of `_autoscale_loop`, behind its sleep.
  unfoldable pub autoscale : DistributedFleet fl → Float → DistributedFleet fl
  unfolding living queue_depth blocked_count first_idle spawn_worker noted_up scale_down
  autoscale f elapsed =
      let alive = living fl f.workers in
      let n = length alive in
      let depth = queue_depth f.world.shards in
      let blocked_n = blocked_count fl alive in
      let block_rate = div (of_ℕ blocked_n) (of_ℕ (max n 1)) in
      if not (f.auto_scale && f.running)
      then f
      else if ltb 300 depth && lt fl (literal 4 10) block_rate && ltb n f.max_nodes
      then noted_up n depth blocked_n elapsed (spawn_worker fl md5 round_2 message f elapsed)
      else if ltb depth 80 && ltb f.min_nodes n
      then scale_down f n depth blocked_n elapsed (first_idle fl alive)
      else f

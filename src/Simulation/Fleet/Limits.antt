-- ===== src/Simulation/Fleet/Limits.antt =====
-- A turn of the autoscaler, and the count of living workers.
use scrape_grid.Prelude.{
  ℕ, ◌+◌, ◌<◌, max, ◌≡◌, refl, ◌⊎◌, Bool, true, false, not, ◌&&◌, Option, none, some, List, arith,
  ltb, ltb→lt, &&-eq-true, if◌then◌else◌, inl, inr,
}
use scrape_grid.Result.{Result, ok, err}
use scrape_grid.Text.{Text}
use scrape_grid.Floats.{FloatOps, lt}
use scrape_grid.Simulation.Worker.{Note}
use scrape_grid.Simulation.Fleet.{DistributedFleet}
use scrape_grid.Simulation.Fleet.Lifecycle.{spawn_in, spawn_worker, shard_for}
use scrape_grid.Simulation.Fleet.Autoscale.{
  queue_depth, living, first_idle, blocked_count, noted_up, scale_down, autoscale,
}
use scrape_grid.Simulation.Fleet.Scaling.{
  alive, IsValid, first_idle-Lives, spawn_in-alive, kill_worker-alive,
}

module _ (fl : FloatOps) (md5 : Text → List ℕ) (round_1 round_2 : fl.Float → fl.Float)
    (message : Note → Text) (f : DistributedFleet fl) (valid : IsValid fl f)
    (elapsed : fl.Float) where
  open fl use {of_ℕ, literal, div}

  -- What a turn of the autoscaler may come to: as many living workers as before; or one more, for a
  -- queue deeper than 300 and fewer workers than `max_nodes`; or one less, for a queue shallower than
  -- 80 and more workers than `min_nodes`.
  abbrev pub IsScaled : DistributedFleet fl → Type 0
  IsScaled f' =
      (alive fl f'.workers ≡ alive fl f.workers)
      ⊎ (((alive fl f'.workers ≡ alive fl f.workers + 1)
            × (300 < queue_depth f.world.shards)
            × (alive fl f.workers < f.max_nodes))
          ⊎ ((alive fl f'.workers + 1 ≡ alive fl f.workers)
              × (queue_depth f.world.shards < 80)
              × (f.min_nodes < alive fl f.workers)))

  scale_up-IsScaled :
      (depth blocked_n : ℕ) (r : Result Text)
      → 300 < queue_depth f.world.shards
      → alive fl f.workers < f.max_nodes
      → let f' =
          noted_up fl md5 round_1 round_2 message
            (alive fl f.workers)
            depth
            blocked_n
            elapsed
            (spawn_in fl md5 round_2 message f elapsed r) in
        IsValid fl f' × IsScaled f'
  unfolding spawn_in noted_up
  scale_up-IsScaled depth blocked_n (err e) deep few =
      let (v, same) = spawn_in-alive fl md5 round_1 round_2 message f valid elapsed (err e) in
      (v, inl (omega (arith, same)))
  scale_up-IsScaled depth blocked_n (ok name) deep few =
      let (v, more) = spawn_in-alive fl md5 round_1 round_2 message f valid elapsed (ok name) in
      (record { dict = v.dict; keyed = v.keyed }, inr (inl (more, deep, few)))

  scale_down-IsScaled :
      (depth blocked_n : ℕ) (picked : Option ℕ)
      → first_idle fl (living fl f.workers) ≡ picked
      → queue_depth f.world.shards < 80
      → f.min_nodes < alive fl f.workers
      → let f' =
          scale_down fl md5 round_1 round_2 message f
            (alive fl f.workers)
            depth
            blocked_n
            elapsed
            picked in
        IsValid fl f' × IsScaled f'
  unfolding scale_down
  scale_down-IsScaled depth blocked_n none h shallow many = (valid, inl refl)
  scale_down-IsScaled depth blocked_n (some nid) h shallow many =
      let lives = first_idle-Lives fl f.next_id f.workers nid valid.dict valid.keyed h in
      let (v, fewer) = kill_worker-alive fl md5 round_1 round_2 message f valid elapsed nid lives in
      (record { dict = v.dict; keyed = v.keyed }, inr (inr (fewer, shallow, many)))

  either :
      (b : Bool) (x y : DistributedFleet fl)
      → (b ≡ true → IsValid fl x × IsScaled x)
      → IsValid fl y × IsScaled y
      → IsValid fl (if b then x else y) × IsScaled (if b then x else y)
  either true x y h k = h refl
  either false x y h k = k

  -- A turn of the autoscaler in a valid fleet leaves it valid, and changes the count of living workers
  -- by one at most, within the limits and on the conditions that `IsScaled` tells.
  pub autoscale_lem :
      IsValid fl (autoscale fl md5 round_1 round_2 message f elapsed)
      × IsScaled (autoscale fl md5 round_1 round_2 message f elapsed)
  unfolding autoscale spawn_worker
  autoscale_lem =
      let n = alive fl f.workers in
      let depth = queue_depth f.world.shards in
      let blocked_n = blocked_count fl (living fl f.workers) in
      let rate = div (of_ℕ blocked_n) (of_ℕ (max n 1)) in
      let hot = lt fl (literal 4 10) rate in
      let up =
        noted_up fl md5 round_1 round_2 message n depth blocked_n elapsed
          (spawn_worker fl md5 round_2 message f elapsed) in
      let picked = first_idle fl (living fl f.workers) in
      let down = scale_down fl md5 round_1 round_2 message f n depth blocked_n elapsed picked in
      let calm = if ltb depth 80 && ltb f.min_nodes n then down else f in
      either (not (f.auto_scale && f.running)) f
        (if (ltb 300 depth && hot) && ltb n f.max_nodes then up else calm)
        (λ off. (valid, inl refl))
        (either ((ltb 300 depth && hot) && ltb n f.max_nodes) up calm
          (λ b.
            let (both, few) = &&-eq-true (ltb 300 depth && hot) (ltb n f.max_nodes) b in
            let (deep, is_hot) = &&-eq-true (ltb 300 depth) hot both in
            scale_up-IsScaled depth blocked_n (shard_for fl md5 round_2 message f f.next_id)
              (ltb→lt 300 depth deep) (ltb→lt n f.max_nodes few))
          (either (ltb depth 80 && ltb f.min_nodes n) down f
            (λ b.
              let (shallow, many) = &&-eq-true (ltb depth 80) (ltb f.min_nodes n) b in
              scale_down-IsScaled depth blocked_n picked refl (ltb→lt depth 80 shallow)
                (ltb→lt f.min_nodes n many))
            (valid, inl refl)))

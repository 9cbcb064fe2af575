-- ===== src/Simulation/Fleet/Shares.antt =====
-- Where a URL is along the turns of the threads.
use scrape_grid.Prelude.{
  ℕ, ◌+◌, ◌≡◌, refl, ◌∙◌, ap, Bool, true, false, not, ◌&&◌, Option, none, some, List, [], ◌∷◌,
  arith, ltb, ◌==◌, if◌then◌else◌, max, length, Bool-cases, inl, inr,
}
use scrape_grid.Result.{Result, ok, err}
use scrape_grid.Text.{Text}
use scrape_grid.Floats.{FloatOps, lt}
use scrape_grid.Dict.{get}
use scrape_grid.Simulation.Shards.{count, count-append}
use scrape_grid.Simulation.Worker.{
  DistributedWorker, Note, Page, Outcome, goes_on, raises, Job, Begun, over, sleeps, report,
}
use scrape_grid.Simulation.Worker.Turn.{begin, wake}
use scrape_grid.Simulation.Conservation.{held, tally, begun_tally, begin-keeps, wake-keeps}
use scrape_grid.Simulation.Fleet.{DistributedFleet, sample, snapshot_turn, start, stop}
use scrape_grid.Simulation.Fleet.Lifecycle.{spawn_in, kill_in, kill_worker, shard_for, spawn_worker}
use scrape_grid.Simulation.Fleet.Autoscale.{
  living, queue_depth, blocked_count, first_idle, noted_up, scale_down, autoscale,
}
use scrape_grid.Simulation.Fleet.Sleepers.{slept, IsPicked, picked_lem}
use scrape_grid.Simulation.Fleet.Run.{
  Threads, Event, works, wakes, scales, samples, stops, starts, settle, settle_begun, work, rouse,
  resume, picked, step, run, holds,
}

module _ (fl : FloatOps) (md5 : Text → List ℕ) (round_1 round_2 : fl.Float → fl.Float)
    (message : Note → Text) (page : Text → Page fl) where
  -- How often `u` is in the shards, in the result store, with the turns that sleep and in the hands of
  -- threads that ended.
  abbrev pub accounted : Text → Threads fl → ℕ
  accounted u t =
      held fl round_2 message page u t.fleet.world + (slept u t.asleep + count u t.hands)

  settle_lem :
      (u : Text) (t : Threads fl) (nid : ℕ) (o : Outcome fl)
      → accounted u (settle fl md5 round_1 round_2 message page t nid o)
        ≡ tally fl round_2 message page u o + (slept u t.asleep + count u t.hands)
  unfolding settle
  settle_lem u t nid (goes_on w s) = refl
  settle_lem u t nid (raises e urls w s) = omega (arith, count-append u urls t.hands)

  settle_begun_lem :
      (u : Text) (t : Threads fl) (nid : ℕ) (b : Begun fl)
      → accounted u (settle_begun fl md5 round_1 round_2 message page t nid b)
        ≡ begun_tally fl round_2 message page u b + (slept u t.asleep + count u t.hands)
  unfolding settle_begun
  settle_begun_lem u t nid (over o) = settle_lem u t nid o
  settle_begun_lem u t nid (sleeps job w s) = omega arith

  work_lem :
      (u : Text) (t : Threads fl) (nid : ℕ) (r : _) (s : Option (DistributedWorker fl))
      → accounted u (work fl md5 round_1 round_2 message page t nid r s) ≡ accounted u t
  unfolding work
  work_lem u t nid r none = refl
  work_lem u t nid r (some s) = elim (Bool-cases (holds t.ended nid)) [
    | inl gone ↦ rw gone refl
    | inr goes ↦ elim (Bool-cases (s.running && not s.killed)) [
      | inl on ↦
          rw (goes, on)
            (settle_begun_lem u t nid (begin fl round_2 message page t.fleet.world s r)
              ∙ ap (λ n. n + (slept u t.asleep + count u t.hands))
                  (begin-keeps fl round_2 message page u t.fleet.world s r))
      | inr off ↦ rw (goes, off) refl
    ]
  ]

  rouse_lem :
      (u : Text) (t : Threads fl) (r : _) (nid : ℕ) (job : Job) (others : List (ℕ × Job))
      (s : Option (DistributedWorker fl))
      → slept u t.asleep ≡ count u (job.url ∷ []) + slept u others
      → accounted u (rouse fl md5 round_1 round_2 message page t r nid job others s) ≡ accounted u t
  unfolding rouse
  rouse_lem u t r nid job others none h = refl
  rouse_lem u t r nid job others (some s) h =
      let o = wake fl round_2 message page t.fleet.world s r job in
      let rest : Threads fl = record t { asleep = others } in
      settle_lem u rest nid o
      ∙ omega (arith, wake-keeps fl round_2 message page u t.fleet.world s r job, h)

  resume_lem :
      (u : Text) (t : Threads fl) (r : _) (o : Option ((ℕ × Job) × List (ℕ × Job)))
      → IsPicked t.asleep o
      → accounted u (resume fl md5 round_1 round_2 message page t r o) ≡ accounted u t
  unfolding resume
  resume_lem u t r none h = refl
  resume_lem u t r (some ((nid, job), others)) (long, all) =
      rouse_lem u t r nid job others (get ◌==◌ t.fleet.workers nid) (all u)

  held-spawn_in :
      (u : Text) (f : DistributedFleet fl) (e : fl.Float) (r : Result Text)
      → held fl round_2 message page u (spawn_in fl md5 round_2 message f e r).1.world
        ≡ held fl round_2 message page u f.world
  unfolding spawn_in report
  held-spawn_in u f e (err x) = refl
  held-spawn_in u f e (ok name) = refl

  pub held-spawn_worker :
      (u : Text) (f : DistributedFleet fl) (e : fl.Float)
      → held fl round_2 message page u (spawn_worker fl md5 round_2 message f e).1.world
        ≡ held fl round_2 message page u f.world
  unfolding spawn_worker
  held-spawn_worker u f e = held-spawn_in u f e (shard_for fl md5 round_2 message f f.next_id)

  held-noted_up :
      (u : Text) (n depth blocked_n : ℕ) (e : fl.Float) (r : Result ℕ) (f : DistributedFleet fl)
      → held fl round_2 message page u
          (noted_up fl md5 round_1 round_2 message n depth blocked_n e (r, f)).world
        ≡ held fl round_2 message page u f.world
  unfolding noted_up report
  held-noted_up u n depth blocked_n e (err x) f = refl
  held-noted_up u n depth blocked_n e (ok nid) f = refl

  held-kill_in :
      (u : Text) (f : DistributedFleet fl) (nid : ℕ) (e : fl.Float)
      (o : Option (DistributedWorker fl))
      → held fl round_2 message page u (kill_in fl md5 round_2 message f nid e o).world
        ≡ held fl round_2 message page u f.world
  unfolding kill_in report
  held-kill_in u f nid e none = refl
  held-kill_in u f nid e (some w) = refl

  held-scale_down :
      (u : Text) (f : DistributedFleet fl) (n depth blocked_n : ℕ) (e : fl.Float) (o : Option ℕ)
      → held fl round_2 message page u
          (scale_down fl md5 round_1 round_2 message f n depth blocked_n e o).world
        ≡ held fl round_2 message page u f.world
  unfolding scale_down kill_worker report
  held-scale_down u f n depth blocked_n e none = refl
  held-scale_down u f n depth blocked_n e (some nid) =
      held-kill_in u f nid e (get ◌==◌ f.workers nid)

  either :
      (u : Text) (b : Bool) (f x y : DistributedFleet fl)
      → held fl round_2 message page u x.world ≡ held fl round_2 message page u f.world
      → held fl round_2 message page u y.world ≡ held fl round_2 message page u f.world
      → held fl round_2 message page u (if b then x else y).world
        ≡ held fl round_2 message page u f.world
  either u true f x y h k = h
  either u false f x y h k = k

  held-autoscale :
      (u : Text) (f : DistributedFleet fl) (e : fl.Float)
      → held fl round_2 message page u (autoscale fl md5 round_1 round_2 message f e).world
        ≡ held fl round_2 message page u f.world
  unfolding autoscale
  held-autoscale u f e =
      let alive = living fl f.workers in
      let n = length alive in
      let depth = queue_depth f.world.shards in
      let blocked_n = blocked_count fl alive in
      let rate = fl.div (fl.of_ℕ blocked_n) (fl.of_ℕ (max n 1)) in
      let r = spawn_worker fl md5 round_2 message f e in
      let up = noted_up fl md5 round_1 round_2 message n depth blocked_n e r in
      let down =
        scale_down fl md5 round_1 round_2 message f n depth blocked_n e (first_idle fl alive) in
      let calm = if ltb depth 80 && ltb f.min_nodes n then down else f in
      let busy = ltb 300 depth && lt fl (fl.literal 4 10) rate && ltb n f.max_nodes in
      either u (not (f.auto_scale && f.running)) f f (if busy then up else calm) refl (
        either u busy f up calm
          (held-noted_up u n depth blocked_n e r.0 r.1 ∙ held-spawn_worker u f e)
          (either u (ltb depth 80 && ltb f.min_nodes n) f down f
            (held-scale_down u f n depth blocked_n e (first_idle fl alive)) refl))

  step_lem :
      (u : Text) (t : Threads fl) (e : Event fl)
      → accounted u (step fl md5 round_1 round_2 message page t e) ≡ accounted u t
  unfolding step snapshot_turn sample start stop
  step_lem u t (works nid r) = work_lem u t nid r (get ◌==◌ t.fleet.workers nid)
  step_lem u t (wakes i r) = resume_lem u t r (picked i t.asleep) (picked_lem i t.asleep)
  step_lem u t (scales elapsed) =
      ap (λ n. n + (slept u t.asleep + count u t.hands)) (held-autoscale u t.fleet elapsed)
  step_lem u t (samples now) =
      ap (λ n. n + (slept u t.asleep + count u t.hands))
        (either u t.fleet.running t.fleet (sample fl round_1 t.fleet now) t.fleet refl refl)
  step_lem u t stops = refl
  step_lem u t starts = refl

  -- However the parts of the turns of the threads fall, each URL is as often in the shards, in the
  -- result store, with the turns that sleep and in the hands of the ended threads after them as it
  -- was before.
  pub run-keeps :
      (u : Text) (t : Threads fl) (es : List (Event fl))
      → accounted u (run fl md5 round_1 round_2 message page t es) ≡ accounted u t
  unfolding run
  run-keeps u t [] = refl
  run-keeps u t (e ∷ es) =
      run-keeps u (step fl md5 round_1 round_2 message page t e) es ∙ step_lem u t e

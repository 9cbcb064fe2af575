-- ===== src/Simulation/Fleet/Population.antt =====
-- The count of living workers along the turns of the threads.
use scrape_grid.Prelude.{
  ℕ, ◌≤◌, ◌≡◌, refl, sym, subst, Bool, true, false, not, ◌&&◌, Option, none, some, List, [], ◌∷◌,
  arith, ◌==◌, ==_iff, if◌then◌else◌, inl, inr,
}
use scrape_grid.Text.{Text}
use scrape_grid.Floats.{FloatOps}
use scrape_grid.Dict.{get, put}
use scrape_grid.Dict.Laws.{IsDict}
use scrape_grid.Simulation.Worker
use scrape_grid.Simulation.Worker.{
  DistributedWorker, Reading, Note, Page, Outcome, goes_on, raises, Job, Begun, over, sleeps,
}
use scrape_grid.Simulation.Worker.Turn.{begin, wake, finish}
use scrape_grid.Simulation.Worker.Identity.{
  IsSame, worker_of, begun_worker, begin-IsBegun, wake-IsKept, finish-IsSame,
}
use scrape_grid.Simulation.Fleet.{DistributedFleet, each, sample, snapshot_turn, start, stop}
use scrape_grid.Simulation.Fleet.Autoscale.{autoscale}
use scrape_grid.Simulation.Fleet.Scaling.{alive, IsKeyed, IsValid}
use scrape_grid.Simulation.Fleet.Limits.{IsScaled, autoscale_lem}
use scrape_grid.Simulation.Fleet.Run.{
  Threads, Event, works, wakes, scales, samples, stops, starts, settle, settle_begun, work, rouse,
  resume, picked, step, run, holds,
}
use scrape_grid.Simulation.Fleet.Rewriting.{put_back, each_lem}
use scrape_grid.Simulation.Fleet.Unchanged.{SameLimits, autoscale-SameLimits}

module _ (fl : FloatOps) (md5 : Text → List ℕ) (round_1 round_2 : fl.Float → fl.Float)
    (message : Note → Text) (page : Text → Page fl) where
  -- A valid fleet whose living workers are within its limits.
  pub record IsWithin (f : DistributedFleet fl) : Type 0 where
    pub valid : IsValid fl f
    pub floor : f.min_nodes ≤ alive fl f.workers
    pub ceiling : alive fl f.workers ≤ f.max_nodes

  scaled_within :
      (f f' : DistributedFleet fl) (e : fl.Float) (h : IsWithin f)
      → SameLimits fl f f'
      → IsScaled fl md5 round_1 round_2 message f h.valid e f'
      → (f'.min_nodes ≤ alive fl f'.workers) × (alive fl f'.workers ≤ f'.max_nodes)
  scaled_within f f' e h (top, bottom) (inl same) =
      (omega (arith, h.floor), omega (arith, h.ceiling))
  scaled_within f f' e h (top, bottom) (inr (inl (more, deep, few))) =
      (omega (arith, h.floor), omega (arith, h.ceiling))
  scaled_within f f' e h (top, bottom) (inr (inr (fewer, shallow, many))) =
      (omega (arith, h.floor), omega (arith, h.ceiling))

  autoscale-IsWithin :
      (f : DistributedFleet fl) (e : fl.Float)
      → IsWithin f
      → IsWithin (autoscale fl md5 round_1 round_2 message f e)
  autoscale-IsWithin f e h =
      let f' = autoscale fl md5 round_1 round_2 message f e in
      let (valid, scaled) = autoscale_lem fl md5 round_1 round_2 message f h.valid e in
      let (floor, ceiling) =
        scaled_within f f' e h (autoscale-SameLimits fl md5 round_1 round_2 message f e) scaled in
      record { valid = valid; floor = floor; ceiling = ceiling }

  -- A fleet with other workers, as many of them living.
  renewed :
      (f : DistributedFleet fl) (f' : DistributedFleet fl)
      → IsWithin f
      → SameLimits fl f f'
      → f'.next_id ≡ f.next_id
      → IsDict ◌==◌ ==_iff f'.workers
        × IsKeyed fl f.next_id f'.workers
        × (alive fl f'.workers ≡ alive fl f.workers)
      → IsWithin f'
  renewed f f' h (top, bottom) next (d, k, count) = record {
    valid = record { dict = d; keyed = subst (λ n. IsKeyed fl n f'.workers) (sym next) k };
    floor = omega (arith, h.floor);
    ceiling = omega (arith, h.ceiling);
  }

  put-IsWithin :
      (t : Threads fl) (nid : ℕ) (s s' : DistributedWorker fl) (f' : DistributedFleet fl)
      → IsWithin t.fleet
      → get ◌==◌ t.fleet.workers nid ≡ some s
      → IsSame fl round_2 message page s s'
      → SameLimits fl t.fleet f'
      → f'.next_id ≡ t.fleet.next_id
      → f'.workers ≡ put ◌==◌ t.fleet.workers nid s'
      → IsWithin f'
  put-IsWithin t nid s s' f' h e same limits next written =
      let f = t.fleet in
      let (id, lives, runs) = same in
      let back =
        put_back fl f.next_id f.workers nid s s' h.valid.dict h.valid.keyed e (id, lives) in
      renewed f f' h limits next (
        subst
          (λ ws.
            IsDict ◌==◌ ==_iff ws × IsKeyed fl f.next_id ws × (alive fl ws ≡ alive fl f.workers))
          (sym written) back)

  settle_lem :
      (t : Threads fl) (nid : ℕ) (s : DistributedWorker fl) (o : Outcome fl)
      → IsWithin t.fleet
      → get ◌==◌ t.fleet.workers nid ≡ some s
      → IsSame fl round_2 message page s (worker_of fl round_2 message page o)
      → IsWithin (settle fl md5 round_1 round_2 message page t nid o).fleet
  unfolding settle
  settle_lem t nid s (goes_on w s') h e same =
      put-IsWithin t nid s s'
        (record (t.fleet) { world = w; workers = put ◌==◌ t.fleet.workers nid s' }) h e same
        (refl, refl) refl refl
  settle_lem t nid s (raises x urls w s') h e same =
      put-IsWithin t nid s s'
        (record (t.fleet) { world = w; workers = put ◌==◌ t.fleet.workers nid s' }) h e same
        (refl, refl) refl refl

  settle_begun_lem :
      (t : Threads fl) (nid : ℕ) (s : DistributedWorker fl) (b : Begun fl)
      → IsWithin t.fleet
      → get ◌==◌ t.fleet.workers nid ≡ some s
      → IsSame fl round_2 message page s (begun_worker fl round_2 message page b)
      → IsWithin (settle_begun fl md5 round_1 round_2 message page t nid b).fleet
  unfolding settle_begun
  settle_begun_lem t nid s (over o) h e same = settle_lem t nid s o h e same
  settle_begun_lem t nid s (sleeps job w s') h e same =
      put-IsWithin t nid s s'
        (record (t.fleet) { world = w; workers = put ◌==◌ t.fleet.workers nid s' }) h e same
        (refl, refl) refl refl

  rouse_lem :
      (t : Threads fl) (r : Reading fl) (nid : ℕ) (job : Job) (others : List (ℕ × Job))
      (o : Option (DistributedWorker fl))
      → IsWithin t.fleet
      → get ◌==◌ t.fleet.workers nid ≡ o
      → IsWithin (rouse fl md5 round_1 round_2 message page t r nid job others o).fleet
  unfolding rouse
  rouse_lem t r nid job others none h e = h
  rouse_lem t r nid job others (some s) h e =
      settle_lem (record t { asleep = others }) nid s
        (wake fl round_2 message page t.fleet.world s r job) h e
        (wake-IsKept fl round_2 message page t.fleet.world s r job)

  resume_lem :
      (t : Threads fl) (r : Reading fl) (o : Option ((ℕ × Job) × List (ℕ × Job)))
      → IsWithin t.fleet
      → IsWithin (resume fl md5 round_1 round_2 message page t r o).fleet
  unfolding resume
  resume_lem t r none h = h
  resume_lem t r (some ((nid, job), others)) h =
      rouse_lem t r nid job others (get ◌==◌ t.fleet.workers nid) h refl

  either_threads :
      (x y : Threads fl) (b : Bool)
      → IsWithin x.fleet
      → IsWithin y.fleet
      → IsWithin (if b then x else y).fleet
  either_threads x y true h k = h
  either_threads x y false h k = k

  work_lem :
      (t : Threads fl) (nid : ℕ) (r : Reading fl) (o : Option (DistributedWorker fl))
      → IsWithin t.fleet
      → get ◌==◌ t.fleet.workers nid ≡ o
      → IsWithin (work fl md5 round_1 round_2 message page t nid r o).fleet
  unfolding work
  work_lem t nid r none h e = h
  work_lem t nid r (some s) h e =
      let turn =
        settle_begun fl md5 round_1 round_2 message page t nid
          (begin fl round_2 message page t.fleet.world s r) in
      let ended : Threads fl = record t {
        fleet = record (t.fleet) {
          workers = put ◌==◌ t.fleet.workers nid (finish fl round_2 message page s);
        };
      } in
      let end_within =
        put-IsWithin t nid s (finish fl round_2 message page s) ended.fleet h e
          (finish-IsSame fl round_2 message page s) (refl, refl) refl refl in
      either_threads t (if s.running && not s.killed then turn else ended) (holds t.ended nid) h (
        either_threads turn ended (s.running && not s.killed)
          (settle_begun_lem t nid s (begin fl round_2 message page t.fleet.world s r) h e
            (begin-IsBegun fl round_2 message page t.fleet.world s r))
          end_within)

  each-IsWithin :
      (f f' : DistributedFleet fl) (g : DistributedWorker fl → DistributedWorker fl)
      → ((w : DistributedWorker fl) → ((g w).node_id ≡ w.node_id) × ((g w).killed ≡ w.killed))
      → IsWithin f
      → SameLimits fl f f'
      → f'.next_id ≡ f.next_id
      → f'.workers ≡ each fl g f.workers
      → IsWithin f'
  each-IsWithin f f' g same h limits next written = renewed f f' h limits next (
      subst
        (λ ws. IsDict ◌==◌ ==_iff ws × IsKeyed fl f.next_id ws × (alive fl ws ≡ alive fl f.workers))
        (sym written) (each_lem fl g same f.next_id f.workers h.valid.dict h.valid.keyed))

  start-IsWithin : (f : DistributedFleet fl) → IsWithin f → IsWithin (start fl f)
  unfolding start Worker.start
  start-IsWithin f h =
      each-IsWithin f (start fl f) (Worker.start fl) (λ w. (refl, refl)) h (refl, refl) refl refl

  stop-IsWithin : (f : DistributedFleet fl) → IsWithin f → IsWithin (stop fl f)
  unfolding stop Worker.stop
  stop-IsWithin f h =
      each-IsWithin f (stop fl f) (Worker.stop fl) (λ w. (refl, refl)) h (refl, refl) refl refl

  snapshot-IsWithin :
      (f : DistributedFleet fl) (now : fl.Float) (b : Bool)
      → IsWithin f
      → IsWithin (if b then sample fl round_1 f now else f)
  unfolding sample
  snapshot-IsWithin f now false h = h
  snapshot-IsWithin f now true h = record {
    valid = record { dict = h.valid.dict; keyed = h.valid.keyed };
    floor = h.floor;
    ceiling = h.ceiling;
  }

  step-IsWithin :
      (t : Threads fl) (e : Event fl)
      → IsWithin t.fleet
      → IsWithin (step fl md5 round_1 round_2 message page t e).fleet
  unfolding step snapshot_turn
  step-IsWithin t (works nid r) h = work_lem t nid r (get ◌==◌ t.fleet.workers nid) h refl
  step-IsWithin t (wakes i r) h = resume_lem t r (picked i t.asleep) h
  step-IsWithin t (scales elapsed) h = autoscale-IsWithin t.fleet elapsed h
  step-IsWithin t (samples now) h = snapshot-IsWithin t.fleet now t.fleet.running h
  step-IsWithin t stops h = stop-IsWithin t.fleet h
  step-IsWithin t starts h = start-IsWithin t.fleet h

  -- However the turns of the threads, the starts and the stops fall: a valid fleet with no fewer living
  -- workers than `min_nodes` and no more than `max_nodes` remains one.
  pub run-IsWithin :
      (t : Threads fl) (es : List (Event fl))
      → IsWithin t.fleet
      → IsWithin (run fl md5 round_1 round_2 message page t es).fleet
  unfolding run
  run-IsWithin t [] h = h
  run-IsWithin t (e ∷ es) h =
      run-IsWithin (step fl md5 round_1 round_2 message page t e) es (step-IsWithin t e h)

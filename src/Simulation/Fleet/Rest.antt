-- ===== src/Simulation/Fleet/Rest.antt =====
-- A fleet that has been stopped, and the turns that still sleep then.
use scrape_grid.Prelude.{
  ℕ, ◌≡◌, refl, sym, ◌∙◌, ap, Bool, true, false, not, ◌&&◌, Option, none, some, List, [], ◌∷◌, All,
  ◌==◌, if◌then◌else◌, Bool-cases, inl, inr, ◌+◌, ◌≤◌, suc, ◌++◌, arith, length,
}
use mathlib.Core.Option.{some-injective}
use mathlib.Core.List.{append-nil}
use scrape_grid.Text.{Text}
use scrape_grid.Floats.{FloatOps}
use scrape_grid.Dict.{Dict, get, put}
use scrape_grid.Simulation.Worker.{
  DistributedWorker, World, Note, Page, Reading, Scraped, Outcome, goes_on, raises, Job,
}
use scrape_grid.Simulation.Worker
use scrape_grid.Simulation.Worker.Turn.{finish, wake}
use scrape_grid.Simulation.Worker.Identity.{worker_of, wake-IsKept}
use scrape_grid.Simulation.Worker.Results.{AddsOne, world_of, wake-AddsOne}
use scrape_grid.Simulation.Fleet.Sleepers.{IsPicked, picked_lem}
use scrape_grid.Simulation.Fleet.{DistributedFleet, each, sample, snapshot_turn, stop}
use scrape_grid.Simulation.Fleet.Autoscale.{autoscale}
use scrape_grid.Simulation.Fleet.Run.{
  Threads, Event, works, wakes, scales, samples, stops, starts, work, settle, rouse, resume, picked,
  step, holds,
}

never : (a b : Bool) → b ≡ false → not (a && b) ≡ true
never true b h = ap not h
never false b h = refl

neither : (a b : Bool) → a ≡ false → (a && not b) ≡ false
neither a b h = rw h refl

module _ (fl : FloatOps) where
  abbrev pub Stopped : Dict ℕ (DistributedWorker fl) → Type 0
  Stopped workers = All (λ e. e.1.running ≡ false) workers

  -- The fleet and its workers are told to stop.
  abbrev pub IsStopped : DistributedFleet fl → Type 0
  IsStopped f = (f.running ≡ false) × Stopped f.workers

  pub each-stop :
      (workers : Dict ℕ (DistributedWorker fl)) → Stopped (each fl (Worker.stop fl) workers)
  unfolding each Worker.stop
  each-stop [] = tt
  each-stop ((nid, w) ∷ workers) = (refl, each-stop workers)

  Stopped-put :
      (workers : Dict ℕ (DistributedWorker fl)) (nid : ℕ) (w : DistributedWorker fl)
      → w.running ≡ false
      → Stopped workers
      → Stopped (put ◌==◌ workers nid w)
  unfolding put
  Stopped-put [] nid w e h = (e, tt)
  Stopped-put ((k, v) ∷ workers) nid w e (h, hs) = elim (Bool-cases (k == nid)) [
    | inl b ↦ rw b (e, hs)
    | inr b ↦ rw b (h, Stopped-put workers nid w e hs)
  ]

  Stopped-get :
      (workers : Dict ℕ (DistributedWorker fl)) (nid : ℕ) (w : DistributedWorker fl)
      → get ◌==◌ workers nid ≡ some w
      → Stopped workers
      → w.running ≡ false
  unfolding get
  Stopped-get [] nid w e h = cc
  Stopped-get ((k, v) ∷ workers) nid w e (h, hs) = elim (Bool-cases (k == nid)) [
    | inl b ↦ sym (ap (λ x. x.running) (some-injective v w (rw b at e))) ∙ h
    | inr b ↦ Stopped-get workers nid w (rw b at e) hs
  ]

  -- No worker is started anew.
  abbrev pub Continues : Event fl → Type 0
  Continues starts = ⊥
  Continues (works nid r) = Unit
  Continues (wakes i r) = Unit
  Continues (scales t) = Unit
  Continues (samples t) = Unit
  Continues stops = Unit

  module _ (md5 : Text → List ℕ) (round_1 round_2 : fl.Float → fl.Float) (message : Note → Text)
      (page : Text → Page fl) where
    -- `t'` is a stopped fleet with the shared data of `t` and its sleeping turns.
    abbrev Same : Threads fl → Threads fl → Type 0
    Same t t' = IsStopped t'.fleet × (t'.fleet.world ≡ t.fleet.world) × (t'.asleep ≡ t.asleep)

    -- `t'` is a stopped fleet with the results of `t` and further ones, no more of these than turns that
    -- slept and do so no longer.
    abbrev pub StaysAs : Threads fl → Threads fl → Type 0
    StaysAs t t' =
        IsStopped t'.fleet
        × ((late : List (Scraped fl)) × (t'.fleet.world.results ≡ t.fleet.world.results ++ late)
            × (length late + length t'.asleep ≤ length t.asleep))

    unchanged : (t t' : Threads fl) → Same t t' → StaysAs t t'
    unchanged t t' (stopped, same, asleep) = (
      stopped,
      (
        [],
        ap (λ w. w.results) same ∙ sym (append-nil t.fleet.world.results),
        omega (arith, ap length asleep),
      ),
    )

    settle_lem :
        (t0 t : Threads fl) (nid : ℕ) (o : Outcome fl)
        → IsStopped t.fleet
        → (worker_of fl round_2 message page o).running ≡ false
        → AddsOne fl round_2 message page t0.fleet.world (world_of fl round_2 message page o)
        → length t0.asleep ≡ suc (length t.asleep)
        → StaysAs t0 (settle fl md5 round_1 round_2 message page t nid o)
    unfolding settle
    settle_lem t0 t nid (goes_on w s) (off, h) still (more, e, one) long =
        ((off, Stopped-put t.fleet.workers nid s still h), (more, e, omega (arith, one, long)))
    settle_lem t0 t nid (raises x urls w s) (off, h) still (more, e, one) long =
        ((off, Stopped-put t.fleet.workers nid s still h), (more, e, omega (arith, one, long)))

    rouse_lem :
        (t : Threads fl) (r : Reading fl) (nid : ℕ) (job : Job) (others : List (ℕ × Job))
        (o : Option (DistributedWorker fl))
        → get ◌==◌ t.fleet.workers nid ≡ o
        → length t.asleep ≡ suc (length others)
        → IsStopped t.fleet
        → StaysAs t (rouse fl md5 round_1 round_2 message page t r nid job others o)
    unfolding rouse
    rouse_lem t r nid job others none e long h = unchanged t t (h, refl, refl)
    rouse_lem t r nid job others (some s) e long h =
        let (id, alive, runs) = wake-IsKept fl round_2 message page t.fleet.world s r job in
        settle_lem t (record t { asleep = others }) nid
          (wake fl round_2 message page t.fleet.world s r job) h
          (runs ∙ Stopped-get t.fleet.workers nid s e h.1)
          (wake-AddsOne fl round_2 message page t.fleet.world s r job) long

    resume_lem :
        (t : Threads fl) (r : Reading fl) (o : Option ((ℕ × Job) × List (ℕ × Job)))
        → IsPicked t.asleep o
        → IsStopped t.fleet
        → StaysAs t (resume fl md5 round_1 round_2 message page t r o)
    unfolding resume
    resume_lem t r none p h = unchanged t t (h, refl, refl)
    resume_lem t r (some ((nid, job), others)) (long, all) h =
        rouse_lem t r nid job others (get ◌==◌ t.fleet.workers nid) refl long h

    finish_running :
        (s : DistributedWorker fl) → (finish fl round_2 message page s).running ≡ s.running
    unfolding finish
    finish_running s = elim (Bool-cases s.killed) [ inl h ↦ rw h refl | inr h ↦ rw h refl ]

    work_lem :
        (t : Threads fl) (nid : ℕ) (r : Reading fl) (o : Option (DistributedWorker fl))
        → get ◌==◌ t.fleet.workers nid ≡ o
        → IsStopped t.fleet
        → Same t (work fl md5 round_1 round_2 message page t nid r o)
    unfolding work
    work_lem t nid r none e h = (h, refl, refl)
    work_lem t nid r (some s) e (off, h) = elim (Bool-cases (holds t.ended nid)) [
      | inl gone ↦ rw gone ((off, h), refl, refl)
      | inr goes ↦
          let still = Stopped-get t.fleet.workers nid s e h in
          let s' = finish fl round_2 message page s in
          rw (goes, neither s.running s.killed still)
            ((off, Stopped-put t.fleet.workers nid s' (finish_running s ∙ still) h), refl, refl)
    ]

    skipped :
        (t : Threads fl) (f : DistributedFleet fl) (b : Bool)
        → b ≡ false
        → IsStopped t.fleet
        → Same t (record t { fleet = if b then f else t.fleet })
    skipped t f true off h = cc
    skipped t f false off h = (h, refl, refl)

    pub step_lem :
        (t : Threads fl) (e : Event fl)
        → Continues e
        → IsStopped t.fleet
        → StaysAs t (step fl md5 round_1 round_2 message page t e)
    unfolding step autoscale snapshot_turn stop
    step_lem t (works nid r) c h =
        unchanged t (step fl md5 round_1 round_2 message page t (works nid r))
          (work_lem t nid r (get ◌==◌ t.fleet.workers nid) refl h)
    step_lem t (wakes i r) c h = resume_lem t r (picked i t.asleep) (picked_lem i t.asleep) h
    step_lem t (scales elapsed) c (off, h) =
        rw (never t.fleet.auto_scale t.fleet.running off) (unchanged t t ((off, h), refl, refl))
    step_lem t (samples now) c (off, h) =
        unchanged t (step fl md5 round_1 round_2 message page t (samples now))
          (skipped t (sample fl round_1 t.fleet now) t.fleet.running off (off, h))
    step_lem t stops c (off, h) =
        unchanged t (step fl md5 round_1 round_2 message page t stops)
          ((refl, each-stop t.fleet.workers), refl, refl)
    step_lem t starts c h = absurd c

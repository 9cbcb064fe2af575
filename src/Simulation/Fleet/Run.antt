-- ===== src/Simulation/Fleet/Run.antt =====
-- The threads of a fleet: the workers, `_autoscale_loop` and `_snapshot_loop`, in any order. A step is
-- a turn of one of the two loops, or a part of a worker's turn, before or after its sleep; while a turn
-- sleeps, all others go on. Also the worker of a sleeping turn may begin another, as it does in a
-- second thread when it is started anew meanwhile. An exception ends a worker's thread.
use scrape_grid.Prelude.{
  ℕ, Bool, false, not, ◌&&◌, ◌||◌, Option, none, some, List, [], ◌∷◌, ◌==◌, if◌then◌else◌, ◌++◌,
  zero, suc,
}
use scrape_grid.Text.{Text}
use scrape_grid.Floats.{FloatOps}
use scrape_grid.Dict.{get, put}
use scrape_grid.Simulation.Worker.{
  DistributedWorker, Reading, Note, Page, Outcome, goes_on, raises, Job, Begun, over, sleeps,
}
use scrape_grid.Simulation.Worker.Turn.{begin, wake, finish}
use scrape_grid.Simulation.Fleet.{DistributedFleet, snapshot_turn, start, stop}
use scrape_grid.Simulation.Fleet.Autoscale.{autoscale}

unfoldable pub holds : List ℕ → ℕ → Bool
holds [] n = false
holds (i ∷ ids) n = i == n || holds ids n

-- The turn at place `i` among those that sleep, and the others.
unfoldable pub picked : ℕ → List (ℕ × Job) → Option ((ℕ × Job) × List (ℕ × Job))
picked i [] = none
picked zero (x ∷ xs) = some (x, xs)
picked (suc i) (x ∷ xs) =
    let found = picked i xs in elim found [ none ↦ none | some (y, ys) ↦ some (y, x ∷ ys) ]

module _ (fl : FloatOps) where
  -- `asleep` are the turns that sleep, with their workers, `ended` are the workers whose threads an exception has ended, `hands` the URLs that they held.
  pub record Threads : Type 0 where
    pub fleet : DistributedFleet fl
    pub asleep : List (ℕ × Job)
    pub ended : List ℕ
    pub hands : List Text

  pub data Event : Type 0 where
    works : ℕ → Reading fl → Event
    wakes : ℕ → Reading fl → Event
    scales : fl.Float → Event
    samples : fl.Float → Event
    stops : Event
    starts : Event

  module _ (md5 : Text → List ℕ) (round_1 round_2 : fl.Float → fl.Float) (message : Note → Text)
      (page : Text → Page fl) where
    unfoldable pub settle : Threads → ℕ → Outcome fl → Threads
    unfolding put
    settle t nid (goes_on w s) = record t {
      fleet = record (t.fleet) { world = w; workers = put ◌==◌ t.fleet.workers nid s };
    }
    settle t nid (raises e urls w s) = record t {
      fleet = record (t.fleet) { world = w; workers = put ◌==◌ t.fleet.workers nid s };
      ended = nid ∷ t.ended;
      hands = urls ++ t.hands;
    }

    unfoldable pub settle_begun : Threads → ℕ → Begun fl → Threads
    unfolding settle put
    settle_begun t nid (over o) = settle t nid o
    settle_begun t nid (sleeps job w s) = record t {
      fleet = record (t.fleet) { world = w; workers = put ◌==◌ t.fleet.workers nid s };
      asleep = (nid, job) ∷ t.asleep;
    }

    -- The test that heads the loop of `_run` of the worker `nid`, with its turn up to its sleep, or the
    -- end of its thread.
    unfoldable pub work : Threads → ℕ → Reading fl → Option (DistributedWorker fl) → Threads
    unfolding settle_begun begin finish holds put
    work t nid r none = t
    work t nid r (some s) =
        if holds t.ended nid
        then t
        else if s.running && not s.killed
        then settle_begun t nid (begin fl round_2 message page t.fleet.world s r)
        else record t {
          fleet = record (t.fleet) {
            workers = put ◌==◌ t.fleet.workers nid (finish fl round_2 message page s);
          };
        }

    -- The rest of a turn of the worker `nid` that slept; `others` sleep on.
    unfoldable pub rouse :
        Threads
        → Reading fl
        → ℕ
        → Job
        → (others : List (ℕ × Job)) → Option (DistributedWorker fl)
        → Threads
    unfolding settle wake
    rouse t r nid job others none = t
    rouse t r nid job others (some s) =
        settle (record t { asleep = others }) nid
          (wake fl round_2 message page t.fleet.world s r job)

    unfoldable pub resume : Threads → Reading fl → Option ((ℕ × Job) × List (ℕ × Job)) → Threads
    unfolding rouse get
    resume t r none = t
    resume t r (some ((nid, job), others)) = rouse t r nid job others (get ◌==◌ t.fleet.workers nid)

    unfoldable pub step : Threads → Event → Threads
    unfolding work resume picked get autoscale snapshot_turn stop start
    step t (works nid r) = work t nid r (get ◌==◌ t.fleet.workers nid)
    step t (wakes i r) = resume t r (picked i t.asleep)
    step t (scales elapsed) = record t {
      fleet = autoscale fl md5 round_1 round_2 message t.fleet elapsed;
    }
    step t (samples now) = record t { fleet = snapshot_turn fl round_1 t.fleet now }
    step t stops = record t { fleet = stop fl t.fleet }
    step t starts = record t { fleet = start fl t.fleet; ended = [] }

    unfoldable pub run : Threads → List Event → Threads
    unfolding step
    run t [] = t
    run t (e ∷ es) = run (step t e) es

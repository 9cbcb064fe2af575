-- ===== src/Simulation/Worker/Results.antt =====
-- What the rest of a turn, after its sleep, adds to the result store.
use scrape_grid.Prelude.{
  ℕ, ◌+◌, ◌≤◌, ◌≡◌, refl, sym, Bool, true, false, List, [], ◌++◌, arith, if◌then◌else◌, length,
}
use mathlib.Core.List.{append-nil}
use scrape_grid.Result.{Result, ok, err}
use scrape_grid.Text.{Text, equal}
use scrape_grid.Floats.{FloatOps}
use scrape_grid.Dict.{get, put, or_default}
use scrape_grid.CircuitBreaker.{record_success}
use scrape_grid.Clocks.Vector.{tick}
use scrape_grid.Simulation.Worker.{
  World, DistributedWorker, Reading, Note, Page, Scraped, Outcome, goes_on, raises, Job, report,
}
use scrape_grid.Simulation.Worker.Turn.{give_back, block, store, succeed, wake}

module _ (fl : FloatOps) (round_2 : fl.Float → fl.Float) (message : Note → Text)
    (page : Text → Page fl) where
  abbrev pub world_of : Outcome fl → World fl
  world_of (goes_on w s) = w
  world_of (raises e urls w s) = w

  -- One result more at most.
  abbrev pub AddsOne : World fl → World fl → Type 0
  AddsOne w w' = (more : List (Scraped fl)) × (w'.results ≡ w.results ++ more) × (length more ≤ 1)

  either :
      (w : World fl) (x y : Outcome fl) (b : Bool)
      → AddsOne w (world_of x)
      → AddsOne w (world_of y)
      → AddsOne w (world_of (if b then x else y))
  either w x y true h k = h
  either w x y false h k = k

  store-AddsOne :
      (w : World fl) (s : DistributedWorker fl) (url cat : Text) (vec : Result (List ℕ))
      → AddsOne w (world_of (store fl round_2 message page w s url cat vec))
  unfolding store
  store-AddsOne w s url cat (err e) = ([], sym (append-nil w.results), omega arith)
  store-AddsOne w s url cat (ok vec) = (_, refl, omega arith)

  succeed-AddsOne :
      (w : World fl) (s : DistributedWorker fl) (url cat domain : Text) (n : ℕ)
      → AddsOne w (world_of (succeed fl round_2 message page w s url cat domain n))
  unfolding succeed
  succeed-AddsOne w s url cat domain n =
      store-AddsOne w
        (record s {
          cb = record_success fl s.cb;
          vc = (tick s.vc).1;
          domain_req = put equal s.domain_req domain (n + 1);
          urls_scraped = s.urls_scraped + 1;
        })
        url cat (tick s.vc).0

  pub wake-AddsOne :
      (w : World fl) (s : DistributedWorker fl) (r : Reading fl) (job : Job)
      → AddsOne w (world_of (wake fl round_2 message page w s r job))
  unfolding wake block give_back report
  wake-AddsOne w s r job =
      let n = or_default (get equal s.domain_req job.domain) 0 in
      either w (block fl round_2 message page w s r job.url job.cat job.domain n)
        (succeed fl round_2 message page w s job.url job.cat job.domain n) (r.fires n)
        ([], sym (append-nil w.results), omega arith)
        (succeed-AddsOne w s job.url job.cat job.domain n)

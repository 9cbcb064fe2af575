-- ===== src/Simulation/Worker/Identity.antt =====
-- What a turn leaves of a worker: its id, whether it has been killed, and whether it is to run.
use scrape_grid.Prelude.{
  ℕ, ◌+◌, ◌≡◌, refl, ◌∙◌, Bool, true, false, not, Option, none, some, List, [], ◌∷◌, if◌then◌else◌,
  Bool-cases, inl, inr,
}
use scrape_grid.Result.{Result, ok, err, ◌>>=◌}
use scrape_grid.Text.{Text, equal}
use scrape_grid.Floats.{FloatOps}
use scrape_grid.Dict.{get, put, or_default}
use scrape_grid.CircuitBreaker.{allow_request, record_success}
use scrape_grid.Clocks.Vector.{tick}
use scrape_grid.Simulation.Delay.{quotient, time_sleep, wait_page}
use scrape_grid.Simulation.{queue, domain_of, category_of}
use scrape_grid.Simulation.Worker.{
  World, DistributedWorker, Reading, Note, Page, Outcome, goes_on, raises, Job, Begun, over, sleeps,
  scraping, cooling,
}
use scrape_grid.Simulation.Worker.Steal.{busiest, pop, rob, steal_from, steal, url_from, next_url}
use scrape_grid.Simulation.Worker.Turn.{
  give_back, throttle, block, store, succeed, requeued, doze, attempt, visit, proceed, begin, wake,
  finish,
}

module _ (fl : FloatOps) (round_2 : fl.Float → fl.Float) (message : Note → Text)
    (page : Text → Page fl) where
  abbrev pub IsSame : DistributedWorker fl → DistributedWorker fl → Type 0
  IsSame s s' = (s'.node_id ≡ s.node_id) × (s'.killed ≡ s.killed) × (s'.running ≡ s.running)

  IsSame-trans : (a b c : DistributedWorker fl) → IsSame a b → IsSame b c → IsSame a c
  IsSame-trans a b c (id, alive, runs) (id', alive', runs') =
      (id' ∙ id, alive' ∙ alive, runs' ∙ runs)

  abbrev pub worker_of : Outcome fl → DistributedWorker fl
  worker_of (goes_on w s) = s
  worker_of (raises e urls w s) = s

  abbrev IsKept : DistributedWorker fl → Outcome fl → Type 0
  IsKept s o = IsSame s (worker_of o)

  either :
      (s : DistributedWorker fl) (b : Bool) (x y : Outcome fl)
      → IsKept s x
      → IsKept s y
      → IsKept s (if b then x else y)
  either s true x y h k = h
  either s false x y h k = k

  rob-IsSame :
      (w : World fl) (s : DistributedWorker fl) (r : Reading fl) (name : Text) (len : ℕ)
      (o : Option (List Text × Text))
      → IsSame s (rob fl round_2 message w s r name len o).1.1
  unfolding rob
  rob-IsSame w s r name len none = (refl, refl, refl)
  rob-IsSame w s r name len (some (rest, url)) = (refl, refl, refl)

  steal_from-IsSame :
      (w : World fl) (s : DistributedWorker fl) (r : Reading fl) (o : Option Text) (len : ℕ)
      → IsSame s (steal_from fl round_2 message w s r o len).1.1
  unfolding steal_from
  steal_from-IsSame w s r none len = (refl, refl, refl)
  steal_from-IsSame w s r (some name) len = rob-IsSame w s r name len (pop (queue w.shards name))

  url_from-IsSame :
      (w : World fl) (s : DistributedWorker fl) (r : Reading fl) (xs : List Text)
      → IsSame s (url_from fl round_2 message w s r xs).1.1
  unfolding url_from steal
  url_from-IsSame w s r [] =
      let (victim, len) = busiest s.shard_name w.shards none 0 in steal_from-IsSame w s r victim len
  url_from-IsSame w s r (url ∷ rest) = (refl, refl, refl)

  store-IsKept :
      (w : World fl) (s : DistributedWorker fl) (url cat : Text) (vec : Result (List ℕ))
      → IsKept s (store fl round_2 message page w s url cat vec)
  unfolding store
  store-IsKept w s url cat (err e) = (refl, refl, refl)
  store-IsKept w s url cat (ok vec) = (refl, refl, refl)

  succeed-IsKept :
      (w : World fl) (s : DistributedWorker fl) (url cat domain : Text) (n : ℕ)
      → IsKept s (succeed fl round_2 message page w s url cat domain n)
  unfolding succeed
  succeed-IsKept w s url cat domain n =
      store-IsKept w
        (record s {
          cb = record_success fl s.cb;
          vc = (tick s.vc).1;
          domain_req = put equal s.domain_req domain (n + 1);
          urls_scraped = s.urls_scraped + 1;
        })
        url cat (tick s.vc).0

  abbrev pub begun_worker : Begun fl → DistributedWorker fl
  begun_worker (over o) = worker_of o
  begun_worker (sleeps job w s) = s

  abbrev IsBegun : DistributedWorker fl → Begun fl → Type 0
  IsBegun s o = IsSame s (begun_worker o)

  either_begun :
      (s : DistributedWorker fl) (b : Bool) (x y : Begun fl)
      → IsBegun s x
      → IsBegun s y
      → IsBegun s (if b then x else y)
  either_begun s true x y h k = h
  either_begun s false x y h k = k

  requeued-IsKept :
      (w : World fl) (s : DistributedWorker fl) (slept : Result fl.Float)
      → IsKept s (requeued fl round_2 message page w s slept)
  unfolding requeued
  requeued-IsKept w s (err e) = (refl, refl, refl)
  requeued-IsKept w s (ok t) = (refl, refl, refl)

  doze-IsBegun :
      (w : World fl) (s : DistributedWorker fl) (job : Job) (slept : Result fl.Float)
      → IsBegun s (doze fl round_2 message page w s job slept)
  unfolding doze
  doze-IsBegun w s job (err e) = (refl, refl, refl)
  doze-IsBegun w s job (ok t) = (refl, refl, refl)

  attempt-IsBegun :
      (w : World fl) (s : DistributedWorker fl) (r : Reading fl) (url domain : Text)
      → IsBegun s (attempt fl round_2 message page w s r url domain)
  unfolding attempt throttle
  attempt-IsBegun w s r url domain =
      let cat = category_of url w.domain_map in
      let (served, w') = throttle fl round_2 message page w cat r.consume_at in
      let s' = record s { status = scraping cat; current_domain = some cat } in
      let job : Job = record { url = url; cat = cat; domain = domain } in
      let pause = quotient fl (fl.literal 2 100) s.speed >>= time_sleep fl in
      let wait = wait_page fl (page url).simulated_latency_ms s.speed (fl.literal 2 10) in
      let back = give_back fl round_2 message page w' s url in
      either_begun s (not served) (over (requeued fl round_2 message page back s pause))
        (doze fl round_2 message page w' s' job wait) (requeued-IsKept back s pause)
        (doze-IsBegun w' s' job wait)

  visit-IsBegun :
      (w : World fl) (s : DistributedWorker fl) (r : Reading fl) (url : Text) (d : Result Text)
      → IsBegun s (visit fl round_2 message page w s r url d)
  unfolding visit
  visit-IsBegun w s r url (err e) = (refl, refl, refl)
  visit-IsBegun w s r url (ok domain) = attempt-IsBegun w s r url domain

  proceed-IsBegun :
      (w : World fl) (s : DistributedWorker fl) (r : Reading fl) (got : Option Text)
      → IsBegun s (proceed fl round_2 message page w s r got)
  unfolding proceed
  proceed-IsBegun w s r none = (refl, refl, refl)
  proceed-IsBegun w s r (some url) = visit-IsBegun w s r url (domain_of url)

  -- No part of a turn changes the worker's id, whether it runs or whether it has been killed.
  pub begin-IsBegun :
      (w : World fl) (s : DistributedWorker fl) (r : Reading fl)
      → IsBegun s (begin fl round_2 message page w s r)
  unfolding begin next_url
  begin-IsBegun w s r =
      let ready = record s { cb = (allow_request fl s.cb r.gate_at).1 } in
      let (got, (w', s')) = next_url fl round_2 message w ready r in
      let turn = proceed fl round_2 message page w' s' r got in
      let gated = over (goes_on w (record ready { status = cooling s.shard_name })) in
      let same = url_from-IsSame w ready r (queue w.shards s.shard_name) in
      either_begun s (allow_request fl s.cb r.gate_at).0 turn gated
        (IsSame-trans ready s' (begun_worker turn) same (proceed-IsBegun w' s' r got))
        (refl, refl, refl)

  pub wake-IsKept :
      (w : World fl) (s : DistributedWorker fl) (r : Reading fl) (job : Job)
      → IsKept s (wake fl round_2 message page w s r job)
  unfolding wake block
  wake-IsKept w s r job =
      let n = or_default (get equal s.domain_req job.domain) 0 in
      either s (r.fires n) (block fl round_2 message page w s r job.url job.cat job.domain n)
        (succeed fl round_2 message page w s job.url job.cat job.domain n) (refl, refl, refl)
        (succeed-IsKept w s job.url job.cat job.domain n)

  pub finish-IsSame : (s : DistributedWorker fl) → IsSame s (finish fl round_2 message page s)
  unfolding finish
  finish-IsSame s = elim (Bool-cases s.killed) [
    | inl h ↦ rw h (refl, refl, refl)
    | inr h ↦ rw h (refl, refl, refl)
  ]

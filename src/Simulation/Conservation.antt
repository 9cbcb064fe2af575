-- ===== src/Simulation/Conservation.antt =====
-- Where a URL is before and after a turn of a worker: in a shard, in the result store, or in the hand
-- of a thread that an exception ended.
use scrape_grid.Prelude.{
  ℕ, ◌+◌, ◌≡◌, refl, ◌∙◌, ap, Bool, true, false, not, Option, none, some, List, [], ◌∷◌, ◌++◌,
  arith, if◌then◌else◌,
}
use scrape_grid.Result.{Result, ok, err, ◌>>=◌}
use scrape_grid.Text.{Text, equal}
use scrape_grid.Floats.{FloatOps}
use scrape_grid.Dict.{get, put, or_default}
use scrape_grid.CircuitBreaker.{allow_request, record_success}
use scrape_grid.Clocks.Vector.{tick}
use scrape_grid.Simulation.Delay.{quotient, time_sleep, wait_page}
use scrape_grid.Simulation.{queue, domain_of, category_of}
use scrape_grid.Simulation.Worker.{
  Note, Page, Scraped, World, DistributedWorker, Reading, Outcome, goes_on, raises, Job, Begun,
  over, sleeps, scraping, cooling, report,
}
use scrape_grid.Simulation.Worker.Steal.{busiest, pop, steal, next_url, rob, steal_from, url_from}
use scrape_grid.Simulation.Worker.Turn.{
  give_back, throttle, block, succeed, requeued, doze, attempt, begin, wake, complete, pass, visit,
  proceed, store, draw,
}
use scrape_grid.Simulation.Shards.{count, total, total-put, popped, popped-pop}

module _ (fl : FloatOps) (round_2 : fl.Float → fl.Float) (message : Note → Text)
    (page : Text → Page fl) where
  abbrev urls : List (Scraped fl) → List Text
  urls [] = []
  urls (x ∷ xs) = x.url ∷ urls xs

  count-urls :
      (u : Text) (xs : List (Scraped fl)) (x : Scraped fl)
      → count u (urls (xs ++ x ∷ [])) ≡ count u (urls xs) + count u (x.url ∷ [])
  count-urls u [] x = omega arith
  count-urls u (y ∷ ys) x = omega (arith, count-urls u ys x)

  -- How often `u` is in the shards and the result store.
  abbrev pub held : Text → World fl → ℕ
  held u w = total u w.shards + count u (urls w.results)

  abbrev hand : Option Text → List Text
  hand none = []
  hand (some url) = url ∷ []

  -- How often `u` is anywhere when a turn has ended.
  abbrev pub tally : Text → Outcome fl → ℕ
  tally u (goes_on w s) = held u w
  tally u (raises e urls w s) = held u w + count u urls

  -- What a search for a URL ends with holds as often `u` as there was.
  abbrev found : Text → Option Text × (World fl × DistributedWorker fl) → ℕ
  found u (got, (w, s)) = held u w + count u (hand got)

  rob-found :
      (u : Text) (w : World fl) (s : DistributedWorker fl) (r : Reading fl) (name : Text) (len : ℕ)
      (o : Option (List Text × Text))
      → popped u o ≡ count u (queue w.shards name)
      → found u (rob fl round_2 message w s r name len o) ≡ held u w
  unfolding rob report
  rob-found u w s r name len none h = omega arith
  rob-found u w s r name len (some (rest, url)) h = omega (arith, total-put u w.shards name rest)

  steal_from-found :
      (u : Text) (w : World fl) (s : DistributedWorker fl) (r : Reading fl) (o : Option Text)
      (len : ℕ)
      → found u (steal_from fl round_2 message w s r o len) ≡ held u w
  unfolding steal_from
  steal_from-found u w s r none len = omega arith
  steal_from-found u w s r (some name) len =
      rob-found u w s r name len (pop (queue w.shards name)) (popped-pop u (queue w.shards name))

  url_from-found :
      (u : Text) (w : World fl) (s : DistributedWorker fl) (r : Reading fl) (xs : List Text)
      → queue w.shards s.shard_name ≡ xs
      → found u (url_from fl round_2 message w s r xs) ≡ held u w
  unfolding url_from steal
  url_from-found u w s r [] h =
      let (victim, len) = busiest s.shard_name w.shards none 0 in
      steal_from-found u w s r victim len
  url_from-found u w s r (url ∷ rest) h =
      omega (arith, total-put u w.shards s.shard_name rest, ap (count u) h)

  store_lem :
      (u : Text) (w : World fl) (s : DistributedWorker fl) (url cat : Text) (vec : Result (List ℕ))
      → tally u (store fl round_2 message page w s url cat vec) ≡ held u w + count u (url ∷ [])
  unfolding store
  store_lem u w s url cat (err e) = refl
  store_lem u w s url cat (ok vec) = omega (arith, count-urls u w.results _)

  give_back_lem :
      (u : Text) (w : World fl) (s : DistributedWorker fl) (url : Text)
      → held u (give_back fl round_2 message page w s url) ≡ held u w + count u (url ∷ [])
  unfolding give_back
  give_back_lem u w s url =
      omega (arith, total-put u w.shards s.shard_name (url ∷ queue w.shards s.shard_name))

  draw-held :
      (u : Text) (w : World fl) (cat : Text) (o : Option _) (now : fl.Float)
      → held u (draw fl round_2 message page w cat o now).1 ≡ held u w
  unfolding draw
  draw-held u w cat none now = refl
  draw-held u w cat (some bucket) now = refl

  block_lem :
      (u : Text) (w : World fl) (s : DistributedWorker fl) (r : Reading fl) (url cat domain : Text)
      (n : ℕ)
      → tally u (block fl round_2 message page w s r url cat domain n)
        ≡ held u w + count u (url ∷ [])
  unfolding block report give_back
  block_lem u w s r url cat domain n =
      omega (arith, total-put u w.shards s.shard_name (url ∷ queue w.shards s.shard_name))

  succeed_lem :
      (u : Text) (w : World fl) (s : DistributedWorker fl) (url cat domain : Text) (n : ℕ)
      → tally u (succeed fl round_2 message page w s url cat domain n)
        ≡ held u w + count u (url ∷ [])
  unfolding succeed
  succeed_lem u w s url cat domain n =
      store_lem u w
        (record s {
          cb = record_success fl s.cb;
          vc = (tick s.vc).1;
          domain_req = put equal s.domain_req domain (n + 1);
          urls_scraped = s.urls_scraped + 1;
        })
        url cat (tick s.vc).0

  -- Whichever way a test goes, the branch it takes keeps the count.
  either :
      (u : Text) (b : Bool) (x y : Outcome fl) (n : ℕ)
      → tally u x ≡ n
      → tally u y ≡ n
      → tally u (if b then x else y) ≡ n
  either u true x y n h k = h
  either u false x y n h k = k

  -- How often `u` is anywhere when a turn is over or sleeps.
  abbrev pub begun_tally : Text → Begun fl → ℕ
  begun_tally u (over o) = tally u o
  begun_tally u (sleeps job w s) = held u w + count u (job.url ∷ [])

  either_begun :
      (u : Text) (b : Bool) (x y : Begun fl) (n : ℕ)
      → begun_tally u x ≡ n
      → begun_tally u y ≡ n
      → begun_tally u (if b then x else y) ≡ n
  either_begun u true x y n h k = h
  either_begun u false x y n h k = k

  requeued_lem :
      (u : Text) (w : World fl) (s : DistributedWorker fl) (slept : Result fl.Float)
      → tally u (requeued fl round_2 message page w s slept) ≡ held u w
  unfolding requeued
  requeued_lem u w s (err e) = omega arith
  requeued_lem u w s (ok t) = refl

  doze_lem :
      (u : Text) (w : World fl) (s : DistributedWorker fl) (job : Job) (slept : Result fl.Float)
      → begun_tally u (doze fl round_2 message page w s job slept)
        ≡ held u w + count u (job.url ∷ [])
  unfolding doze
  doze_lem u w s job (err e) = refl
  doze_lem u w s job (ok t) = refl

  attempt_lem :
      (u : Text) (w : World fl) (s : DistributedWorker fl) (r : Reading fl) (url domain : Text)
      → begun_tally u (attempt fl round_2 message page w s r url domain)
        ≡ held u w + count u (url ∷ [])
  unfolding attempt throttle
  attempt_lem u w s r url domain =
      let cat = category_of url w.domain_map in
      let (served, w') = throttle fl round_2 message page w cat r.consume_at in
      let s' = record s { status = scraping cat; current_domain = some cat } in
      let job : Job = record { url = url; cat = cat; domain = domain } in
      let pause = quotient fl (fl.literal 2 100) s.speed >>= time_sleep fl in
      let wait = wait_page fl (page url).simulated_latency_ms s.speed (fl.literal 2 10) in
      let back = give_back fl round_2 message page w' s url in
      either_begun u (not served) (over (requeued fl round_2 message page back s pause))
        (doze fl round_2 message page w' s' job wait) (held u w' + count u (url ∷ []))
        (requeued_lem u back s pause ∙ give_back_lem u w' s url) (doze_lem u w' s' job wait)
      ∙ ap (λ n. n + count u (url ∷ [])) (draw-held u w cat (get equal w.buckets cat) r.consume_at)

  visit_lem :
      (u : Text) (w : World fl) (s : DistributedWorker fl) (r : Reading fl) (url : Text)
      (d : Result Text)
      → begun_tally u (visit fl round_2 message page w s r url d) ≡ held u w + count u (url ∷ [])
  unfolding visit
  visit_lem u w s r url (err e) = refl
  visit_lem u w s r url (ok domain) = attempt_lem u w s r url domain

  proceed_lem :
      (u : Text) (w : World fl) (s : DistributedWorker fl) (r : Reading fl) (got : Option Text)
      → begun_tally u (proceed fl round_2 message page w s r got) ≡ held u w + count u (hand got)
  unfolding proceed
  proceed_lem u w s r none = omega arith
  proceed_lem u w s r (some url) = visit_lem u w s r url (domain_of url)

  pub begin-keeps :
      (u : Text) (w : World fl) (s : DistributedWorker fl) (r : Reading fl)
      → begun_tally u (begin fl round_2 message page w s r) ≡ held u w
  unfolding begin next_url
  begin-keeps u w s r =
      let ready = record s { cb = (allow_request fl s.cb r.gate_at).1 } in
      let (got, (w', s')) = next_url fl round_2 message w ready r in
      let turn = proceed fl round_2 message page w' s' r got in
      let gated = over (goes_on w (record ready { status = cooling s.shard_name })) in
      either_begun u (allow_request fl s.cb r.gate_at).0 turn gated (held u w)
        (proceed_lem u w' s' r got ∙ url_from-found u w ready r (queue w.shards s.shard_name) refl)
        refl

  pub wake-keeps :
      (u : Text) (w : World fl) (s : DistributedWorker fl) (r : Reading fl) (job : Job)
      → tally u (wake fl round_2 message page w s r job) ≡ held u w + count u (job.url ∷ [])
  unfolding wake
  wake-keeps u w s r job =
      let n = or_default (get equal s.domain_req job.domain) 0 in
      either u (r.fires n) (block fl round_2 message page w s r job.url job.cat job.domain n)
        (succeed fl round_2 message page w s job.url job.cat job.domain n)
        (held u w + count u (job.url ∷ [])) (block_lem u w s r job.url job.cat job.domain n)
        (succeed_lem u w s job.url job.cat job.domain n)

  complete-keeps :
      (u : Text) (b : Begun fl) (r : Reading fl)
      → tally u (complete fl round_2 message page b r) ≡ begun_tally u b
  unfolding complete
  complete-keeps u (over o) r = refl
  complete-keeps u (sleeps job w s) r = wake-keeps u w s r job

  -- However a turn goes, each URL is afterwards in the shards, in the result store and, if an
  -- exception ended the thread, in its hand as often as it was in the shards and the store before.
  pub pass-keeps :
      (u : Text) (w : World fl) (s : DistributedWorker fl) (r : Reading fl)
      → tally u (pass fl round_2 message page w s r) ≡ held u w
  unfolding pass
  pass-keeps u w s r =
      complete-keeps u (begin fl round_2 message page w s r) r ∙ begin-keeps u w s r

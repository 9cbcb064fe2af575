-- ===== src/Simulation/Worker/Turn.antt =====
-- `pass` is one turn of the body of the loop of `DistributedWorker._run`. It is made of `begin`, the
-- part before the turn sleeps over its URL, and `wake`, the part after: between these two other threads
-- act. The readings of the clock and the draw of `_ip_block_fires` are the fields of `Reading`. `page`
-- is `fake_page_content`, whose values are draws of `random.Random`.
use scrape_grid.Prelude.{
  ℕ, ◌+◌, Bool, true, not, Option, none, some, List, [], ◌∷◌, ◌++◌, ◌==◌, if◌then◌else◌,
}
use scrape_grid.Result.{Result, ok, err, ◌>>=◌}
use scrape_grid.Text.{Text, equal}
use scrape_grid.Floats.{FloatOps}
use scrape_grid.Dict.{get, put, or_default}
use scrape_grid.CircuitBreaker.{allow_request, record_success, record_failure}
use scrape_grid.TokenBucket.{TokenBucket, consume}
use scrape_grid.Clocks.Lamport.{increment}
use scrape_grid.Clocks.Vector.{tick}
use scrape_grid.Simulation.Delay.{quotient, time_sleep, wait_page}
use scrape_grid.Simulation.{queue, domain_of, category_of}
use scrape_grid.Simulation.Worker.{
  World, DistributedWorker, Reading, Note, ip_blocked, error, node_name, report, Page, Outcome,
  goes_on, raises, Job, Begun, over, sleeps, scraping_now, idle, done, cooling, scraping, blocked,
}
use scrape_grid.Simulation.Worker.Steal.{next_url}

module _ (fl : FloatOps) (round_2 : fl.Float → fl.Float) (message : Note → Text)
    (page : Text → Page fl) where
  open fl use {Float, of_ℕ, literal}

  -- `self._deque.appendleft(url)`
  unfoldable pub give_back : World fl → DistributedWorker fl → Text → World fl
  unfolding put
  give_back w s url = record w {
    shards = put equal w.shards s.shard_name (url ∷ queue w.shards s.shard_name);
  }

  -- The token bucket check: a category without a bucket is not limited.
  unfoldable pub draw : World fl → Text → Option (TokenBucket fl) → Float → Bool × World fl
  unfolding consume put
  draw w cat none now = (true, w)
  draw w cat (some bucket) now =
      let (served, bucket') = consume fl bucket now (of_ℕ 1) in
      (served, record w { buckets = put equal w.buckets cat bucket' })

  unfoldable pub throttle : World fl → Text → Float → Bool × World fl
  unfolding get draw
  throttle w cat now = draw w cat (get equal w.buckets cat) now

  -- The branch where a block fires.
  unfoldable pub block :
      World fl → DistributedWorker fl → Reading fl → (url cat domain : Text) → ℕ → Outcome fl
  unfolding record_failure report give_back put node_name
  block w s r url cat domain req_count =
      let s' = record s {
        cb = record_failure fl s.cb r.failure_at;
        blocks = s.blocks + 1;
        status = blocked cat;
        domain_req = put equal s.domain_req domain 0;
      } in
      goes_on
        (give_back
          (report fl round_2 message w (node_name s.node_id) error
            (ip_blocked cat domain req_count s'.cb.state) r.elapsed)
          s' url)
        s'

  -- The end of a success, once the vector clock has ticked or failed to.
  unfoldable pub store :
      World fl → DistributedWorker fl → (url cat : Text) → Result (List ℕ) → Outcome fl
  unfolding increment put
  store w s url cat (err e) = raises e (url ∷ []) w s
  store w s url cat (ok vec) =
      let (lts, clock) = increment w.clock in
      goes_on
        (record w {
          clock = clock;
          results =
              w.results
              ++ record {
                url = url;
                content = page url;
                category = cat;
                node_id = s.node_id;
                lamport = lts;
                vector = vec;
              }
                ∷ [];
          known_nodes =
              put ◌==◌ w.known_nodes s.node_id
                (record { activity = scraping_now; urls = s.urls_scraped; lamport = lts });
        })
        s

  -- The branch of a success.
  unfoldable pub succeed :
      World fl → DistributedWorker fl → (url cat domain : Text) → ℕ → Outcome fl
  unfolding record_success tick store put
  succeed w s url cat domain req_count =
      let (vec, vc) = tick s.vc in
      store w
        (record s {
          cb = record_success fl s.cb;
          vc = vc;
          domain_req = put equal s.domain_req domain (req_count + 1);
          urls_scraped = s.urls_scraped + 1;
        })
        url cat vec

  -- The turn of a category that is rate limited, its URL requeued, once the thread has slept or failed
  -- to.
  unfoldable pub requeued : World fl → DistributedWorker fl → Result Float → Outcome fl
  requeued w s (err e) = raises e [] w s
  requeued w s (ok t) = goes_on w s

  -- The turn at its sleep, if it can sleep.
  unfoldable pub doze : World fl → DistributedWorker fl → Job → Result Float → Begun fl
  doze w s job (err e) = over (raises e (job.url ∷ []) w s)
  doze w s job (ok t) = sleeps job w s

  -- The turn from the token bucket check to its sleep.
  unfoldable pub attempt :
      World fl → DistributedWorker fl → Reading fl → (url domain : Text) → Begun fl
  unfolding category_of throttle give_back requeued quotient time_sleep doze wait_page
  attempt w s r url domain =
      let cat = category_of url w.domain_map in
      let (served, w') = throttle w cat r.consume_at in
      let s' = record s { status = scraping cat; current_domain = some cat } in
      let pause = quotient fl (literal 2 100) s.speed >>= time_sleep fl in
      if not served
      then over (requeued (give_back w' s url) s pause)
      else doze w' s' (record { url = url; cat = cat; domain = domain })
          (wait_page fl (page url).simulated_latency_ms s.speed (literal 2 10))

  -- The turn once a domain has been read off the URL, or has failed to.
  unfoldable pub visit :
      World fl → DistributedWorker fl → Reading fl → Text → Result Text → Begun fl
  unfolding attempt
  visit w s r url (err e) = over (raises e (url ∷ []) w s)
  visit w s r url (ok domain) = attempt w s r url domain

  -- The turn once a URL has been looked for.
  unfoldable pub proceed : World fl → DistributedWorker fl → Reading fl → Option Text → Begun fl
  unfolding visit domain_of
  proceed w s r none = over (goes_on w (record s { status = idle }))
  proceed w s r (some url) = visit w s r url (domain_of url)

  -- A turn up to its sleep.
  unfoldable pub begin : World fl → DistributedWorker fl → Reading fl → Begun fl
  unfolding allow_request next_url proceed
  begin w s r =
      let (allowed, cb) = allow_request fl s.cb r.gate_at in
      let (got, (w', s')) = next_url fl round_2 message w (record s { cb = cb }) r in
      let turn = proceed w' s' r got in
      if allowed
      then turn
      else over (goes_on w (record s { cb = cb; status = cooling s.shard_name }))

  -- The rest of a turn, after its sleep.
  unfoldable pub wake : World fl → DistributedWorker fl → Reading fl → Job → Outcome fl
  unfolding block succeed get
  wake w s r job =
      let req_count = or_default (get equal s.domain_req job.domain) 0 in
      if r.fires req_count
      then block w s r job.url job.cat job.domain req_count
      else succeed w s job.url job.cat job.domain req_count

  -- The end of a turn during whose sleep no other thread acts.
  unfoldable pub complete : Begun fl → Reading fl → Outcome fl
  unfolding wake
  complete (over o) r = o
  complete (sleeps job w s) r = wake w s r job

  -- The whole turn, if no other thread acts during its sleep.
  unfoldable pub pass : World fl → DistributedWorker fl → Reading fl → Outcome fl
  unfolding begin complete
  pass w s r = complete (begin w s r) r

  -- What follows the loop of `_run`.
  unfoldable pub finish : DistributedWorker fl → DistributedWorker fl
  finish s = if s.killed then s else record s { status = done }

-- ===== src/Simulation/Scraper/Progress.antt =====
-- How the single scraper comes to its end when no block fires.
use scrape_grid.Prelude.{
  ℕ, ◌+◌, ◌<◌, ◌≡◌, refl, sym, ◌∙◌, ap, subst, true, false, some, Bool, List, [], ◌∷◌, ◌++◌, arith,
  All, length, Option-cases, inl, inr, if◌then◌else◌,
}
use scrape_grid.Text.{Text, equal, equal_iff}
use scrape_grid.Floats.{FloatOps}
use scrape_grid.Dict.{Dict, get, put, or_default}
use scrape_grid.Dict.Laws.{put-IsDict}
use scrape_grid.Simulation.Delay.{wait_page_lem}
use scrape_grid.Simulation.{queue}
use scrape_grid.Simulation.Scraper.{
  SingleNodeScraper, Reading, Outcome, goes_on, finishes, halts, raises, fill, init, start, sample,
  fetch, visit, succeed, pop_left, proceed, turn, run_once, find,
}
use scrape_grid.Simulation.Scraper
use scrape_grid.Simulation.Scraper.Keeps.{waiting, waiting-put}
use scrape_grid.Simulation.Scraper.Readable.{
  HasDomain, AllReadable, AllReadable-queue, AllReadable-put, keys-put, find-some, fill_lem,
}
use scrape_grid.Simulation.Scraper.Search.{IsReady, Finishes, proceed_iff, turn-Finishes_iff}

module _ (fl : FloatOps) (round_1 round_2 : fl.Float → fl.Float) where
  -- The outcome of some turns in a row.
  abbrev next : Outcome fl → (SingleNodeScraper fl → Outcome fl) → Outcome fl
  next (goes_on s) more = more s
  next (finishes s) more = finishes s
  next (halts s) more = halts s
  next (raises e urls s) more = raises e urls s

  unfoldable pub run : SingleNodeScraper fl → List (Reading fl) → Outcome fl
  unfolding run_once
  run s [] = goes_on s
  run s (r ∷ rs) = next (run_once fl round_1 round_2 s r) (λ s'. run s' rs)

  -- The scraper runs at a speed above zero and searches all its queues, and a domain can be read off
  -- each of its URLs.
  pub record IsGoing (s : SingleNodeScraper fl) : Type 0 where
    pub ready : IsReady fl round_1 round_2 s
    pub readable : AllReadable s.queues
    pub running : s.running ≡ true
    pub moving : fl.le s.speed fl.zero ≡ false

  -- What one more URL scraped makes of a scraper.
  abbrev IsStep : SingleNodeScraper fl → Outcome fl → Type 0
  IsStep s o =
      (s' : SingleNodeScraper fl) × (o ≡ goes_on s')
      × IsGoing s'
      × (s'.urls_scraped ≡ s.urls_scraped + 1)
      × (waiting s'.queues + 1 ≡ waiting s.queues)

  abbrev pub NeverFires : Reading fl → Type 0
  NeverFires r = (n : ℕ) → r.fires n ≡ false

  pop_left_lem :
      (s : SingleNodeScraper fl) (r : Reading fl) (cat url : Text) (rest : List Text)
      → IsGoing s
      → NeverFires r
      → queue s.queues cat ≡ url ∷ rest
      → IsStep s (pop_left fl round_1 round_2 s r cat (url ∷ rest))
  unfolding pop_left visit fetch succeed
  pop_left_lem s r cat url rest going calm at =
      let readable : All HasDomain (url ∷ rest) =
        rw at at (AllReadable-queue s.queues cat going.readable) in
      let (d, e) = readable.0 in
      let (t, waits) =
        wait_page_lem fl r.simulated_latency_ms s.speed (fl.literal 3 10) going.moving
          (fl.literal_nonneg 3 10) in
      let queues = put equal s.queues cat rest in
      let n = or_default (get equal s.domain_req d) 0 in
      let busy = record s {
        queues = queues;
        status = Scraper.scraping cat;
        current_domain = some cat;
      } in
      (
        succeed fl round_1 round_2 busy d n,
        rw (e, waits, calm n) refl,
        record {
          ready = record {
            dict = put-IsDict equal equal_iff s.queues cat rest going.ready.dict;
            complete = going.ready.complete ∙ sym (keys-put s.queues cat url rest rest at);
          };
          readable = AllReadable-put s.queues cat rest going.readable readable.1;
          running = going.running;
          moving = going.moving;
        },
        refl,
        omega (arith, waiting-put s.queues cat rest, ap length at),
      )

  -- A scraper that differs from `s` in its records of the time only.
  abbrev IsLike : SingleNodeScraper fl → SingleNodeScraper fl → Type 0
  IsLike s x = IsGoing x × (x.urls_scraped ≡ s.urls_scraped) × (x.queues ≡ s.queues)

  either :
      (s x y : SingleNodeScraper fl) (b : Bool)
      → IsLike s x
      → IsLike s y
      → IsLike s (if b then x else y)
  either s x y true h k = h
  either s x y false h k = k

  sample-IsLike :
      (s : SingleNodeScraper fl) (now : fl.Float)
      → IsGoing s
      → IsLike s (sample fl round_1 round_2 s now)
  unfolding sample
  sample-IsLike s now going =
      let noted = record s {
        throughput_history = s.throughput_history ++ (round_1 now, s.urls_scraped) ∷ [];
        last_snapshot = now;
      } in
      let same : IsGoing noted = record {
        ready = record { dict = going.ready.dict; complete = going.ready.complete };
        readable = going.readable;
        running = going.running;
        moving = going.moving;
      } in
      either s noted s (fl.le (fl.of_ℕ 1) (fl.sub now s.last_snapshot)) (same, refl, refl)
        (going, refl, refl)

  turn_lem :
      (s : SingleNodeScraper fl) (r : Reading fl)
      → IsGoing s
      → NeverFires r
      → 0 < waiting s.queues
      → IsStep s (turn fl round_1 round_2 s r)
  unfolding turn proceed
  turn_lem s r going calm some_wait =
      let (found, cat_idx) = find s.categories s.queues (length s.categories) s.cat_idx in
      let sampled = sample fl round_1 round_2 s r.now in
      let (like, urls, queues) = sample-IsLike s r.now going in
      let base = record sampled { cat_idx = cat_idx } in
      let going_base : IsGoing base = record {
        ready = record { dict = like.ready.dict; complete = like.ready.complete };
        readable = like.readable;
        running = like.running;
        moving = like.moving;
      } in
      elim (Option-cases found) [
        | inl nothing ↦
            let over = (proceed_iff fl round_1 round_2 base r found).1 nothing in
            let none_wait = (turn-Finishes_iff fl round_1 round_2 s r going.ready).0 over in
            absurd (omega arith)
        | inr (cat, at) ↦
            let (url, rest, first) =
              find-some s.categories s.queues (length s.categories) s.cat_idx cat at in
            let there = ap (λ q. queue q cat) queues ∙ first in
            let (s', e, going', more, less) =
              pop_left_lem base r cat url rest going_base calm there in
            (
              s',
              ap (proceed fl round_1 round_2 base r) at
                  ∙ ap (pop_left fl round_1 round_2 base r cat) there
                  ∙ e,
              going',
              omega (arith, more, urls),
              omega (arith, less, ap waiting queues),
            )
      ]

  once_running :
      (s : SingleNodeScraper fl) (r : Reading fl)
      → IsGoing s
      → run_once fl round_1 round_2 s r ≡ turn fl round_1 round_2 s r
  unfolding run_once
  once_running s r going = rw going.running refl

  pub run_lem :
      (s : SingleNodeScraper fl) (rs : List (Reading fl))
      → IsGoing s
      → All NeverFires rs
      → length rs ≡ waiting s.queues
      → (s' : SingleNodeScraper fl) × (run s rs ≡ goes_on s')
        × IsGoing s'
        × (s'.urls_scraped ≡ s.urls_scraped + length rs)
        × (waiting s'.queues ≡ 0)
  unfolding run
  run_lem s [] going calm h = (s, refl, going, omega arith, sym h)
  run_lem s (r ∷ rs) going (c, cs) h =
      let (s1, e, going1, more, less) = turn_lem s r going c (omega arith) in
      let (s2, f, going2, all, none_left) = run_lem s1 rs going1 cs (omega arith) in
      (
        s2,
        ap (λ o. next o (λ s'. run s' rs)) (once_running s r going ∙ e) ∙ f,
        going2,
        omega arith,
        none_left,
      )

module _ (fl : FloatOps) (round_1 round_2 : fl.Float → fl.Float) where
  -- A scraper that is started at a speed above zero on a pool of URLs off each of which a domain can be
  -- read, and that no block hits, has scraped them all after as many turns as there are URLs, and finishes with its next turn.
  pub run-scrapes :
      (url_pool : List Text) (domain_map : Dict Text Text) (speed : fl.Float)
      (rs : List (Reading fl))
      → All HasDomain url_pool
      → fl.le speed fl.zero ≡ false
      → All (NeverFires fl round_1 round_2) rs
      → length rs ≡ length url_pool
      → (s : SingleNodeScraper fl) × (run fl round_1 round_2
            (start fl (init fl url_pool domain_map speed))
            rs
          ≡ goes_on s)
        × (s.urls_scraped ≡ length url_pool)
        × ((r : Reading fl) → Finishes fl round_1 round_2 (run_once fl round_1 round_2 s r))
  unfolding start init
  run-scrapes pool m speed rs readable moving calm long =
      let (d, r, all) = fill_lem m pool [] tt tt readable in
      let started = start fl (init fl pool m speed) in
      let going : IsGoing fl round_1 round_2 started = record {
        ready = record { dict = d; complete = refl };
        readable = r;
        running = refl;
        moving = moving;
      } in
      let (s, e, going', scraped, done) =
        run_lem fl round_1 round_2 started rs going calm (omega (arith, all)) in
      (
        s,
        e,
        omega (arith, scraped),
        λ r.
            subst (Finishes fl round_1 round_2) (sym (once_running fl round_1 round_2 s r going'))
              ((turn-Finishes_iff fl round_1 round_2 s r going'.ready).1 done),
      )

-- ===== src/Simulation/Scraper/Search.antt =====
-- When a turn of the single scraper finds no URL.
use scrape_grid.Prelude.{
  ℕ, ◌≡◌, refl, sym, ◌∙◌, ap, ◌↔◌, Option, none, some, List, [], ◌∷◌, length, get_elem?, Bool, true,
  false, if◌then◌else◌,
}
use mathlib.Core.Option.{none-ne-some}
use scrape_grid.Result.{Result, ok, err}
use scrape_grid.Text.{Text, equal, equal_iff}
use scrape_grid.Floats.{FloatOps}
use scrape_grid.Dict.{get, put, or_default, keys}
use scrape_grid.Dict.Laws.{IsDict}
use scrape_grid.Simulation.Delay.{time_sleep}
use scrape_grid.Simulation.{queue, domain_of}
use scrape_grid.Simulation.Scraper.{
  SingleNodeScraper, Reading, Outcome, goes_on, finishes, halts, raises, sample, back_off,
  block_for, block, fetch, visit, succeed, pop_left, proceed, turn, find,
}
use scrape_grid.Simulation.Scraper.Keeps.{waiting}
use scrape_grid.Simulation.Scraper.Rounds.{find-none_all, find-Empty, waiting_none, waiting-Empty}

module _ (fl : FloatOps) (round_1 round_2 : fl.Float → fl.Float) where
  abbrev pub Finishes : Outcome fl → Type 0
  Finishes (finishes s) = Unit
  Finishes (goes_on s) = ⊥
  Finishes (halts s) = ⊥
  Finishes (raises e urls s) = ⊥

  back_off_goes :
      (s : SingleNodeScraper fl) (r : Reading fl) (slept : Result fl.Float)
      → ¬ Finishes (back_off fl round_1 round_2 s r slept)
  unfolding back_off
  back_off_goes s r (err e) h = h
  back_off_goes s r (ok t) h = h

  block_for_goes :
      (s : SingleNodeScraper fl) (r : Reading fl) (url cat domain : Text) (n : ℕ)
      (backoff : Result fl.Float)
      → ¬ Finishes (block_for fl round_1 round_2 s r url cat domain n backoff)
  unfolding block_for
  block_for_goes s r url cat domain n (err e) h = h
  block_for_goes s r url cat domain n (ok backoff) h = back_off_goes _ r (time_sleep fl backoff) h

  either_goes :
      (x y : Outcome fl) (b : Bool) → ¬ Finishes x → ¬ Finishes y → ¬ Finishes (if b then x else y)
  either_goes x y true h k = h
  either_goes x y false h k = k

  fetch_goes :
      (s : SingleNodeScraper fl) (r : Reading fl) (url cat domain : Text) (waited : Result fl.Float)
      → ¬ Finishes (fetch fl round_1 round_2 s r url cat domain waited)
  unfolding fetch block
  fetch_goes s r url cat domain (err e) h = h
  fetch_goes s r url cat domain (ok t) h =
      let n = or_default (get equal s.domain_req domain) 0 in
      either_goes (block fl round_1 round_2 s r url cat domain n)
        (goes_on (succeed fl round_1 round_2 s domain n)) (r.fires n)
        (block_for_goes s r url cat domain n _) (λ k. k) h

  visit_goes :
      (s : SingleNodeScraper fl) (r : Reading fl) (url cat : Text) (d : Result Text)
      → ¬ Finishes (visit fl round_1 round_2 s r url cat d)
  unfolding visit
  visit_goes s r url cat (err e) h = h
  visit_goes s r url cat (ok domain) h = fetch_goes _ r url cat domain _ h

  pop_left_goes :
      (s : SingleNodeScraper fl) (r : Reading fl) (cat : Text) (urls : List Text)
      → ¬ Finishes (pop_left fl round_1 round_2 s r cat urls)
  unfolding pop_left
  pop_left_goes s r cat [] h = h
  pop_left_goes s r cat (url ∷ rest) h =
      visit_goes (record s { queues = put equal s.queues cat rest }) r url cat (domain_of url) h

  pub proceed_iff :
      (s : SingleNodeScraper fl) (r : Reading fl) (found : Option Text)
      → Finishes (proceed fl round_1 round_2 s r found) ↔ (found ≡ none)
  unfolding proceed
  proceed_iff s r none = ((λ h. refl), (λ h. tt))
  proceed_iff s r (some cat) = (
    (λ h. absurd (pop_left_goes s r cat (queue s.queues cat) h)),
    (λ h. absurd (none-ne-some cat (sym h))),
  )

  -- The scraper searches the queues of all its categories, each once in the dictionary.
  pub record IsReady (s : SingleNodeScraper fl) : Type 0 where
    pub dict : IsDict equal equal_iff s.queues
    pub complete : s.categories ≡ keys s.queues

  -- Whatever category the round-robin stands at, a turn of a scraper that searches all its queues
  -- finishes just when no URL waits in any of them.
  pub turn-Finishes_iff :
      (s : SingleNodeScraper fl) (r : Reading fl)
      → IsReady s
      → Finishes (turn fl round_1 round_2 s r) ↔ (waiting s.queues ≡ 0)
  unfolding turn sample
  turn-Finishes_iff s r ready =
      let (found, cat_idx) = find s.categories s.queues (length s.categories) s.cat_idx in
      let sampled = sample fl round_1 round_2 s r.now in
      let (over, ends) = proceed_iff (record sampled { cat_idx = cat_idx }) r found in
      (
        λ h. waiting_none s.queues ready.dict (λ i cat at.
            find-none_all s.categories s.queues s.cat_idx (over h) i cat
              (ap (λ cats. get_elem? cats i) ready.complete ∙ at)),
        λ h. ends (
            find-Empty s.categories s.queues (length s.categories) s.cat_idx
              (waiting-Empty s.queues h)),
      )

-- ===== src/Simulation/Scraper/Snapshot.antt =====
-- `SingleNodeScraper.snapshot`, and the rate that `DistributedFleet.snapshot` computes likewise.
use scrape_grid.Prelude.{ℕ, Option, List, [], ◌∷◌}
use scrape_grid.Text.{Text}
use scrape_grid.Floats.{FloatOps, fmax}
use scrape_grid.Simulation.Scraper.{SingleNodeScraper, Status, Block}

module _ (fl : FloatOps) where
  open fl use {Float, zero, of_ℕ, literal, sub, mul, div}

  -- The rate between the last two entries.
  unfoldable pub rate : (round_1 : Float → Float) → List (Float × ℕ) → Float
  rate round_1 [] = zero
  rate round_1 (x ∷ []) = zero
  rate round_1 (x ∷ y ∷ []) =
      round_1 (div (sub (of_ℕ y.1) (of_ℕ x.1)) (fmax fl (sub y.0 x.0) (literal 1 1000)))
  rate round_1 (x ∷ y ∷ z ∷ hist) = rate round_1 (y ∷ z ∷ hist)

  pub record ScraperSnapshot : Type 0 where
    pub urls_scraped : ℕ
    pub blocks : ℕ
    pub status : Status
    pub current_domain : Option Text
    pub dead_pct : Float
    pub rate : Float
    pub block_events : List (Block fl)
    pub throughput_history : List (Float × ℕ)

  unfoldable pub snapshot :
      (round_1 : Float → Float) → SingleNodeScraper fl → (elapsed : Float) → ScraperSnapshot
  unfolding rate
  snapshot round_1 s elapsed = record {
    urls_scraped = s.urls_scraped;
    blocks = s.blocks;
    status = s.status;
    current_domain = s.current_domain;
    dead_pct = round_1 (mul (div s.dead_time_s (fmax fl elapsed (literal 1 1000))) (of_ℕ 100));
    rate = rate round_1 s.throughput_history;
    block_events = s.block_events;
    throughput_history = s.throughput_history;
  }

-- ===== src/Simulation/Engine/Start.antt =====
-- The engine that `SimulationEngine.__init__` makes.
use scrape_grid.Prelude.{
  ℕ, ◌+◌, ◌≤◌, ◌<◌, ◌≡◌, ◌≢◌, refl, sym, ◌∙◌, ap, List, [], ◌∷◌, ◌++◌, arith, All, length,
  Bool-cases, inl, inr,
}
use scrape_grid.Result.{Result, ok, err, ◌>>=◌}
use scrape_grid.Text.{Text, equal, equal_iff}
use scrape_grid.Floats.{FloatOps}
use scrape_grid.Dict.{Dict, keys, put}
use scrape_grid.Clocks.Lamport
use scrape_grid.EventLog
use scrape_grid.BloomFilter
use scrape_grid.BloomFilter.{BloomFilter}
use scrape_grid.BloomFilter.Blank
use scrape_grid.HashRing
use scrape_grid.UrlGenerator.{domain_categories, read}
use scrape_grid.Simulation.{Shards, queue, category_of}
use scrape_grid.Simulation.Shards.{count, total, total-put, count-append}
use scrape_grid.Simulation.Worker.{Note, Page, report}
use scrape_grid.Simulation.Conservation.{held}
use scrape_grid.Simulation.Scraper
use scrape_grid.Simulation.Prepass.{Distinct, IsSifted, prepass, prepass_lem}
use scrape_grid.Simulation.Fleet.{DistributedFleet}
use scrape_grid.Simulation.Fleet.Scaling.{alive, IsValid}
use scrape_grid.Simulation.Fleet.Building
use scrape_grid.Simulation.Engine.{SimulationEngine, Config, note}
use scrape_grid.Simulation.Engine.Boot.{add_all, assemble, build_fleet, init}

total-fill :
    (u : Text) (domain_map : Dict Text Text) (queues : Shards) (urls : List Text)
    → total u (Scraper.fill domain_map queues urls) ≡ total u queues + count u urls
unfolding Scraper.fill
total-fill u m queues [] = omega arith
total-fill u m queues (url ∷ urls) =
    let cat = category_of url m in
    let dq = queue queues cat in
    omega (
      arith,
      total-fill u m (put equal queues cat (dq ++ url ∷ [])) urls,
      total-put u queues cat (dq ++ url ∷ []),
      count-append u dq (url ∷ []),
    )

count_absent : (u : Text) (xs : List Text) → All (λ y. u ≢ y) xs → count u xs ≡ 0
count_absent u [] h = refl
count_absent u (x ∷ xs) (other, h) = elim (Bool-cases (equal x u)) [
  | inl same ↦ absurd (other (sym ((equal_iff x u).0 same)))
  | inr apart ↦ rw apart (omega (arith, count_absent u xs h))
]

count-Distinct : (u : Text) (xs : List Text) → Distinct xs → count u xs ≤ 1
count-Distinct u [] d = omega arith
count-Distinct u (x ∷ xs) (apart, d) = elim (Bool-cases (equal x u)) [
  | inl same ↦
      let absent = count_absent u xs (rw (sym ((equal_iff x u).0 same)) apart) in
      rw same (omega (arith, absent))
  | inr other ↦ rw other (omega (arith, count-Distinct u xs d))
]

abbrev first_of : List Text → Text
first_of [] = []
first_of (x ∷ xs) = x

abbrev caught : {F : Type 0} → Result (BloomFilter F) → ℕ
caught (err e) = 0
caught (ok f) = f.duplicates_caught

init_caught :
    {F : Type 0} (size : ℕ → F → ℕ) (hashes : ℕ → ℕ → ℕ) (rate : F) (f : BloomFilter F)
    → BloomFilter.init size hashes 25000 rate ≡ ok f
    → f.duplicates_caught ≡ 0
unfolding BloomFilter.init
init_caught size hashes rate f e = sym (ap caught e)

module _ (fl : FloatOps) (size : ℕ → fl.Float → ℕ) (hashes : ℕ → ℕ → ℕ) (md5 hex : Text → List ℕ)
    (round_1 round_2 : fl.Float → fl.Float) (message : Note → Text) (page : Text → Page fl) where
  abbrev Built : Config fl → List Text → DistributedFleet fl → Type 0
  Built cfg filtered f =
      IsValid fl f
      × (alive fl f.workers ≡ cfg.initial_nodes)
      × ((u : Text) → held fl round_2 message page u f.world ≡ count u filtered)

  build_fleet_lem :
      (cfg : Config fl) (filtered : List Text) (domain_map : Dict Text Text) (now : fl.Float)
      → (f : DistributedFleet fl) × (build_fleet fl size hashes md5 hex round_2 message cfg filtered
            domain_map now
          ≡ ok f)
        × Built cfg filtered f
  unfolding build_fleet read
  build_fleet_lem cfg filtered m now =
      let (f, done, valid, living, holds) =
        Building.init_lem fl hex round_1 round_2 message page cfg.initial_nodes
          (keys domain_categories) (first_of (keys domain_categories)) filtered m cfg.speed
          cfg.max_nodes cfg.min_nodes cfg.auto_scale Lamport.init EventLog.init
          (add_all hex (HashRing.init 150) (keys domain_categories)) now (omega arith) in
      (f, done, (valid, living, holds))

  -- What the two systems of a new engine have.
  abbrev pub IsFair : Config fl → List Text → SimulationEngine fl → Type 0
  IsFair cfg raw_pool e =
      IsValid fl e.threads.fleet
      × (alive fl e.threads.fleet.workers ≡ cfg.initial_nodes)
      × (e.url_pool_filtered + e.bloom.duplicates_caught ≡ length raw_pool)
      × ((u : Text)
          → (total u e.single.queues ≡ held fl round_2 message page u e.threads.fleet.world)
            × (held fl round_2 message page u e.threads.fleet.world ≤ 1))

  -- If the filter's bit count is positive, the construction succeeds, whatever the pool: both systems have
  -- the same URLs, none of them twice, the fleet is valid with as many living workers as configured, and the
  -- URLs kept and the duplicates caught make up the pool.
  pub init_lem :
      (cfg : Config fl) (raw_pool : List Text) (domain_map : Dict Text Text) (now : fl.Float)
      (timeout : ℕ → fl.Float)
      → 0 < size 25000 (fl.literal 1 100)
      → (e : SimulationEngine fl) × (init fl size hashes md5 hex round_2 message cfg raw_pool
            domain_map now timeout
          ≡ ok e)
        × IsFair cfg raw_pool e
  unfolding init assemble note report Scraper.init
  init_lem cfg raw_pool m now timeout sized =
      let (bloom, made, valid, empty) =
        Blank.init_lem size hashes 25000 (fl.literal 1 100) (omega arith) sized in
      let sifting : IsSifted md5 (bloom, []) = record {
        valid = valid;
        found = tt;
        distinct = tt;
      } in
      let (sifted, passed, ends, counted) = prepass_lem md5 (bloom, []) raw_pool sifting in
      let (fleet, built, (fleet_valid, living, holds)) = build_fleet_lem cfg sifted.1 m now in
      let then_assemble : DistributedFleet fl → Result (SimulationEngine fl) = λ f.
        ok (assemble fl size hashes md5 hex round_2 message cfg raw_pool m sifted now timeout f) in
      let then_build : BloomFilter fl.Float × List Text → Result (SimulationEngine fl) = λ p.
        build_fleet fl size hashes md5 hex round_2 message cfg p.1 m now >>= λ f.
        ok (assemble fl size hashes md5 hex round_2 message cfg raw_pool m p now timeout f) in
      let then_sift : BloomFilter fl.Float → Result (SimulationEngine fl) =
        λ b. prepass md5 (b, []) raw_pool >>= then_build in
      (
        assemble fl size hashes md5 hex round_2 message cfg raw_pool m sifted now timeout fleet,
        ap (λ r. r >>= then_sift) made
            ∙ (ap (λ r. r >>= then_build) passed ∙ ap (λ r. r >>= then_assemble) built),
        (
          record { dict = fleet_valid.dict; keyed = fleet_valid.keyed },
          living,
          omega (arith, counted, init_caught size hashes (fl.literal 1 100) bloom made),
          λ u. (
            omega (arith, total-fill u m [] sifted.1, holds u),
            omega (arith, holds u, count-Distinct u sifted.1 ends.distinct),
          ),
        ),
      )

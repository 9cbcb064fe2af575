-- ===== src/Simulation/Fleet/Sleepers.antt =====
-- The turns of a fleet's workers that sleep.
use scrape_grid.Prelude.{
  ℕ, zero, suc, ◌+◌, ◌≡◌, refl, Option, none, some, List, [], ◌∷◌, arith, length,
}
use scrape_grid.Text.{Text}
use scrape_grid.Simulation.Shards.{count}
use scrape_grid.Simulation.Worker.{Job}
use scrape_grid.Simulation.Fleet.Run.{picked}

-- How often the turns sleep over `u`.
abbrev pub slept : Text → List (ℕ × Job) → ℕ
slept u [] = 0
slept u ((nid, job) ∷ jobs) = count u (job.url ∷ []) + slept u jobs

-- What is taken out is one of the turns, and the others are left.
abbrev pub IsPicked : List (ℕ × Job) → Option ((ℕ × Job) × List (ℕ × Job)) → Type 0
IsPicked jobs none = Unit
IsPicked jobs (some ((nid, job), others)) =
    (length jobs ≡ suc (length others))
    × ((u : Text) → slept u jobs ≡ count u (job.url ∷ []) + slept u others)

behind :
    (x : ℕ × Job) (jobs : List (ℕ × Job)) (o : Option ((ℕ × Job) × List (ℕ × Job)))
    → IsPicked jobs o
    → IsPicked (x ∷ jobs) (elim o as (λ _. Option ((ℕ × Job) × List (ℕ × Job))) [
      | none ↦ none
      | some (y, ys) ↦ some (y, x ∷ ys)
    ])
behind x jobs none h = tt
behind x jobs (some ((nid, job), others)) (long, all) = (omega arith, λ u. omega (arith, all u))

pub picked_lem : (i : ℕ) (jobs : List (ℕ × Job)) → IsPicked jobs (picked i jobs)
unfolding picked
picked_lem i [] = tt
picked_lem zero (x ∷ jobs) = (refl, λ u. refl)
picked_lem (suc i) (x ∷ jobs) = behind x jobs (picked i jobs) (picked_lem i jobs)

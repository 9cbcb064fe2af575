-- ===== src/Simulation/Fleet/Rewriting.antt =====
-- Workers written back into a fleet, and what that does to its count of living ones.
use scrape_grid.Prelude.{
  ℕ, suc, ◌<◌, ◌≡◌, refl, sym, ◌∙◌, ap, subst, Bool, true, false, none, some, List, [], ◌∷◌, arith,
  ◌==◌, ==_iff, if◌then◌else◌, length, Bool-cases, inl, inr,
}
use mathlib.Core.Option.{some-injective, none-ne-some}
use scrape_grid.Floats.{FloatOps}
use scrape_grid.Dict.{Dict, get, put}
use scrape_grid.Dict.Laws.{IsDict, put-IsDict}
use scrape_grid.Simulation.Worker.{DistributedWorker}
use scrape_grid.Simulation.Fleet.{each}
use scrape_grid.Simulation.Fleet.Autoscale.{living}
use scrape_grid.Simulation.Fleet.Scaling.{alive, held, one, IsKeyed, alive-put, IsKeyed-put}

module _ (fl : FloatOps) where
  Keyed-get :
      (n : ℕ) (workers : Dict ℕ (DistributedWorker fl)) (nid : ℕ) (w : DistributedWorker fl)
      → IsKeyed fl n workers
      → get ◌==◌ workers nid ≡ some w
      → (w.node_id ≡ nid) × (nid < n)
  unfolding get
  Keyed-get n [] nid w k h = cc
  Keyed-get n ((i, v) ∷ workers) nid w ((same, below), k) h = elim (Bool-cases (i == nid)) [
    | inl b ↦
        let id = (==_iff i nid).0 b in
        let this = some-injective v w (rw b at h) in
        (sym (ap (λ x. x.node_id) this) ∙ same ∙ id, subst (λ j. j < n) id below)
    | inr b ↦ Keyed-get n workers nid w k (rw b at h)
  ]

  marked : (w w' : DistributedWorker fl) → w'.killed ≡ w.killed → one fl w' ≡ one fl w
  marked w w' h = rw h refl

  -- A worker written back under its id with the id and the mark that it had.
  pub put_back :
      (n : ℕ) (workers : Dict ℕ (DistributedWorker fl)) (nid : ℕ) (w w' : DistributedWorker fl)
      → IsDict ◌==◌ ==_iff workers
      → IsKeyed fl n workers
      → get ◌==◌ workers nid ≡ some w
      → (w'.node_id ≡ w.node_id) × (w'.killed ≡ w.killed)
      → IsDict ◌==◌ ==_iff (put ◌==◌ workers nid w')
        × IsKeyed fl n (put ◌==◌ workers nid w')
        × (alive fl (put ◌==◌ workers nid w') ≡ alive fl workers)
  put_back n workers nid w w' d k h (id, mark) =
      let (own, below) = Keyed-get n workers nid w k h in
      (
        put-IsDict ◌==◌ ==_iff workers nid w' d,
        IsKeyed-put fl n workers nid w' (id ∙ own) below k,
        omega (arith, alive-put fl workers nid w', ap (held fl) h, marked w w' mark),
      )

  counted :
      (b' b : Bool) (w' w : DistributedWorker fl) (rest' rest : List (DistributedWorker fl))
      → b' ≡ b
      → length rest' ≡ length rest
      → length (if b' then rest' else w' ∷ rest') ≡ length (if b then rest else w ∷ rest)
  counted true true w' w rest' rest h count = count
  counted false false w' w rest' rest h count = ap suc count
  counted true false w' w rest' rest h count = cc
  counted false true w' w rest' rest h count = cc

  -- `start` and `stop` of all workers.
  module _ (f : DistributedWorker fl → DistributedWorker fl)
      (same : (w : DistributedWorker fl)
        → ((f w).node_id ≡ w.node_id) × ((f w).killed ≡ w.killed)) where
    get-each_absent :
        (workers : Dict ℕ (DistributedWorker fl)) (nid : ℕ)
        → get ◌==◌ workers nid ≡ none
        → get ◌==◌ (each fl f workers) nid ≡ none
    unfolding get each
    get-each_absent [] nid h = refl
    get-each_absent ((i, w) ∷ workers) nid h = elim (Bool-cases (i == nid)) [
      | inl b ↦ absurd (none-ne-some w (sym (rw b at h)))
      | inr b ↦ rw b (get-each_absent workers nid (rw b at h))
    ]

    pub each_lem :
        (n : ℕ) (workers : Dict ℕ (DistributedWorker fl))
        → IsDict ◌==◌ ==_iff workers
        → IsKeyed fl n workers
        → IsDict ◌==◌ ==_iff (each fl f workers)
          × IsKeyed fl n (each fl f workers)
          × (alive fl (each fl f workers) ≡ alive fl workers)
    unfolding each living
    each_lem n [] d k = (tt, tt, refl)
    each_lem n ((i, w) ∷ workers) (fresh, d) ((own, below), k) =
        let (d', k', count) = each_lem n workers d k in
        (
          (get-each_absent workers i fresh, d'),
          (((same w).0 ∙ own, below), k'),
          counted (f w).killed w.killed (f w) w (living fl (each fl f workers)) (living fl workers)
              (same w).1 count,
        )

-- ===== src/Simulation/Fleet/Scaling.antt =====
-- How many workers live, and what each operation of the fleet does to that.
use scrape_grid.Prelude.{
  ℕ, ◌+◌, ◌≤◌, ◌<◌, ◌≡◌, refl, sym, ◌∙◌, ap, subst, Bool, true, false, Option, none, some, List, [],
  ◌∷◌, arith, All, ◌==◌, ==_iff, ==_ne, if◌then◌else◌, length, Bool-cases, inl, inr,
}
use mathlib.Core.Option.{none-ne-some}
use scrape_grid.Result.{Result, ok, err}
use scrape_grid.Text.{Text}
use scrape_grid.Floats.{FloatOps}
use scrape_grid.Dict.{Dict, get, put}
use scrape_grid.Dict.Laws.{IsDict, put-IsDict}
use scrape_grid.Simulation.Worker.{DistributedWorker, Note, kill}
use scrape_grid.Simulation.Worker
use scrape_grid.Simulation.Fleet.{DistributedFleet}
use scrape_grid.Simulation.Fleet.Lifecycle.{spawn_in, kill_in, kill_worker}
use scrape_grid.Simulation.Fleet.Autoscale.{is_idle, living, first_idle}

some_eq : {A : Type 0} (a b : A) → some a ≡ some b → a ≡ b
some_eq a b e = cc

module _ (fl : FloatOps) where
  open fl use {of_ℕ, literal, div}

  abbrev Workers : Type 0
  Workers = Dict ℕ (DistributedWorker fl)

  -- The count of workers that are not killed.
  abbrev pub alive : Workers → ℕ
  alive workers = length (living fl workers)

  abbrev pub one : DistributedWorker fl → ℕ
  one w = if w.killed then 0 else 1

  abbrev pub held : Option (DistributedWorker fl) → ℕ
  held none = 0
  held (some w) = one w

  pub alive-put :
      (workers : Workers) (nid : ℕ) (w : DistributedWorker fl)
      → alive (put ◌==◌ workers nid w) + held (get ◌==◌ workers nid) ≡ alive workers + one w
  unfolding living get put
  alive-put [] nid w = ground arith
  alive-put ((k, old) ∷ workers) nid w = elim (Bool-cases (k == nid)) [
    | inl h ↦ rw h (ground arith)
    | inr h ↦ rw h (ground (arith, alive-put workers nid w))
  ]

  -- A worker stands under its own id, and the ids are below the next one.
  abbrev pub IsKeyed : ℕ → Workers → Type 0
  IsKeyed next_id = All (λ e. (e.1.node_id ≡ e.0) × (e.0 < next_id))

  pub record IsValid (f : DistributedFleet fl) : Type 0 where
    pub dict : IsDict ◌==◌ ==_iff f.workers
    pub keyed : IsKeyed f.next_id f.workers

  pub IsKeyed-put :
      (n : ℕ) (workers : Workers) (nid : ℕ) (w : DistributedWorker fl)
      → w.node_id ≡ nid
      → nid < n
      → IsKeyed n workers
      → IsKeyed n (put ◌==◌ workers nid w)
  unfolding put
  IsKeyed-put n [] nid w e h k = ((e, h), tt)
  IsKeyed-put n ((i, old) ∷ workers) nid w e h ((same, below), k) = elim (Bool-cases (i == nid)) [
    | inl b ↦ rw b ((e ∙ sym ((==_iff i nid).0 b), below), k)
    | inr b ↦ rw b ((same, below), IsKeyed-put n workers nid w e h k)
  ]

  IsKeyed-mono : (n m : ℕ) (workers : Workers) → n ≤ m → IsKeyed n workers → IsKeyed m workers
  IsKeyed-mono n m [] h k = tt
  IsKeyed-mono n m ((i, w) ∷ workers) h ((same, below), k) =
      ((same, omega arith), IsKeyed-mono n m workers h k)

  next_id-fresh : (n : ℕ) (workers : Workers) → IsKeyed n workers → get ◌==◌ workers n ≡ none
  unfolding get
  next_id-fresh n [] k = refl
  next_id-fresh n ((i, w) ∷ workers) ((same, below), k) =
      rw (==_ne i n (λ e. omega arith), next_id-fresh n workers k) refl

  -- A worker that lives under the id `nid`.
  abbrev pub Lives : ℕ → Workers → ℕ → Type 0
  Lives n workers nid =
      (w : DistributedWorker fl) × (get ◌==◌ workers nid ≡ some w)
      × (w.killed ≡ false)
      × (w.node_id ≡ nid)
      × (nid < n)

  Lives-cons :
      (n i nid : ℕ) (w : DistributedWorker fl) (workers : Workers)
      → get ◌==◌ workers i ≡ none
      → Lives n workers nid
      → Lives n ((i, w) ∷ workers) nid
  unfolding get
  Lives-cons n i nid w workers fresh (v, at, lives, id, below) = (
    v,
    rw (==_ne i nid (λ e. none-ne-some v (sym fresh ∙ ap (get ◌==◌ workers) e ∙ at))) at,
    lives,
    id,
    below,
  )

  -- The idle worker that is picked stands in the fleet under its id, and is not killed.
  pub first_idle-Lives :
      (n : ℕ) (workers : Workers) (nid : ℕ)
      → IsDict ◌==◌ ==_iff workers
      → IsKeyed n workers
      → first_idle fl (living fl workers) ≡ some nid
      → Lives n workers nid
  unfolding living first_idle get
  first_idle-Lives n [] nid d k h = cc
  first_idle-Lives n ((i, w) ∷ workers) nid (fresh, d) ((same, below), k) h =
      elim (Bool-cases w.killed) [
        | inl dead ↦
            Lives-cons n i nid w workers fresh (first_idle-Lives n workers nid d k (rw dead at h))
        | inr lives ↦ elim (Bool-cases (is_idle w.status)) [
          | inl idle ↦
              let id : w.node_id ≡ nid = some_eq _ _ (rw (lives, idle) at h) in
              let same_id : i ≡ nid = sym same ∙ id in
              (w, rw ((==_iff i nid).1 same_id) refl, lives, id, subst (λ j. j < n) same_id below)
          | inr busy ↦
              Lives-cons n i nid w workers fresh
                (first_idle-Lives n workers nid d k (rw (lives, busy) at h))
        ]
      ]

  new_worker :
      (running : Bool) (nid m : ℕ) (name : Text) (speed : fl.Float)
      → let w = Worker.init fl nid name speed m in
        ((if running then Worker.start fl w else w).node_id ≡ nid)
        × (one (if running then Worker.start fl w else w) ≡ 1)
  unfolding Worker.init Worker.start
  new_worker true nid m name speed = (refl, refl)
  new_worker false nid m name speed = (refl, refl)

  module _ (md5 : Text → List ℕ) (round_1 round_2 : fl.Float → fl.Float) (message : Note → Text)
      (f : DistributedFleet fl) (valid : IsValid f) (elapsed : fl.Float) where
    abbrev pub grown : Result Text → ℕ
    grown (err e) = 0
    grown (ok name) = 1

    pub spawn_in-alive :
        (r : Result Text)
        → IsValid (spawn_in fl md5 round_2 message f elapsed r).1
          × (alive (spawn_in fl md5 round_2 message f elapsed r).1.workers
              ≡ alive f.workers + grown r)
    unfolding spawn_in Worker.init Worker.start
    spawn_in-alive (err e) = (
      record {
        dict = valid.dict;
        keyed = IsKeyed-mono f.next_id (f.next_id + 1) f.workers (omega arith) valid.keyed;
      },
      omega arith,
    )
    spawn_in-alive (ok name) =
        let w = Worker.init fl f.next_id name f.speed f.max_nodes in
        let v = if f.running then Worker.start fl w else w in
        let (id, lives) = new_worker f.running f.next_id f.max_nodes name f.speed in
        let keyed = IsKeyed-mono f.next_id (f.next_id + 1) f.workers (omega arith) valid.keyed in
        let fresh = next_id-fresh f.next_id f.workers valid.keyed in
        (
          record {
            dict = put-IsDict ◌==◌ ==_iff f.workers f.next_id v valid.dict;
            keyed = IsKeyed-put (f.next_id + 1) f.workers f.next_id v id (omega arith) keyed;
          },
          omega (arith, alive-put f.workers f.next_id v, ap held fresh, lives),
        )

    pub kill_worker-alive :
        (nid : ℕ)
        → Lives f.next_id f.workers nid
        → IsValid (kill_worker fl md5 round_2 message f nid elapsed)
          × (alive (kill_worker fl md5 round_2 message f nid elapsed).workers + 1 ≡ alive f.workers)
    unfolding kill_worker kill_in kill
    kill_worker-alive nid (w, at, lives, id, below) =
        let was : held (get ◌==◌ f.workers nid) ≡ 1 = rw (at, lives) refl in
        rw at (
          record {
            dict = put-IsDict ◌==◌ ==_iff f.workers nid (kill fl w) valid.dict;
            keyed = IsKeyed-put f.next_id f.workers nid (kill fl w) id below valid.keyed;
          },
          omega (arith, alive-put f.workers nid (kill fl w), was),
        )

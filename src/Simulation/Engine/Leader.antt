-- ===== src/Simulation/Engine/Leader.antt =====
-- The leader that `kill_raft_leader` crashes.
use scrape_grid.Prelude.{
  ℕ, ◌+◌, ◌≡◌, refl, ◌∙◌, ap, ◌⊎◌, inl, inr, Bool, true, false, not, ◌&&◌, Option, none, some, List,
  [], ◌∷◌, ◌++◌, arith, All, length, if◌then◌else◌,
}
use mathlib.Core.Option.{none-ne-some}
use scrape_grid.Text.{Text}
use scrape_grid.Floats.{FloatOps}
use scrape_grid.Raft.{Node, is_leader, force_crash}
use scrape_grid.Simulation.Worker.{Note, Page}
use scrape_grid.Simulation.Engine.{SimulationEngine, TaskSnapshot, note, crash_leader}
use scrape_grid.Simulation.Engine.Control.{crash_noted, kill_raft_leader}

module _ {F C : Type 0} where
  abbrev pub leads : Node F C → Bool
  leads n = is_leader n.state && not n.crashed

  -- Of the nodes from `i` on, the first live leader alone is crashed, and its node_id given; or none lives,
  -- and none is given.
  abbrev pub IsCrashed : ℕ → List (Node F C) → Option ℕ → List (Node F C) → Type 0
  IsCrashed i nodes found after =
      ((found ≡ none) × (after ≡ nodes) × All (λ n. leads n ≡ false) nodes)
      ⊎ ((before : List (Node F C)) × (n : Node F C) × (rest : List (Node F C)) × (nodes
            ≡ before ++ n ∷ rest)
          × (found ≡ some (i + length before))
          × (after ≡ before ++ force_crash n ∷ rest)
          × (leads n ≡ true)
          × All (λ m. leads m ≡ false) before)

  IsCrashed-cons :
      (i : ℕ) (n : Node F C) (ns after : List (Node F C)) (found : Option ℕ)
      → leads n ≡ false
      → IsCrashed (i + 1) ns found after
      → IsCrashed i (n ∷ ns) found (n ∷ after)
  IsCrashed-cons i n ns after found h (inl (none_found, same, all)) =
      inl (none_found, ap (λ xs. n ∷ xs) same, (h, all))
  IsCrashed-cons i n ns after found h (inr (before, m, rest, e, at, crashed, live, first)) = inr (
    n ∷ before,
    m,
    rest,
    ap (λ xs. n ∷ xs) e,
    at ∙ ap some (omega arith),
    ap (λ xs. n ∷ xs) crashed,
    live,
    (h, first),
  )

  crash_cons :
      (i : ℕ) (n : Node F C) (ns : List (Node F C)) (found : Option ℕ) (after : List (Node F C))
      (b : Bool)
      → leads n ≡ b
      → IsCrashed (i + 1) ns found after
      → let r : Option ℕ × List (Node F C) =
          if b then (some i, force_crash n ∷ ns) else (found, n ∷ after) in
        IsCrashed i (n ∷ ns) r.0 r.1
  crash_cons i n ns found after true live h =
      inr ([], n, ns, refl, ap some (omega arith), refl, live, tt)
  crash_cons i n ns found after false other h = IsCrashed-cons i n ns after found other h

  crash_leader_lem :
      (i : ℕ) (nodes : List (Node F C))
      → IsCrashed i nodes (crash_leader i nodes).0 (crash_leader i nodes).1
  unfolding crash_leader
  crash_leader_lem i [] = inl (refl, refl, tt)
  crash_leader_lem i (n ∷ ns) =
      let (found, after) = crash_leader (i + 1) ns in
      crash_cons i n ns found after (leads n) refl (crash_leader_lem (i + 1) ns)

module _ (fl : FloatOps) (md5 : Text → List ℕ) (round_1 round_2 round_3 : fl.Float → fl.Float)
    (message : Note → Text) (page : Text → Page fl) where
  crash_noted_lem :
      (e : SimulationEngine fl) (now : fl.Float) (found : Option ℕ)
      (after : List (Node fl.Float (TaskSnapshot fl)))
      → IsCrashed 0 e.raft_nodes found after
      → let r = crash_noted fl md5 round_1 round_2 round_3 message page e now (found, after) in
        IsCrashed 0 e.raft_nodes r.0 r.1.raft_nodes
  unfolding crash_noted note
  crash_noted_lem e now (some i) after h = h
  crash_noted_lem e now none after (inl (h, same, all)) = inl (h, refl, all)
  crash_noted_lem e now none after (inr (before, n, rest, s, at, crashed, live, first)) =
      absurd (none-ne-some (0 + length before) at)

  -- `kill_raft_leader` crashes the first coordinator that is a leader and not crashed, answers with its
  -- node_id, and leaves the other coordinators as they are; with no such coordinator it changes none.
  pub kill_raft_leader_lem :
      (e : SimulationEngine fl) (now : fl.Float)
      → let r = kill_raft_leader fl md5 round_1 round_2 round_3 message page e now in
        IsCrashed 0 e.raft_nodes r.0 r.1.raft_nodes
  unfolding kill_raft_leader
  kill_raft_leader_lem e now =
      let (found, after) = crash_leader 0 e.raft_nodes in
      crash_noted_lem e now found after (crash_leader_lem 0 e.raft_nodes)

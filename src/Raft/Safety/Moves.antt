-- ===== src/Raft/Safety/Moves.antt =====
-- Steps that cast no vote: a node changes by a method that keeps its vote, or a thread moves on.
use scrape_grid.Prelude.{ℕ, subst, List, [], ◌∷◌, ◌==◌, Bool-cases, inl, inr, ==_iff}
use scrape_grid.Prelude.Int.{ℤ}
use scrape_grid.Raft.{Node}
use scrape_grid.Raft.System.{System, Phase, announcing, beating, update, loop}
use scrape_grid.Raft.Votes.{Ballots}
use scrape_grid.Raft.Safety.Invariant.{Asks, Inv, Keeps, Keeps-update, Nodes-keeps, Asks-keeps}

module _ {F C : Type 0} where
  -- Some record of votes fits the system.
  abbrev pub Good : System F C → Type 0
  Good s = (b : Ballots) × Inv s.total_nodes b s.node s.phase

  module _ (n : ℕ) (b : Ballots) where
    pub move_node :
        (node : ℕ → Node F C) (phase : ℕ → Phase) (p : ℕ) (m : Node F C)
        → Keeps (node p) m
        → Inv n b node phase
        → Inv n b (update node p m) phase
    move_node node phase p m k inv =
        let keeps = Keeps-update node p m k in
        record {
          nodes = Nodes-keeps n b node (update node p m) keeps inv.nodes;
          threads = λ j. Asks-keeps n b node (update node p m) keeps j (phase j) (inv.threads j);
        }

    pub move_phase :
        (node : ℕ → Node F C) (phase : ℕ → Phase) (i : ℕ) (ph : Phase)
        → Asks n b node i ph
        → Inv n b node phase
        → Inv n b node (update phase i ph)
    move_phase node phase i ph a inv = record {
      nodes = inv.nodes;
      threads = λ j. elim (Bool-cases (i == j)) [
        | inl same ↦ rw same (subst (λ q. Asks n b node q ph) ((==_iff i j).0 same) a)
        | inr other ↦ rw other (inv.threads j)
      ];
    }

    pub loop-announcing :
        (node : ℕ → Node F C) (i t : ℕ) (todo : List ℕ) → Asks n b node i (loop (announcing t) todo)
    loop-announcing node i t [] = tt
    loop-announcing node i t (x ∷ xs) = tt

    pub loop-beating :
        (node : ℕ → Node F C) (i t : ℕ) (c : ℤ) (todo : List ℕ)
        → Asks n b node i (loop (beating t c) todo)
    loop-beating node i t c [] = tt
    loop-beating node i t c (x ∷ xs) = tt

  -- A call on a peer that casts no vote, together with the thread's next phase in a loop.
  pub move_loop :
      (s : System F C) (p : ℕ) (m : Node F C) (i : ℕ) (ph : Phase)
      → Keeps (s.node p) m
      → ((b : Ballots) (node : ℕ → Node F C) → Asks s.total_nodes b node i ph)
      → Good s
      → Good (record s { node = update s.node p m; phase = update s.phase i ph })
  move_loop s p m i ph keeps relies (b, inv) =
      let n = s.total_nodes in
      (
        b,
        move_phase n b (update s.node p m) s.phase i ph (relies b (update s.node p m))
            (move_node n b s.node s.phase p m keeps inv),
      )

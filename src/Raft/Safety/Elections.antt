-- ===== src/Raft/Safety/Elections.antt =====
-- The leaders of a term.
use scrape_grid.Prelude.{ℕ, ◌≡◌, List, arith}
use native.Mathlib.Decide.{ℕ_discrete}
use scrape_grid.Raft.{leader}
use scrape_grid.Raft.System.{Event, boot, run}
use scrape_grid.Raft.Votes.{tally-disjoint}
use scrape_grid.Raft.Safety.Steps.{boot-Good, run-Good}

module _ {F C : Type 0} where
  -- Election safety. Start any number of nodes and let their elections, votes, announcements,
  -- heartbeats, crashes, recoveries and log appends interleave in any way: two nodes that lead in the
  -- same term are the same node.
  pub election_safety :
      (n : ℕ) (now timeout : ℕ → F) (es : List (Event F C)) (i j : ℕ)
      → ((run (boot n now timeout) es).node i).state ≡ leader
      → ((run (boot n now timeout) es).node j).state ≡ leader
      → ((run (boot n now timeout) es).node i).current_term
        ≡ ((run (boot n now timeout) es).node j).current_term
      → i ≡ j
  election_safety n now timeout es i j lead_i lead_j same =
      let s = run (boot n now timeout) es in
      let (b, inv) = run-Good (boot n now timeout) es (boot-Good C n now timeout) in
      elim (ℕ_discrete i j) [
        | yes e ↦ e
        | no ne ↦ absurd (
            omega (
              arith,
              inv.nodes.elected i lead_i,
              rw (← same) at (inv.nodes.elected j lead_j),
              tally-disjoint b (s.node i).current_term i j s.total_nodes ne,
            ))
      ]

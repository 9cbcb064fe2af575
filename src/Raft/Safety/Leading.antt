-- ===== src/Raft/Safety/Leading.antt =====
-- The step that ends an election: a candidate with a majority leads.
use scrape_grid.Prelude.{
  ℕ, ◌/◌, ◌≤◌, ◌<◌, ◌≡◌, refl, ◌∙◌, subst, true, [], ◌∷◌, arith, ◌==◌, Bool-cases, inl, inr, ◌⊎◌,
  ==_iff,
}
use scrape_grid.Raft.{candidate, leader, Node, wins, lead}
use scrape_grid.Raft.System.{
  System, Phase, idle, asking, announcing, beating, update, peers, conclude,
}
use scrape_grid.Raft.Votes.{Ballots, tally}
use scrape_grid.Raft.Safety.Invariant.{Asks, Inv, Asks-mono}
use scrape_grid.Raft.Safety.Moves.{Good, move_phase, loop-announcing}

module _ {F C : Type 0} where
  lead_fields :
      (node : ℕ → Node F C) (i j : ℕ)
      → let m = update node i (lead i (node i)) j in
        (m.current_term ≡ (node j).current_term)
        × (m.voted_for ≡ (node j).voted_for)
        × (m.state ≡ candidate → (node j).state ≡ candidate)
        × (m.state ≡ leader → (i ≡ j) ⊎ ((node j).state ≡ leader))
  unfolding lead
  lead_fields node i j = elim (Bool-cases (i == j)) [
    | inl same ↦ rw same (
        subst
          (λ q.
            ((node i).current_term ≡ (node q).current_term)
            × ((node i).voted_for ≡ (node q).voted_for)
            × (leader ≡ candidate → (node q).state ≡ candidate)
            × (leader ≡ leader → (i ≡ q) ⊎ ((node q).state ≡ leader)))
          ((==_iff i j).0 same) (refl, refl, λ e. cc, λ _. inl refl))
    | inr other ↦ rw other (refl, refl, λ c. c, λ c. inr c)
  ]

  wins-majority :
      (n votes : ℕ) (m : Node F C) → wins n votes m ≡ true → (n / 2 < votes) × (m.state ≡ candidate)
  unfolding wins
  wins-majority n votes m h = ground arith

  lead-Inv :
      {n : ℕ} {b : Ballots} (node : ℕ → Node F C) (phase : ℕ → Phase) (i t votes : ℕ)
      → ((node i).state ≡ candidate → (node i).current_term ≡ t)
      → votes ≤ tally b t i n
      → wins n votes (node i) ≡ true
      → Inv n b node phase
      → Inv n b (update node i (lead i (node i))) phase
  lead-Inv {n} {b} node phase i t votes here count won inv =
      let (most, runs) = wins-majority n votes (node i) won in
      let node' = update node i (lead i (node i)) in
      let f = lead_fields node i in
      record {
        nodes = record {
          past = λ v u x h. omega (arith, inv.nodes.past v u x h, (f v).0);
          now = λ v x h. (f v).1 ∙ inv.nodes.now v x (rw (f v).0 at h);
          stood = λ v u x h. omega (arith, inv.nodes.stood v u x h, (f x).0);
          elected = λ j h. rw (f j).0 (elim ((f j).3 h) [
            | inl same ↦
                subst (λ q. n / 2 < tally b (node q).current_term q n) same
                  (rw (here runs) (omega arith))
            | inr old ↦ inv.nodes.elected j old
          ]);
        };
        threads = λ j.
            Asks-mono n b b node node' j (phase j) (omega (arith, (f j).0))
              (λ c. ((f j).2 c, (f j).0)) (λ v u x h. h) (λ u todo fr. fr) (inv.threads j);
      }

  pub conclude-Good :
      (s : System F C) (i : ℕ) (ph : Phase) → s.phase i ≡ ph → Good s → Good (conclude s i ph)
  unfolding conclude
  conclude-Good s i (asking t l v []) e (b, inv) =
      let n = s.total_nodes in
      let (past, here, count, _) = subst (Asks n b s.node i) e (inv.threads i) in
      elim (Bool-cases (wins n v (s.node i))) [
        | inl won ↦ rw won (
          b,
          move_phase n b (update s.node i (lead i (s.node i))) s.phase i _
              (loop-announcing n b (update s.node i (lead i (s.node i))) i (s.node i).current_term
                (peers n i))
              (lead-Inv s.node s.phase i t v here count won inv),
        )
        | inr lost ↦ rw lost (b, move_phase n b s.node s.phase i idle tt inv)
      ]
  conclude-Good s i (asking t l v (p ∷ todo)) e g = g
  conclude-Good s i idle e g = g
  conclude-Good s i (announcing _ _) e g = g
  conclude-Good s i (beating _ _ _) e g = g

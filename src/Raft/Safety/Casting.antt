-- ===== src/Raft/Safety/Casting.antt =====
-- Steps that cast a vote: a candidate's for itself, and a peer's for the candidate that asks.
use scrape_grid.Prelude.{
  ℕ, ◌+◌, ◌≤◌, ◌<◌, ◌≡◌, refl, ◌∙◌, subst, ◌≢◌, true, none, some, List, [], ◌∷◌, arith, ◌==◌,
  Bool-cases, Option-cases, inl, inr, ==_iff, ==_refl, ==_ne,
}
use native.Mathlib.Decide.{ℕ_discrete}
use scrape_grid.Raft.{candidate, Node, stand, request_vote}
use scrape_grid.Raft.System.{System, Phase, idle, asking, announcing, beating, update, start, ask}
use scrape_grid.Raft.Votes.{
  Ballots, with_vote, with_vote-Extends, tally-with_vote, Fresh-with_vote_ne, Fresh-with_vote,
  peers-Fresh,
}
use scrape_grid.Raft.Safety.Invariant.{
  Nodes, Asks, Inv, Keeps-update, Asks-keeps, Asks-mono, Casts, Nodes-casts, grows, at_self,
  at_other,
}
use scrape_grid.Raft.Safety.Methods.{request_vote-Keeps, request_vote-Casts, stand-Casts}
use scrape_grid.Raft.Safety.Moves.{Good, move_node, move_phase}

module _ {F C : Type 0} where
  -- In a term above its own a node has cast no vote.
  no_later_vote :
      {n : ℕ} {b : Ballots} {node : ℕ → Node F C}
      → Nodes n b node
      → (v t : ℕ) → (node v).current_term < t
      → b v t ≡ none
  no_later_vote {b} inv v t later = elim (Option-cases (b v t)) [
    | inl free ↦ free
    | inr (x, e) ↦ absurd (omega (arith, inv.past v t x e))
  ]

  -- A vote of node `p` for `i`, together with the next phase of thread `i`.
  module _ (n : ℕ) (b : Ballots) (node : ℕ → Node F C) (phase : ℕ → Phase) (p t i : ℕ)
      (m : Node F C) (casts : Casts t i (node p) m) (free : b p t ≡ none) where
    abbrev after : ℕ → Node F C
    after = update node p m

    cast-Inv :
        (ph : Phase)
        → t ≤ (after i).current_term
        → ((j : ℕ)
            → i ≢ j
            → (after j).state ≡ candidate
            → ((node j).state ≡ candidate) × ((after j).current_term ≡ (node j).current_term))
        → Asks n (with_vote b p t i) after i ph
        → Inv n b node phase
        → Inv n (with_vote b p t i) after (update phase i ph)
    cast-Inv ph stands runs relies inv = record {
      nodes = Nodes-casts n b node p t i m casts free stands inv.nodes;
      threads = λ j. elim (ℕ_discrete i j) [
        | yes same ↦
            subst (λ q. Asks n (with_vote b p t i) after q (update phase i ph q)) same
              (rw (==_refl i) relies)
        | no ne ↦ rw (==_ne i j ne) (
            Asks-mono n b (with_vote b p t i) node after j (phase j)
              (grows n b node p t i m casts free j) (runs j ne) (with_vote-Extends b p t i free)
              (λ u todo. Fresh-with_vote_ne b p t i u j n todo ne) (inv.threads j))
      ];
    }

  -- Only `i` itself can have voted for `i` in a term above its own.
  alone :
      {n : ℕ} {b : Ballots} {node : ℕ → Node F C}
      → Nodes n b node
      → (i t q : ℕ) → (node i).current_term < t
      → q ≢ i
      → with_vote b i t i q t ≢ some i
  alone {b} inv i t q later ne e =
      let old : b q t ≡ some i = ground arith in absurd (omega (arith, inv.stood q t i old))

  pub start-Good :
      (s : System F C) (i : ℕ) (now timeout : F) (ph : Phase)
      → i < s.total_nodes
      → Good s
      → Good (start s i now timeout ph)
  unfolding start stand
  start-Good s i now timeout idle lt (b, inv) =
      let n = s.total_nodes in
      let m = stand i (s.node i) now timeout in
      let t = (s.node i).current_term + 1 in
      let free = no_later_vote inv.nodes i t (omega arith) in
      let casts = stand-Casts (s.node i) i now timeout in
      let self = at_self n b s.node i t i m casts free in
      (
        with_vote b i t i,
        cast-Inv n b s.node s.phase i t i m casts free _ (rw self (omega (arith, casts.term)))
            (λ j ne. rw (at_other n b s.node i t i m casts free j ne) (λ c. (c, refl)))
            (
              rw self (omega (arith, casts.term)),
              λ _. rw self,
              omega (arith, tally-with_vote b i t i n lt free),
              peers-Fresh (with_vote b i t i) t i n
                  (λ q ne. alone inv.nodes i t q (omega arith) ne),
            )
            inv,
      )
  start-Good s i now timeout (asking _ _ _ _) lt g = g
  start-Good s i now timeout (announcing _ _) lt g = g
  start-Good s i now timeout (beating _ _ _) lt g = g

  -- Whether the nodes run in an election, where one of them is replaced by a node that runs no more.
  run_update :
      (node : ℕ → Node F C) (p : ℕ) (m : Node F C)
      → (m.state ≡ candidate
          → ((node p).state ≡ candidate) × (m.current_term ≡ (node p).current_term))
      → (j : ℕ) → (update node p m j).state ≡ candidate
      → ((node j).state ≡ candidate) × ((update node p m j).current_term ≡ (node j).current_term)
  run_update node p m h j = elim (Bool-cases (p == j)) [
    | inl same ↦ rw same (
        subst
          (λ q.
            m.state ≡ candidate
            → ((node q).state ≡ candidate) × (m.current_term ≡ (node q).current_term))
          ((==_iff p j).0 same) h)
    | inr other ↦ rw other (λ c. (c, refl))
  ]

  -- A node that grants a vote has not voted for another in that term.
  unvoted :
      {n : ℕ} {b : Ballots} {node : ℕ → Node F C}
      → Nodes n b node
      → (p t i l : ℕ) (now : F) → (request_vote (node p) t i l now).0 ≡ true
      → b p t ≢ some i
      → b p t ≡ none
  unvoted {b} {node} inv p t i l now granted new = elim (Option-cases (b p t)) [
    | inl free ↦ free
    | inr (x, e) ↦
        let (casts, _, open_to) = request_vote-Casts (node p) t i l now granted in
        let same : (node p).current_term ≡ t = omega (arith, inv.past p t x e, casts.before) in
        let voted = inv.now p x (rw same e) in
        elim (open_to same) [ inl nobody ↦ cc | inr for_i ↦ absurd (new (cc)) ]
  ]

  ask_granted :
      (s : System F C) (i p t l v : ℕ) (todo : List ℕ) (now : F) {b : Ballots}
      → (request_vote (s.node p) t i l now).0 ≡ true
      → Asks s.total_nodes b s.node i (asking t l v (p ∷ todo))
      → Inv s.total_nodes b s.node s.phase
      → (b' : Ballots) × Inv s.total_nodes b'
          (update s.node p (request_vote (s.node p) t i l now).1)
          (update s.phase i (asking t l (v + 1) todo))
  ask_granted s i p t l v todo now {b} granted (past, here, count, (lt, new, apart, fresh)) inv =
      let n = s.total_nodes in
      let m = (request_vote (s.node p) t i l now).1 in
      let (casts, run_self, _) = request_vote-Casts (s.node p) t i l now granted in
      let free = unvoted inv.nodes p t i l now granted new in
      let rise = grows n b s.node p t i m casts free i in
      (
        with_vote b p t i,
        cast-Inv n b s.node s.phase p t i m casts free (asking t l (v + 1) todo)
            (omega (arith, past, rise)) (λ j _. run_update s.node p m run_self j)
            (
              omega (arith, past, rise),
              λ c. let (old, same) = run_update s.node p m run_self i c in same ∙ here old,
              omega (arith, count, tally-with_vote b p t i n lt free),
              Fresh-with_vote b p t i t i n todo apart fresh,
            )
            inv,
      )

  pub ask-Good :
      (s : System F C) (i : ℕ) (now : F) (ph : Phase)
      → s.phase i ≡ ph
      → Good s
      → Good (ask s i now ph)
  unfolding ask
  ask-Good s i now (asking t l v []) e g = g
  ask-Good s i now (asking t l v (p ∷ todo)) e (b, inv) =
      let n = s.total_nodes in
      let m = (request_vote (s.node p) t i l now).1 in
      let (past, here, count, (lt, new, apart, fresh)) =
        subst (Asks n b s.node i) e (inv.threads i) in
      elim (Bool-cases (request_vote (s.node p) t i l now).0) [
        | inl granted ↦ rw granted (
            ask_granted s i p t l v todo now granted (subst (Asks n b s.node i) e (inv.threads i))
              inv)
        | inr refused ↦
            let keeps = request_vote-Keeps (s.node p) t i l now refused in
            let inv' = move_node n b s.node s.phase p m keeps inv in
            (
              b,
              rw refused (
                  move_phase n b (update s.node p m) s.phase i (asking t l v todo)
                    (Asks-keeps n b s.node (update s.node p m) (Keeps-update s.node p m keeps) i
                      (asking t l v todo) (past, here, count, fresh))
                    inv'),
            )
      ]
  ask-Good s i now idle e g = g
  ask-Good s i now (announcing _ _) e g = g
  ask-Good s i now (beating _ _ _) e g = g

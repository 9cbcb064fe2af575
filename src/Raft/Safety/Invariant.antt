-- ===== src/Raft/Safety/Invariant.antt =====
-- What a reachable system keeps true, in terms of a record of the votes cast so far.
use scrape_grid.Prelude.{
  ℕ, ◌/◌, ◌≤◌, ◌<◌, ◌≡◌, refl, ◌∙◌, subst, ◌≢◌, none, some, List, arith, ◌==◌, Bool-cases, inl, inr,
  ◌⊎◌, ==_iff, ==_refl, ==_ne,
}
use native.Mathlib.Decide.{ℕ_discrete}
use native.Mathlib.Nat.{le_trans}
use scrape_grid.Raft.{candidate, leader, Node}
use scrape_grid.Raft.System.{Phase, idle, asking, announcing, beating, update}
use scrape_grid.Raft.Votes.{
  Ballots, with_vote, with_vote-Extends, tally, tally_mono, Extends, Fresh,
}

module _ {F C : Type 0} (n : ℕ) where
  -- The votes are those of the nodes' terms and fields, and a leader has a majority of them.
  pub record Nodes (b : Ballots) (node : ℕ → Node F C) : Type 0 where
    pub past : (v t x : ℕ) → b v t ≡ some x → t ≤ (node v).current_term
    pub now : (v x : ℕ) → b v (node v).current_term ≡ some x → (node v).voted_for ≡ some x
    pub stood : (v t x : ℕ) → b v t ≡ some x → t ≤ (node x).current_term
    pub elected : (i : ℕ) → (node i).state ≡ leader → n / 2 < tally b (node i).current_term i n

  -- What thread `i` in the loop that collects votes can rely on.
  abbrev pub Asks : Ballots → (ℕ → Node F C) → ℕ → Phase → Type 0
  Asks b node i (asking t log_len votes todo) =
      (t ≤ (node i).current_term)
      × ((node i).state ≡ candidate → (node i).current_term ≡ t)
      × (votes ≤ tally b t i n)
      × Fresh b t i n todo
  Asks b node i idle = Unit {0}
  Asks b node i (announcing _ _) = Unit {0}
  Asks b node i (beating _ _ _) = Unit {0}

  pub record Inv (b : Ballots) (node : ℕ → Node F C) (phase : ℕ → Phase) : Type 0 where
    pub nodes : Nodes b node
    pub threads : (i : ℕ) → Asks b node i (phase i)

-- A node that votes for nobody new: its term does not fall, within a term it keeps its vote, and it
-- becomes neither candidate nor leader.
pub record Keeps {F C : Type 0} (m m' : Node F C) : Type 0 where
  pub term : m.current_term ≤ m'.current_term
  pub vote : m'.current_term ≡ m.current_term → m'.voted_for ≡ m.voted_for
  pub lead : m'.state ≡ leader → (m.state ≡ leader) × (m'.current_term ≡ m.current_term)
  pub run : m'.state ≡ candidate → (m.state ≡ candidate) × (m'.current_term ≡ m.current_term)

-- What a thread relies on outlives growing terms and further votes that keep its list fresh.
pub Asks-mono :
    {F C : Type 0} (n : ℕ) (b b' : Ballots) (node node' : ℕ → Node F C) (i : ℕ) (p : Phase)
    → (node i).current_term ≤ (node' i).current_term
    → ((node' i).state ≡ candidate
        → ((node i).state ≡ candidate) × ((node' i).current_term ≡ (node i).current_term))
    → Extends b b'
    → ((t : ℕ) (todo : List ℕ) → Fresh b t i n todo → Fresh b' t i n todo)
    → Asks n b node i p
    → Asks n b' node' i p
Asks-mono n b b' node node' i idle grow run ext fresh a = tt
Asks-mono n b b' node node' i (announcing _ _) grow run ext fresh a = tt
Asks-mono n b b' node node' i (beating _ _ _) grow run ext fresh a = tt
Asks-mono n b b' node node' i (asking t log_len votes todo) grow run ext fresh
      (past, here, count, f) =
    (
      omega (arith, past, grow),
      λ h. let (old, same) = run h in same ∙ here old,
      omega (arith, count, tally_mono b b' t i n ext),
      fresh t todo f,
    )

module _ {F C : Type 0} where
  pub Keeps-refl : (m : Node F C) → Keeps m m
  Keeps-refl m = ground arith

  pub Keeps-update :
      (node : ℕ → Node F C) (p : ℕ) (m : Node F C)
      → Keeps (node p) m
      → (j : ℕ) → Keeps (node j) (update node p m j)
  Keeps-update node p m k j = elim (Bool-cases (p == j)) [
    | inl same ↦ rw same (subst (λ q. Keeps (node q) m) ((==_iff p j).0 same) k)
    | inr other ↦ rw other (Keeps-refl (node j))
  ]

  module _ (n : ℕ) (b : Ballots) (node node' : ℕ → Node F C)
      (keeps : (j : ℕ) → Keeps (node j) (node' j)) where
    pub Nodes-keeps : Nodes n b node → Nodes n b node'
    Nodes-keeps inv = record {
      past = λ v t x h. omega (arith, inv.past v t x h, (keeps v).term);
      now = λ v x h.
          let same : (node' v).current_term ≡ (node v).current_term =
            omega (arith, inv.past v _ x h, (keeps v).term) in
          (keeps v).vote same ∙ inv.now v x (rw same at h);
      stood = λ v t x h. omega (arith, inv.stood v t x h, (keeps x).term);
      elected = λ i h. let (old, same) = (keeps i).lead h in rw same (inv.elected i old);
    }

    pub Asks-keeps : (i : ℕ) (p : Phase) → Asks n b node i p → Asks n b node' i p
    Asks-keeps i p =
        Asks-mono n b b node node' i p (keeps i).term (keeps i).run (λ v t x h. h) (λ t todo f. f)

-- Node `m` votes for `i` in term `t`, and is then `m'`.
pub record Casts {F C : Type 0} (t i : ℕ) (m m' : Node F C) : Type 0 where
  pub before : m.current_term ≤ t
  pub term : m'.current_term ≡ t
  pub vote : m'.voted_for ≡ some i
  pub lead : m'.state ≡ leader → (m.state ≡ leader) × (m'.current_term ≡ m.current_term)

module _ {F C : Type 0} (n : ℕ) (b : Ballots) (node : ℕ → Node F C) (p t i : ℕ) (m : Node F C)
    (casts : Casts t i (node p) m) (free : b p t ≡ none) where
  abbrev pub node' : ℕ → Node F C
  node' = update node p m

  abbrev pub b' : Ballots
  b' = with_vote b p t i

  pub grows : (j : ℕ) → (node j).current_term ≤ (node' j).current_term
  grows j = elim (Bool-cases (p == j)) [
    | inl same ↦
        rw (same, casts.term)
          (subst (λ q. (node q).current_term ≤ t) ((==_iff p j).0 same) casts.before)
    | inr other ↦ rw other (omega arith)
  ]

  led :
      (j : ℕ)
      → (node' j).state ≡ leader
      → ((node j).state ≡ leader) × ((node' j).current_term ≡ (node j).current_term)
  led j = elim (Bool-cases (p == j)) [
    | inl same ↦ rw same (
        subst
          (λ q.
            m.state ≡ leader → ((node q).state ≡ leader) × (m.current_term ≡ (node q).current_term))
          ((==_iff p j).0 same) casts.lead)
    | inr other ↦ rw other (λ h. (h, refl))
  ]

  pub at_self : node' p ≡ m
  at_self = rw (==_refl p)

  pub at_other : (w : ℕ) → p ≢ w → node' w ≡ node w
  at_other w ne = rw (==_ne p w ne)

  vote_cases : (w u x : ℕ) → b' w u ≡ some x → ((p ≡ w) × (t ≡ u) × (i ≡ x)) ⊎ (b w u ≡ some x)
  vote_cases w u x h = ground arith

  -- The vote that the node has now is the one on record.
  now_self : (x : ℕ) → b' p m.current_term ≡ some x → m.voted_for ≡ some x
  now_self x h = ground (arith, casts.term, casts.vote)

  now_other :
      Nodes n b node
      → (w x : ℕ) → p ≢ w
      → b' w (node w).current_term ≡ some x
      → (node w).voted_for ≡ some x
  now_other inv w x ne h = ground (arith, inv.now w x)

  pub Nodes-casts : t ≤ (node' i).current_term → Nodes n b node → Nodes n b' node'
  Nodes-casts stands inv = record {
    past = λ w u x h. elim (vote_cases w u x h) [
      | inl (same, at_t, _) ↦
          subst (λ q. u ≤ (node' q).current_term) same (rw at_self (omega (arith, casts.term)))
      | inr old ↦ omega (arith, inv.past w u x old, grows w)
    ];
    now = λ w x h. elim (ℕ_discrete p w) [
      | yes same ↦
          subst (λ q. b' q (node' q).current_term ≡ some x → (node' q).voted_for ≡ some x) same
            (rw at_self (now_self x)) h
      | no ne ↦ rw (at_other w ne) (now_other inv w x ne (rw (at_other w ne) at h))
    ];
    stood = λ w u x h. elim (vote_cases w u x h) [
      | inl (_, at_t, same) ↦ subst (λ q. u ≤ (node' q).current_term) same (omega arith)
      | inr old ↦ omega (arith, inv.stood w u x old, grows x)
    ];
    elected = λ j h.
        let (old, same) = led j h in
        rw same
          (le_trans (inv.elected j old) (tally_mono b b' _ j n (with_vote-Extends b p t i free)));
  }

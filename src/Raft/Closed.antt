-- ===== src/Raft/Closed.antt =====
-- A rule for properties of single nodes: what every method and every write of `append_log` keeps, every
-- schedule keeps.
use scrape_grid.Prelude.{
  ℕ, ◌+◌, List, [], ◌∷◌, ◌++◌, not, ◌||◌, ltb, ◌==◌, Bool-cases, inl, inr, ==_iff, subst,
}
use scrape_grid.Prelude.Int.{ℤ, sub_ℕ}
use scrape_grid.Raft.{
  Node, Entry, force_crash, recover, stand, request_vote, wins, lead, receive_heartbeat,
  accept_leader, is_leader,
}
use scrape_grid.Raft.System.{
  System, Phase, idle, asking, announcing, beating, update, Event, actor, starts, asks, concludes,
  announces, beats, delivers, crashes, recovers, appends, proceeds, Call, returned, writing,
  indexing, noting, telling, start, ask, conclude, announce, beat, deliver, append, proceed, act,
  step, run,
}

module _ {F C : Type 0} where
  -- A property of the nodes, each under its node_id, that all methods but `append_log` keep.
  pub record IsClosed (P : ℕ → Node F C → Type 0) : Type 0 where
    pub stands : (i : ℕ) (m : Node F C) (now timeout : F) → P i m → P i (stand i m now timeout)
    pub votes :
        (j : ℕ) (m : Node F C) (t i l : ℕ) (now : F) → P j m → P j (request_vote m t i l now).1
    pub leads : (i : ℕ) (m : Node F C) → P i m → P i (lead i m)
    pub hears :
        (j : ℕ) (m : Node F C) (t i : ℕ) (c : ℤ) (now timeout : F)
        → P j m
        → P j (receive_heartbeat m t i c now timeout)
    pub accepts : (j : ℕ) (m : Node F C) (i t : ℕ) (now : F) → P j m → P j (accept_leader m i t now)
    pub crash : (j : ℕ) (m : Node F C) → P j m → P j (force_crash m)
    pub recovery : (j : ℕ) (m : Node F C) (now timeout : F) → P j m → P j (recover m now timeout)

  -- A property that says nothing of what `append_log` writes.
  abbrev pub IgnoresLogs : (ℕ → Node F C → Type 0) → Type 0
  IgnoresLogs P =
      (j : ℕ) (m : Node F C) (log : List (Entry C)) (commit : ℤ) (count : ℕ)
      → P j m
      → P j (record m { log = log; commit_index = commit; log_entries_committed = count })

  module _ (P : ℕ → Node F C → Type 0) (closed : IsClosed P) where
    abbrev pub Everywhere : System F C → Type 0
    Everywhere s = (j : ℕ) → P j (s.node j)

    pub at_update :
        (node : ℕ → Node F C) (p : ℕ) (m : Node F C)
        → ((j : ℕ) → P j (node j))
        → (P p (node p) → P p m)
        → (j : ℕ) → P j (update node p m j)
    at_update node p m all k j = elim (Bool-cases (p == j)) [
      | inl same ↦ rw same (subst (λ q. P q m) ((==_iff p j).0 same) (k (all p)))
      | inr other ↦ rw other (all j)
    ]

    pub start-all :
        (s : System F C) (i : ℕ) (now timeout : F) (ph : Phase)
        → Everywhere s
        → Everywhere (start s i now timeout ph)
    unfolding start
    start-all s i now timeout idle all = at_update s.node i _ all (closed.stands i _ now timeout)
    start-all s i now timeout _ all = all

    pub ask-all :
        (s : System F C) (i : ℕ) (now : F) (ph : Phase) → Everywhere s → Everywhere (ask s i now ph)
    unfolding ask
    ask-all s i now (asking t l v (p ∷ todo)) all =
        at_update s.node p _ all (closed.votes p _ t i l now)
    ask-all s i now _ all = all

    pub conclude-all :
        (s : System F C) (i : ℕ) (ph : Phase) → Everywhere s → Everywhere (conclude s i ph)
    unfolding conclude
    conclude-all s i (asking t l v []) all = elim (Bool-cases (wins s.total_nodes v (s.node i))) [
      | inl won ↦ rw won (at_update s.node i _ all (closed.leads i _))
      | inr lost ↦ rw lost all
    ]
    conclude-all s i _ all = all

    pub announce-all :
        (s : System F C) (i : ℕ) (now : F) (ph : Phase)
        → Everywhere s
        → Everywhere (announce s i now ph)
    unfolding announce
    announce-all s i now (announcing t (p ∷ todo)) all =
        at_update s.node p _ all (closed.accepts p _ i t now)
    announce-all s i now _ all = all

    pub beat-all : (s : System F C) (i : ℕ) (ph : Phase) → Everywhere s → Everywhere (beat s i ph)
    unfolding beat
    beat-all s i idle all = all
    beat-all s i _ all = all

    pub deliver-all :
        (s : System F C) (i : ℕ) (now timeout : F) (ph : Phase)
        → Everywhere s
        → Everywhere (deliver s i now timeout ph)
    unfolding deliver
    deliver-all s i now timeout (beating t c (p ∷ todo)) all =
        at_update s.node p _ all (closed.hears p _ t i c now timeout)
    deliver-all s i now timeout _ all = all

    append-all :
        (s : System F C) (i k : ℕ) (command : C) (c : Call C)
        → Everywhere s
        → Everywhere (append s i k command c)
    unfolding append
    append-all s i k command returned all =
        elim (Bool-cases (not (is_leader (s.node i).state) || (s.node i).crashed)) [
          | inl refuses ↦ rw refuses all
          | inr passes ↦ rw passes all
        ]
    append-all s i k command _ all = all

    module _ (free : IgnoresLogs P) where
      proceed-all :
          (s : System F C) (i k : ℕ) (c : Call C) → Everywhere s → Everywhere (proceed s i k c)
      unfolding proceed
      proceed-all s i k (writing p e next) all =
          let n = s.node p in
          at_update s.node p _ all
            (free p n (n.log ++ e ∷ []) n.commit_index n.log_entries_committed)
      proceed-all s i k (indexing p e len next) all =
          let n = s.node p in
          at_update s.node p _ all (free p n n.log (sub_ℕ len 1) n.log_entries_committed)
      proceed-all s i k (noting e count) all =
          let n = s.node i in at_update s.node i _ all (free i n n.log n.commit_index (count + 1))
      proceed-all s i k (telling e []) all = all
      proceed-all s i k (telling e (p ∷ todo)) all = all
      proceed-all s i k _ all = all

      act-all : (s : System F C) (e : Event F C) → Everywhere s → Everywhere (act s e)
      unfolding act
      act-all s (starts i now timeout) all = start-all s i now timeout (s.phase i) all
      act-all s (asks i now) all = ask-all s i now (s.phase i) all
      act-all s (concludes i) all = conclude-all s i (s.phase i) all
      act-all s (announces i now) all = announce-all s i now (s.phase i) all
      act-all s (beats i) all = beat-all s i (s.phase i) all
      act-all s (delivers i now timeout) all = deliver-all s i now timeout (s.phase i) all
      act-all s (crashes i) all = at_update s.node i _ all (closed.crash i _)
      act-all s (recovers i now timeout) all =
          at_update s.node i _ all (closed.recovery i _ now timeout)
      act-all s (appends i k command) all = append-all s i k command (s.calls i k) all
      act-all s (proceeds i k) all = proceed-all s i k (s.calls i k) all

      step-all : (s : System F C) (e : Event F C) → Everywhere s → Everywhere (step s e)
      unfolding step
      step-all s e all = elim (Bool-cases (ltb (actor e) s.total_nodes)) [
        | inl inside ↦ rw inside (act-all s e all)
        | inr outside ↦ rw outside all
      ]

      -- So the property holds of every node along every schedule.
      pub run-all :
          (s : System F C) (es : List (Event F C))
          → Everywhere s
          → (j : ℕ) → P j ((run s es).node j)
      unfolding run
      run-all s [] all = all
      run-all s (e ∷ es) all = run-all (step s e) es (step-all s e all)

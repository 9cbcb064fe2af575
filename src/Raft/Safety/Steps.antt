-- ===== src/Raft/Safety/Steps.antt =====
-- Every step of the system keeps the invariant, with the votes that the step casts added.
use scrape_grid.Prelude.{
  ℕ, ◌<◌, ◌≡◌, refl, ap, ◌≢◌, none, List, [], ◌∷◌, ◌++◌, ◌+◌, not, ◌||◌, ltb, Bool-cases, inl, inr,
  ltb→lt,
}
use scrape_grid.Prelude.Int.{sub_ℕ}
use scrape_grid.Raft.{leader, is_leader, Node, init, receive_heartbeat, accept_leader}
use scrape_grid.Raft.System.{
  System, Phase, idle, asking, announcing, beating, update, loop, peers, Event, actor, starts, asks,
  concludes, announces, beats, delivers, crashes, recovers, appends, proceeds, announce, beat,
  deliver, append, proceed, Call, returned, writing, indexing, noting, telling, act, step, run,
  boot,
}
use scrape_grid.Raft.Safety.Invariant.{Keeps}
use scrape_grid.Raft.Safety.Methods.{
  force_crash-Keeps, recover-Keeps, write-Keeps, accept_leader-Keeps, receive_heartbeat-Keeps,
}
use scrape_grid.Raft.Safety.Moves.{
  Good, move_node, move_phase, move_loop, loop-announcing, loop-beating,
}
use scrape_grid.Raft.Safety.Casting.{start-Good, ask-Good}
use scrape_grid.Raft.Safety.Leading.{conclude-Good}

not_leader :
    {F C : Type 0} (m : Node F C) (now timeout : F) → m ≡ init now timeout → m.state ≢ leader
unfolding init
not_leader m now timeout e h = cc (ap (λ x. x.state) e)

module _ {F C : Type 0} where
  announce-Good :
      (s : System F C) (i : ℕ) (now : F) (ph : Phase) → Good s → Good (announce s i now ph)
  unfolding announce
  announce-Good s i now (announcing t (p ∷ todo)) g =
      move_loop s p (accept_leader (s.node p) i t now) i (loop (announcing t) todo)
        (accept_leader-Keeps (s.node p) i t now)
        (λ b node. loop-announcing s.total_nodes b node i t todo) g
  announce-Good s i now (announcing t []) g = g
  announce-Good s i now idle g = g
  announce-Good s i now (asking _ _ _ _) g = g
  announce-Good s i now (beating _ _ _) g = g

  beat-Good : (s : System F C) (i : ℕ) (ph : Phase) → Good s → Good (beat s i ph)
  unfolding beat
  beat-Good s i idle (b, inv) =
      let n = s.total_nodes in
      (
        b,
        move_phase n b s.node s.phase i _
            (loop-beating n b s.node i (s.node i).current_term (s.node i).commit_index (peers n i))
            inv,
      )
  beat-Good s i (asking _ _ _ _) g = g
  beat-Good s i (announcing _ _) g = g
  beat-Good s i (beating _ _ _) g = g

  deliver-Good :
      (s : System F C) (i : ℕ) (now timeout : F) (ph : Phase)
      → Good s
      → Good (deliver s i now timeout ph)
  unfolding deliver
  deliver-Good s i now timeout (beating t c (p ∷ todo)) g =
      move_loop s p (receive_heartbeat (s.node p) t i c now timeout) i (loop (beating t c) todo)
        (receive_heartbeat-Keeps (s.node p) t i c now timeout)
        (λ b node. loop-beating s.total_nodes b node i t c todo) g
  deliver-Good s i now timeout (beating t c []) g = g
  deliver-Good s i now timeout idle g = g
  deliver-Good s i now timeout (asking _ _ _ _) g = g
  deliver-Good s i now timeout (announcing _ _) g = g

  at_node-Good :
      (s : System F C) (i : ℕ) (m : Node F C)
      → Keeps (s.node i) m
      → Good s
      → Good (record s { node = update s.node i m })
  at_node-Good s i m keeps (b, inv) = (b, move_node s.total_nodes b s.node s.phase i m keeps inv)

  append-Good :
      (s : System F C) (i k : ℕ) (command : C) (c : Call C) → Good s → Good (append s i k command c)
  unfolding append
  append-Good s i k command returned g =
      elim (Bool-cases (not (is_leader (s.node i).state) || (s.node i).crashed)) [
        | inl refuses ↦ rw refuses g
        | inr passes ↦ rw passes g
      ]
  append-Good s i k command _ g = g

  proceed-Good : (s : System F C) (i k : ℕ) (c : Call C) → Good s → Good (proceed s i k c)
  unfolding proceed
  proceed-Good s i k (writing p e next) g =
      let n = s.node p in
      at_node-Good s p _ (write-Keeps n (n.log ++ e ∷ []) n.commit_index n.log_entries_committed) g
  proceed-Good s i k (indexing p e len next) g =
      let n = s.node p in
      at_node-Good s p _ (write-Keeps n n.log (sub_ℕ len 1) n.log_entries_committed) g
  proceed-Good s i k (noting e count) g =
      let n = s.node i in at_node-Good s i _ (write-Keeps n n.log n.commit_index (count + 1)) g
  proceed-Good s i k (telling e []) g = g
  proceed-Good s i k (telling e (p ∷ todo)) g = g
  proceed-Good s i k _ g = g

  act-Good : (s : System F C) (e : Event F C) → actor e < s.total_nodes → Good s → Good (act s e)
  unfolding act
  act-Good s (starts i now timeout) lt g = start-Good s i now timeout (s.phase i) lt g
  act-Good s (asks i now) lt g = ask-Good s i now (s.phase i) refl g
  act-Good s (concludes i) lt g = conclude-Good s i (s.phase i) refl g
  act-Good s (announces i now) lt g = announce-Good s i now (s.phase i) g
  act-Good s (beats i) lt g = beat-Good s i (s.phase i) g
  act-Good s (delivers i now timeout) lt g = deliver-Good s i now timeout (s.phase i) g
  act-Good s (crashes i) lt g = at_node-Good s i _ (force_crash-Keeps (s.node i)) g
  act-Good s (recovers i now timeout) lt g =
      at_node-Good s i _ (recover-Keeps (s.node i) now timeout) g
  act-Good s (appends i k command) lt g = append-Good s i k command (s.calls i k) g
  act-Good s (proceeds i k) lt g = proceed-Good s i k (s.calls i k) g

  step-Good : (s : System F C) (e : Event F C) → Good s → Good (step s e)
  unfolding step
  step-Good s e g = elim (Bool-cases (ltb (actor e) s.total_nodes)) [
    | inl inside ↦ rw inside (act-Good s e (ltb→lt _ _ inside) g)
    | inr outside ↦ rw outside g
  ]

  pub run-Good : (s : System F C) (es : List (Event F C)) → Good s → Good (run s es)
  unfolding run
  run-Good s [] g = g
  run-Good s (e ∷ es) g = run-Good (step s e) es (step-Good s e g)

pub boot-Good :
    {F : Type 0} (C : Type 0) (n : ℕ) (now timeout : ℕ → F) → Good (boot {C = C} n now timeout)
unfolding boot
boot-Good C n now timeout = (
  λ _ _. none,
  record {
    nodes = record {
      past = λ v t x h. cc;
      now = λ v x h. cc;
      stood = λ v t x h. cc;
      elected = λ i h. absurd (not_leader _ (now i) (timeout i) refl h);
    };
    threads = λ i. tt;
  },
)

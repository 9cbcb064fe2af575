-- ===== src/Raft/Calls/Steps.antt =====
-- Every step of the system leaves the calls of `append_log` what they rely on.
use scrape_grid.Prelude.{
  ℕ, ◌+◌, ◌≡◌, refl, List, [], ◌∷◌, ◌++◌, arith, length, length-append, not, ◌||◌, ltb, Bool, true,
  false, if◌then◌else◌, Bool-cases, inl, inr,
}
use scrape_grid.Prelude.Int.{sub_ℕ}
use scrape_grid.Raft.{Node, Entry, init, force_crash, recover, wins, is_leader}
use scrape_grid.Raft.System.{
  System, Phase, idle, asking, announcing, beating, Event, actor, starts, asks, concludes,
  announces, beats, delivers, crashes, recovers, appends, proceeds, Next, counts, tells, Call,
  returned, tested, writing, measuring, indexing, counting, noting, telling, after, start, ask,
  conclude, announce, beat, deliver, append, proceed, at_node, peers, act, step, run, boot,
}
use scrape_grid.Raft.Closed.{start-all, ask-all, conclude-all, announce-all, beat-all, deliver-all}
use scrape_grid.Raft.Calls.{
  Holds, logs-IsClosed, Relies, IsSound, low_of, threads-IsSound, node-IsSound, call-IsSound,
}

module _ {F C : Type 0} where
  append-IsSound :
      (s : System F C) (i k : ℕ) (command : C) (c : Call C)
      → IsSound s
      → IsSound (append s i k command c)
  unfolding append
  append-IsSound s i k command returned h =
      elim (Bool-cases (not (is_leader (s.node i).state) || (s.node i).crashed)) [
        | inl refuses ↦ rw refuses h
        | inr passes ↦ rw passes (call-IsSound s i k (tested command) tt h)
      ]
  append-IsSound s i k command _ h = h

  after_lem : (node : ℕ → Node F C) (e : Entry C) (next : Next) → Relies node (after e next)
  after_lem node e counts = tt
  after_lem node e (tells todo) = tt

  told :
      (node : ℕ → Node F C) (b : Bool) (p : ℕ) (e : Entry C) (todo : List ℕ)
      → Relies node (if b then telling e todo else writing p e (tells todo))
  told node true p e todo = tt
  told node false p e todo = tt

  proceed-IsSound :
      (s : System F C) (i k : ℕ) (c : Call C)
      → Relies s.node c
      → IsSound s
      → IsSound (proceed s i k c)
  unfolding proceed
  proceed-IsSound s i k returned r h = h
  proceed-IsSound s i k (tested command) r h = call-IsSound s i k _ tt h
  proceed-IsSound s i k (writing p e next) r h =
      let n = s.node p in
      let n' = record n { log = n.log ++ e ∷ [] } in
      let more = length-append n.log (e ∷ []) in
      let l = h.logged p in
      call-IsSound (at_node s p n') i k (measuring p e next) tt (
        node-IsSound s p n' (omega (arith, more))
          (record { length_at = l.length_at; at = l.at; within = omega (arith, more, l.within) }) h)
  proceed-IsSound s i k (measuring p e next) r h =
      call-IsSound s i k (indexing p e (length (s.node p).log) next) (omega arith) h
  proceed-IsSound s i k (indexing p e len next) r h =
      let n' = record (s.node p) { commit_index = sub_ℕ len 1 } in
      let written =
        node-IsSound s p n' (omega arith) (record { length_at = len; at = refl; within = r }) h in
      call-IsSound (at_node s p n') i k (after e next) (after_lem (at_node s p n').node e next)
        written
  proceed-IsSound s i k (counting e) r h =
      call-IsSound s i k (noting e (s.node i).log_entries_committed) tt h
  proceed-IsSound s i k (noting e count) r h =
      let n' = record (s.node i) { log_entries_committed = count + 1 } in
      let l = h.logged i in
      call-IsSound (at_node s i n') i k (telling e (peers s.total_nodes i)) tt (
        node-IsSound s i n' (omega arith)
          (record { length_at = l.length_at; at = l.at; within = l.within }) h)
  proceed-IsSound s i k (telling e []) r h = call-IsSound s i k returned tt h
  proceed-IsSound s i k (telling e (p ∷ todo)) r h =
      let next = if (s.node p).crashed then telling e todo else writing p e (tells todo) in
      call-IsSound s i k next (told s.node (s.node p).crashed p e todo) h

  start_calls :
      (s : System F C) (i : ℕ) (now timeout : F) (ph : Phase)
      → (start s i now timeout ph).calls ≡ s.calls
  unfolding start
  start_calls s i now timeout idle = refl
  start_calls s i now timeout _ = refl

  ask_calls : (s : System F C) (i : ℕ) (now : F) (ph : Phase) → (ask s i now ph).calls ≡ s.calls
  unfolding ask
  ask_calls s i now (asking t l v (p ∷ todo)) = refl
  ask_calls s i now _ = refl

  conclude_calls : (s : System F C) (i : ℕ) (ph : Phase) → (conclude s i ph).calls ≡ s.calls
  unfolding conclude
  conclude_calls s i (asking t l v []) = elim (Bool-cases (wins s.total_nodes v (s.node i))) [
    | inl won ↦ rw won refl
    | inr lost ↦ rw lost refl
  ]
  conclude_calls s i _ = refl

  announce_calls :
      (s : System F C) (i : ℕ) (now : F) (ph : Phase) → (announce s i now ph).calls ≡ s.calls
  unfolding announce
  announce_calls s i now (announcing t (p ∷ todo)) = refl
  announce_calls s i now _ = refl

  beat_calls : (s : System F C) (i : ℕ) (ph : Phase) → (beat s i ph).calls ≡ s.calls
  unfolding beat
  beat_calls s i idle = refl
  beat_calls s i _ = refl

  deliver_calls :
      (s : System F C) (i : ℕ) (now timeout : F) (ph : Phase)
      → (deliver s i now timeout ph).calls ≡ s.calls
  unfolding deliver
  deliver_calls s i now timeout (beating t c (p ∷ todo)) = refl
  deliver_calls s i now timeout _ = refl

  -- Each node has its log and commit index so far.
  now_holds : (s : System F C) → IsSound s → (j : ℕ) → Holds (length (s.node j).log) (s.node j)
  now_holds s h j = (omega arith, h.logged j)

  act-IsSound : (s : System F C) (e : Event F C) → IsSound s → IsSound (act s e)
  unfolding act
  act-IsSound s (starts i now timeout) h =
      threads-IsSound s (start s i now timeout (s.phase i))
        (start_calls s i now timeout (s.phase i))
        (start-all (λ j m. Holds (length (s.node j).log) m) (logs-IsClosed (low_of s)) s i now
          timeout (s.phase i) (now_holds s h))
        h
  act-IsSound s (asks i now) h =
      threads-IsSound s (ask s i now (s.phase i)) (ask_calls s i now (s.phase i))
        (ask-all (λ j m. Holds (length (s.node j).log) m) (logs-IsClosed (low_of s)) s i now
          (s.phase i) (now_holds s h))
        h
  act-IsSound s (concludes i) h =
      threads-IsSound s (conclude s i (s.phase i)) (conclude_calls s i (s.phase i))
        (conclude-all (λ j m. Holds (length (s.node j).log) m) (logs-IsClosed (low_of s)) s i
          (s.phase i) (now_holds s h))
        h
  act-IsSound s (announces i now) h =
      threads-IsSound s (announce s i now (s.phase i)) (announce_calls s i now (s.phase i))
        (announce-all (λ j m. Holds (length (s.node j).log) m) (logs-IsClosed (low_of s)) s i now
          (s.phase i) (now_holds s h))
        h
  act-IsSound s (beats i) h =
      threads-IsSound s (beat s i (s.phase i)) (beat_calls s i (s.phase i))
        (beat-all (λ j m. Holds (length (s.node j).log) m) (logs-IsClosed (low_of s)) s i
          (s.phase i) (now_holds s h))
        h
  act-IsSound s (delivers i now timeout) h =
      threads-IsSound s (deliver s i now timeout (s.phase i))
        (deliver_calls s i now timeout (s.phase i))
        (deliver-all (λ j m. Holds (length (s.node j).log) m) (logs-IsClosed (low_of s)) s i now
          timeout (s.phase i) (now_holds s h))
        h
  act-IsSound s (crashes i) h =
      let m = s.node i in
      let (l, logged) = (logs-IsClosed (low_of s)).crash i m (now_holds s h i) in
      node-IsSound s i (force_crash m) l logged h
  act-IsSound s (recovers i now timeout) h =
      let m = s.node i in
      let (l, logged) = (logs-IsClosed (low_of s)).recovery i m now timeout (now_holds s h i) in
      node-IsSound s i (recover m now timeout) l logged h
  act-IsSound s (appends i k command) h = append-IsSound s i k command (s.calls i k) h
  act-IsSound s (proceeds i k) h = proceed-IsSound s i k (s.calls i k) (h.relies i k) h

  step-IsSound : (s : System F C) (e : Event F C) → IsSound s → IsSound (step s e)
  unfolding step
  step-IsSound s e h = elim (Bool-cases (ltb (actor e) s.total_nodes)) [
    | inl inside ↦ rw inside (act-IsSound s e h)
    | inr outside ↦ rw outside h
  ]

  pub run-IsSound : (s : System F C) (es : List (Event F C)) → IsSound s → IsSound (run s es)
  unfolding run
  run-IsSound s [] h = h
  run-IsSound s (e ∷ es) h = run-IsSound (step s e) es (step-IsSound s e h)

  pub boot-IsSound : (n : ℕ) (now timeout : ℕ → F) → IsSound (boot {C = C} n now timeout)
  unfolding boot init
  boot-IsSound n now timeout = record {
    logged = λ j. record { length_at = 0; at = refl; within = omega arith };
    relies = λ i k. tt;
  }

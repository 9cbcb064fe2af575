-- ===== src/Raft/System.antt =====
-- The coordinators as a system of threads. Each node's thread goes through `_start_election` and
-- `_send_heartbeats` one lock block or one call on a peer at a time; any such steps of the nodes,
-- crashes, recoveries and log appends interleave. When a thread takes a turn is left open, so the
-- schedules here include all that the timers allow. While a new leader announces itself it holds
-- its own lock in the program; here others may act on it meanwhile. `append_log` takes no lock: any
-- number of its calls on a node run at once, and each of their reads and writes is a step of its own,
-- also those of the `_append_entry` that they call on the peers.
use scrape_grid.Prelude.{
  ℕ, zero, suc, ◌+◌, List, [], ◌∷◌, ◌++◌, ◌==◌, not, ◌||◌, if◌then◌else◌, length, ltb,
}
use scrape_grid.Prelude.Int.{ℤ, sub_ℕ}
use scrape_grid.Raft.{
  Entry, Node, init, force_crash, recover, stand, request_vote, wins, lead, receive_heartbeat,
  accept_leader, is_leader,
}

-- How far node i's thread is: between turns; in the loop that collects votes, with the term and the
-- length of the log that it asks for, the votes so far and the peers left; in the loop that tells
-- the peers of the new leader; in the loop that sends heartbeats.
pub data Phase : Type 0 where
  idle : Phase
  asking : (term log_len votes : ℕ) (todo : List ℕ) → Phase
  announcing : (term : ℕ) (todo : List ℕ) → Phase
  beating : (term : ℕ) (commit : ℤ) (todo : List ℕ) → Phase

-- What a call of `append_log` does once an entry is in a log: the rest of its own node's part, or the
-- peers left.
pub data Next : Type 0 where
  counts : Next
  tells : (todo : List ℕ) → Next

-- How far a call of `append_log` is. It has returned, or has not been made; it has passed its test; it
-- is to append the entry to the log of node `p`, to read the length of that log, or to set the commit
-- index from the length read; it is to read the count of entries committed, or to write the next one;
-- or it is to call the peers left.
pub data Call (C : Type 0) : Type 0 where
  returned : Call C
  tested : (command : C) → Call C
  writing measuring : (p : ℕ) (entry : Entry C) → Next → Call C
  indexing : (p : ℕ) (entry : Entry C) (len : ℕ) → Next → Call C
  counting : (entry : Entry C) → Call C
  noting : (entry : Entry C) (count : ℕ) → Call C
  telling : (entry : Entry C) (todo : List ℕ) → Call C

-- The call when the commit index is set.
abbrev pub after : {C : Type 0} → Entry C → Next → Call C
after entry counts = counting entry
after entry (tells todo) = telling entry todo

-- The node_ids below `n` but `i`, in order: `set_peers` on the nodes 0 to n - 1.
unfoldable pub others : ℕ → ℕ → List ℕ → List ℕ
others zero i tail = tail
others (suc n) i tail = others n i (if n == i then tail else n ∷ tail)

unfoldable pub peers : ℕ → ℕ → List ℕ
unfolding others
peers total_nodes i = others total_nodes i []

abbrev pub update {ℓ} : {A : Type ℓ} → (ℕ → A) → ℕ → A → ℕ → A
update f i a j = if i == j then a else f j

pub record System (F C : Type 0) : Type 0 where
  pub total_nodes : ℕ
  pub node : ℕ → Node F C
  pub phase : ℕ → Phase
  -- each node's calls of `append_log`
  pub calls : ℕ → ℕ → Call C

-- A step, with the node whose method runs or whose thread moves.
pub data Event (F C : Type 0) : Type 0 where
  starts : (i : ℕ) (now timeout : F) → Event F C
  asks : (i : ℕ) (now : F) → Event F C
  concludes : (i : ℕ) → Event F C
  announces : (i : ℕ) (now : F) → Event F C
  beats : (i : ℕ) → Event F C
  delivers : (i : ℕ) (now timeout : F) → Event F C
  crashes : (i : ℕ) → Event F C
  recovers : (i : ℕ) (now timeout : F) → Event F C
  appends : (i k : ℕ) (command : C) → Event F C
  proceeds : (i k : ℕ) → Event F C

-- The phase after a loop's last call.
abbrev pub loop : (List ℕ → Phase) → List ℕ → Phase
loop p [] = idle
loop p (x ∷ xs) = p (x ∷ xs)

module _ {F C : Type 0} where
  abbrev pub actor : Event F C → ℕ
  actor (starts i _ _) = i
  actor (asks i _) = i
  actor (concludes i) = i
  actor (announces i _) = i
  actor (beats i) = i
  actor (delivers i _ _) = i
  actor (crashes i) = i
  actor (recovers i _ _) = i
  actor (appends i _ _) = i
  actor (proceeds i _) = i

  unfoldable pub boot : ℕ → (now timeout : ℕ → F) → System F C
  boot total_nodes now timeout = record {
    total_nodes = total_nodes;
    node = λ i. init (now i) (timeout i);
    phase = λ _. idle;
    calls = λ _ _. returned;
  }

  abbrev pub at_node : System F C → ℕ → Node F C → System F C
  at_node s i n = record s { node = update s.node i n }

  abbrev pub at_phase : System F C → ℕ → Phase → System F C
  at_phase s i p = record s { phase = update s.phase i p }

  abbrev pub at_call : System F C → ℕ → ℕ → Call C → System F C
  at_call s i k c = record s { calls = update s.calls i (update (s.calls i) k c) }

  unfoldable pub start : System F C → ℕ → (now timeout : F) → Phase → System F C
  start s i now timeout idle =
      let n = stand i (s.node i) now timeout in
      at_phase (at_node s i n) i (asking n.current_term (length n.log) 1 (peers s.total_nodes i))
  start s i now timeout _ = s

  unfoldable pub ask : System F C → ℕ → F → Phase → System F C
  ask s i now (asking term log_len votes (p ∷ todo)) =
      let (granted, n) = request_vote (s.node p) term i log_len now in
      at_phase (at_node s p n) i (asking term log_len (if granted then votes + 1 else votes) todo)
  ask s i now _ = s

  unfoldable pub conclude : System F C → ℕ → Phase → System F C
  conclude s i (asking term log_len votes []) =
      if wins s.total_nodes votes (s.node i)
      then at_phase (at_node s i (lead i (s.node i))) i
          (loop (announcing (s.node i).current_term) (peers s.total_nodes i))
      else at_phase s i idle
  conclude s i _ = s

  unfoldable pub announce : System F C → ℕ → F → Phase → System F C
  announce s i now (announcing term (p ∷ todo)) =
      at_phase (at_node s p (accept_leader (s.node p) i term now)) i (loop (announcing term) todo)
  announce s i now _ = s

  unfoldable pub beat : System F C → ℕ → Phase → System F C
  beat s i idle =
      let n = s.node i in
      at_phase s i (loop (beating n.current_term n.commit_index) (peers s.total_nodes i))
  beat s i _ = s

  unfoldable pub deliver : System F C → ℕ → (now timeout : F) → Phase → System F C
  deliver s i now timeout (beating term commit (p ∷ todo)) =
      at_phase (at_node s p (receive_heartbeat (s.node p) term i commit now timeout)) i
        (loop (beating term commit) todo)
  deliver s i now timeout _ = s

  -- A call is made, with the test of `append_log`.
  unfoldable pub append : System F C → (i k : ℕ) → C → Call C → System F C
  append s i k command returned =
      let n = s.node i in
      if not (is_leader n.state) || n.crashed then s else at_call s i k (tested command)
  append s i k command _ = s

  -- The next read or write of a call.
  unfoldable pub proceed : System F C → (i k : ℕ) → Call C → System F C
  unfolding peers
  proceed s i k returned = s
  proceed s i k (tested command) =
      at_call s i k
        (writing i (record { term = (s.node i).current_term; command = command }) counts)
  proceed s i k (writing p entry next) =
      let n = s.node p in
      at_call (at_node s p (record n { log = n.log ++ entry ∷ [] })) i k (measuring p entry next)
  proceed s i k (measuring p entry next) =
      at_call s i k (indexing p entry (length (s.node p).log) next)
  proceed s i k (indexing p entry len next) =
      at_call (at_node s p (record (s.node p) { commit_index = sub_ℕ len 1 })) i k
        (after entry next)
  proceed s i k (counting entry) = at_call s i k (noting entry (s.node i).log_entries_committed)
  proceed s i k (noting entry count) =
      at_call (at_node s i (record (s.node i) { log_entries_committed = count + 1 })) i k
        (telling entry (peers s.total_nodes i))
  proceed s i k (telling entry []) = at_call s i k returned
  proceed s i k (telling entry (p ∷ todo)) =
      at_call s i k
        (if (s.node p).crashed then telling entry todo else writing p entry (tells todo))

  unfoldable pub act : System F C → Event F C → System F C
  unfolding start ask conclude announce beat deliver append proceed
  act s (starts i now timeout) = start s i now timeout (s.phase i)
  act s (asks i now) = ask s i now (s.phase i)
  act s (concludes i) = conclude s i (s.phase i)
  act s (announces i now) = announce s i now (s.phase i)
  act s (beats i) = beat s i (s.phase i)
  act s (delivers i now timeout) = deliver s i now timeout (s.phase i)
  act s (crashes i) = at_node s i (force_crash (s.node i))
  act s (recovers i now timeout) = at_node s i (recover (s.node i) now timeout)
  act s (appends i k command) = append s i k command (s.calls i k)
  act s (proceeds i k) = proceed s i k (s.calls i k)

  -- There are only the nodes 0 to total_nodes - 1.
  unfoldable pub step : System F C → Event F C → System F C
  unfolding act
  step s e = if ltb (actor e) s.total_nodes then act s e else s

  unfoldable pub run : System F C → List (Event F C) → System F C
  run s [] = s
  run s (e ∷ es) = run (step s e) es

-- ===== src/Raft.antt =====
-- algorithms/raft.py: `RaftNode`. A block under a node's lock is one function on that node; `now`
-- is the reading of the wall clock and `timeout` the random draw that the block takes. `F` is the
-- type of floats and `C` that of commands. A node is known by its node_id.
pub mod System
pub mod Votes
pub mod Safety
pub mod Closed
pub mod Calls
pub mod Log
pub mod Status
mod Examples
use scrape_grid.Prelude.{
  ℕ, ◌+◌, ◌/◌, Bool, true, false, not, ◌&&◌, ◌||◌, Option, none, some, List, [], ◌∷◌, ◌++◌, leb,
  ltb, ◌==◌, if◌then◌else◌, length,
}
use scrape_grid.Prelude.Int.{ℤ, negsuc, sub_ℕ}
use scrape_grid.Floats.{FloatOps, lt}

pub data Role : Type 0 where
  follower candidate leader : Role

pub record Entry (C : Type 0) : Type 0 where
  pub term : ℕ
  pub command : C

pub record Node (F C : Type 0) : Type 0 where
  pub current_term : ℕ
  pub voted_for : Option ℕ
  pub log : List (Entry C)
  pub state : Role
  pub leader_id : Option ℕ
  pub commit_index : ℤ
  pub last_heartbeat : F
  pub election_timeout : F
  pub running : Bool
  pub elections_started : ℕ
  pub votes_cast : ℕ
  pub log_entries_committed : ℕ
  pub crashed : Bool

abbrev pub is_candidate : Role → Bool
is_candidate candidate = true
is_candidate follower = false
is_candidate leader = false

abbrev pub is_leader : Role → Bool
is_leader leader = true
is_leader follower = false
is_leader candidate = false

-- `self.voted_for in (None, candidate_id)`
abbrev pub free_for : Option ℕ → ℕ → Bool
free_for none i = true
free_for (some j) i = j == i

module _ {F C : Type 0} where
  unfoldable pub init : (now timeout : F) → Node F C
  init now timeout = record {
    current_term = 0;
    voted_for = none;
    log = [];
    state = follower;
    leader_id = none;
    commit_index = negsuc 0;
    last_heartbeat = now;
    election_timeout = timeout;
    running = false;
    elections_started = 0;
    votes_cast = 0;
    log_entries_committed = 0;
    crashed = false;
  }

  unfoldable pub stop : Node F C → Node F C
  stop n = record n { running = false }

  unfoldable pub force_crash : Node F C → Node F C
  force_crash n = record n { crashed = true; state = follower }

  unfoldable pub recover : Node F C → (now timeout : F) → Node F C
  recover n now timeout = record n {
    crashed = false;
    last_heartbeat = now;
    election_timeout = timeout;
  }

  -- The first block of `_start_election` on node `i`.
  unfoldable pub stand : ℕ → Node F C → (now timeout : F) → Node F C
  stand i n now timeout = record n {
    state = candidate;
    current_term = n.current_term + 1;
    voted_for = some i;
    elections_started = n.elections_started + 1;
    election_timeout = timeout;
    last_heartbeat = now;
  }

  -- `_request_vote`, from the comparison of the terms on: a later term is taken over first.
  unfoldable pub adopt : Node F C → ℕ → Node F C
  adopt n term =
      if ltb n.current_term term
      then record n { current_term = term; voted_for = none; state = follower }
      else n

  unfoldable pub cast : Node F C → (candidate_id candidate_log_len : ℕ) → F → Bool × Node F C
  cast n candidate_id candidate_log_len now =
      if free_for n.voted_for candidate_id && leb (length n.log) candidate_log_len
      then (
        true,
        record n {
          voted_for = some candidate_id;
          votes_cast = n.votes_cast + 1;
          last_heartbeat = now;
        },
      )
      else (false, n)

  unfoldable pub request_vote :
      Node F C → (term candidate_id candidate_log_len : ℕ) → F → Bool × Node F C
  unfolding adopt cast
  request_vote n term candidate_id candidate_log_len now =
      if n.crashed || ltb term n.current_term
      then (false, n)
      else cast (adopt n term) candidate_id candidate_log_len now

  -- The test and the first two assignments of the last block of `_start_election`.
  unfoldable pub wins : (total_nodes votes : ℕ) → Node F C → Bool
  wins total_nodes votes n = ltb (total_nodes / 2) votes && is_candidate n.state

  unfoldable pub lead : ℕ → Node F C → Node F C
  lead i n = record n { state = leader; leader_id = some i }

  unfoldable pub receive_heartbeat :
      Node F C → (term leader_id : ℕ) → ℤ → (now timeout : F) → Node F C
  receive_heartbeat n term leader_id commit_index now timeout =
      if n.crashed || ltb term n.current_term then n else record n {
        current_term = term;
        state = follower;
        leader_id = some leader_id;
        last_heartbeat = now;
        election_timeout = timeout;
      }

  unfoldable pub accept_leader : Node F C → (leader_id term : ℕ) → F → Node F C
  accept_leader n leader_id term now =
      if not n.crashed && leb n.current_term term
      then record n {
        state = follower;
        leader_id = some leader_id;
        current_term = term;
        last_heartbeat = now;
      }
      else n

  -- `self.log.append(entry); self.commit_index = len(self.log) - 1`
  unfoldable pub push : Node F C → Entry C → Node F C
  push n entry =
      let log = n.log ++ entry ∷ [] in record n { log = log; commit_index = sub_ℕ (length log) 1 }

  -- `append_log` up to its loop over the peers, when nothing interrupts it. It takes no lock: what other
  -- threads may do between its statements is in Raft/System.
  unfoldable pub append_own : Node F C → C → Option (Entry C) × Node F C
  unfolding push
  append_own n command =
      if not (is_leader n.state) || n.crashed
      then (none, n)
      else let entry : Entry C = record { term = n.current_term; command = command } in
        let n' = push n entry in
        (some entry, record n' { log_entries_committed = n.log_entries_committed + 1 })

  -- `_append_entry`, when no call of `append_log` on the node interrupts it.
  unfoldable pub append_entry : Node F C → Entry C → Node F C
  unfolding push
  append_entry n entry = if n.crashed then n else push n entry

-- What one turn of the loop `run` does on a node that it finds at time `now`.
pub data Turn : Type 0 where
  rests heartbeats elects : Turn

module _ (fl : FloatOps) {C : Type 0} where
  unfoldable pub turn : Node fl.Float C → fl.Float → Turn
  turn n now =
      if n.crashed
      then rests
      else (if is_leader n.state
          then heartbeats
          else (if lt fl n.election_timeout (fl.sub now n.last_heartbeat) then elects else rests))

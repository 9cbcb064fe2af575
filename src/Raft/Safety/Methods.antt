-- ===== src/Raft/Safety/Methods.antt =====
-- What each method of a node does to its term, vote and role.
use scrape_grid.Prelude.{ℕ, ◌+◌, ◌≡◌, true, false, none, some, arith, ◌⊎◌, List}
use scrape_grid.Raft.{
  candidate, Node, Entry, force_crash, recover, stand, request_vote, receive_heartbeat,
  accept_leader,
}
use scrape_grid.Prelude.Int.{ℤ}
use scrape_grid.Raft.Safety.Invariant.{Keeps, Casts}

-- The methods that cast no vote.
module _ {F C : Type 0} (m : Node F C) where
  pub force_crash-Keeps : Keeps m (force_crash m)
  unfolding force_crash
  force_crash-Keeps = ground arith

  pub recover-Keeps : (now timeout : F) → Keeps m (recover m now timeout)
  unfolding recover
  recover-Keeps now timeout = ground arith

  -- What `append_log` writes.
  pub write-Keeps :
      (log : List (Entry C)) (commit : ℤ) (count : ℕ)
      → Keeps m (record m { log = log; commit_index = commit; log_entries_committed = count })
  write-Keeps log commit count = ground arith

  pub accept_leader-Keeps : (i term : ℕ) (now : F) → Keeps m (accept_leader m i term now)
  unfolding accept_leader
  accept_leader-Keeps i term now = ground arith

  pub receive_heartbeat-Keeps :
      (term i : ℕ) (commit : ℤ) (now timeout : F)
      → Keeps m (receive_heartbeat m term i commit now timeout)
  unfolding receive_heartbeat
  receive_heartbeat-Keeps term i commit now timeout = ground arith

  pub request_vote-Keeps :
      (t i l : ℕ) (now : F)
      → (request_vote m t i l now).0 ≡ false
      → Keeps m (request_vote m t i l now).1
  unfolding request_vote
  request_vote-Keeps t i l now h = ground arith

  pub request_vote-Casts :
      (t i l : ℕ) (now : F)
      → (request_vote m t i l now).0 ≡ true
      → Casts t i m (request_vote m t i l now).1
        × ((request_vote m t i l now).1.state ≡ candidate
            → (m.state ≡ candidate) × ((request_vote m t i l now).1.current_term ≡ m.current_term))
        × ((m.current_term ≡ t) → (m.voted_for ≡ none) ⊎ (m.voted_for ≡ some i))
  unfolding request_vote
  request_vote-Casts t i l now h = (ground arith, ground arith, ground arith)

  pub stand-Casts :
      (i : ℕ) (now timeout : F) → Casts (m.current_term + 1) i m (stand i m now timeout)
  unfolding stand
  stand-Casts i now timeout = ground arith

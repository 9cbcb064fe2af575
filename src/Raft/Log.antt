-- ===== src/Raft/Log.antt =====
-- Terms and commit indices of the single nodes along any schedule.
use scrape_grid.Prelude.{ℕ, ◌≤◌, List, arith}
use scrape_grid.Raft.{
  force_crash, recover, stand, request_vote, lead, receive_heartbeat, accept_leader,
}
use scrape_grid.Raft.System.{System, Event, run, boot}
use scrape_grid.Raft.Closed.{IsClosed, run-all}
use scrape_grid.Raft.Calls.{IsLogged}
use scrape_grid.Raft.Calls.Steps.{run-IsSound, boot-IsSound}

module _ {F C : Type 0} where
  terms-IsClosed : (low : ℕ → ℕ) → IsClosed {F = F} {C = C} (λ j m. low j ≤ m.current_term)
  unfolding stand request_vote lead receive_heartbeat accept_leader force_crash recover
  terms-IsClosed low = record {
    stands = λ i m now timeout h. ground arith;
    votes = λ j m t i l now h. ground arith;
    leads = λ i m h. ground arith;
    hears = λ j m t i c now timeout h. ground arith;
    accepts = λ j m i t now h. ground arith;
    crash = λ j m h. ground arith;
    recovery = λ j m now timeout h. ground arith;
  }

  -- No node's term ever falls, whatever the schedule.
  pub terms_rise :
      (s : System F C) (es : List (Event F C)) (j : ℕ)
      → (s.node j).current_term ≤ ((run s es).node j).current_term
  terms_rise s es j =
      run-all (λ i m. (s.node i).current_term ≤ m.current_term)
        (terms-IsClosed (λ i. (s.node i).current_term)) (λ i m log commit count h. h) s es
        (λ i. omega arith) j

  -- Along every schedule of newly started nodes, calls of `append_log` that interrupt each other
  -- included, each node's commit index is -1 or the index of an entry of its log.
  pub run-IsLogged :
      (n : ℕ) (now timeout : ℕ → F) (es : List (Event F C)) (j : ℕ)
      → IsLogged ((run (boot n now timeout) es).node j)
  run-IsLogged n now timeout es j =
      (run-IsSound (boot n now timeout) es (boot-IsSound n now timeout)).logged j

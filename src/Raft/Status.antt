-- ===== src/Raft/Status.antt =====
-- `status` of `RaftNode`.
use scrape_grid.Prelude.{ℕ, Bool, Option, length}
use scrape_grid.Raft.{Node, Role}

pub record Status : Type 0 where
  pub id : ℕ
  pub state : Role
  pub term : ℕ
  pub leader : Option ℕ
  pub log_len : ℕ
  pub committed : ℕ
  pub elections : ℕ
  pub crashed : Bool

unfoldable pub status : {F C : Type 0} → ℕ → Node F C → Status
status node_id n = record {
  id = node_id;
  state = n.state;
  term = n.current_term;
  leader = n.leader_id;
  log_len = length n.log;
  committed = n.log_entries_committed;
  elections = n.elections_started;
  crashed = n.crashed;
}

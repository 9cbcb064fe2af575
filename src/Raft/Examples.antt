-- ===== src/Raft/Examples.antt =====
-- Three coordinators, as in tests/test_raft.py; floats and commands are numbers here.
use scrape_grid.Prelude.{ℕ, ◌+◌, ◌*◌, ◌≤◌, ◌≡◌, refl, some, List, [], ◌∷◌, ◌++◌, replicate}
use scrape_grid.Prelude.Int.{pos}
use scrape_grid.Raft.{
  leader, Entry, init, force_crash, stand, request_vote, wins, lead, accept_leader,
}
use scrape_grid.Raft.System.{
  System, idle, Event, starts, asks, concludes, announces, crashes, appends, proceeds, append,
  proceed, boot, step, run, act, peers,
}
use scrape_grid.Raft.Log.{terms_rise, run-IsLogged}
use scrape_grid.Raft.Calls.{IsLogged}
use scrape_grid.Raft.Safety.Elections.{election_safety}

abbrev booted : System ℕ ℕ
booted = boot 3 (λ _. 0) (λ i. 300 + 100 * i)

-- Node 0 is elected without interruption, appends an entry and replicates it.
abbrev election : List (Event ℕ ℕ)
election =
    starts 0 310 350
    ∷ asks 0 311
    ∷ asks 0 312
    ∷ concludes 0
    ∷ announces 0 313
    ∷ announces 0 314
    ∷ []

abbrev entry : Entry ℕ
entry = record { term = 1; command = 7 }

-- A call of `append_log` on node 0 to its end.
abbrev logging : List (Event ℕ ℕ)
logging = election ++ appends 0 0 7 ∷ replicate 15 (proceeds 0 0)

-- Node 0 crashes, and node 1 is elected in the next term.
abbrev failover : List (Event ℕ ℕ)
failover = logging ++ crashes 0 ∷ starts 1 900 400 ∷ asks 1 901 ∷ asks 1 902 ∷ concludes 1 ∷ []

methods : Unit {0}
unfolding run step act boot init stand request_vote wins lead accept_leader append proceed
    force_crash peers
methods = tt

peers_run : peers 3 1 ≡ 0 ∷ 2 ∷ []
unfolding peers
peers_run = refl

elected :
    (((run booted election).node 0).state ≡ leader)
    × (((run booted election).node 1).leader_id ≡ some 0)
    × (((run booted election).node 2).leader_id ≡ some 0)
    × ((run booted election).phase 0 ≡ idle)
unfolding methods
elected = (refl, refl, refl, refl)

logged :
    (((run booted logging).node 0).log ≡ entry ∷ [])
    × (((run booted logging).node 2).log ≡ entry ∷ [])
    × (((run booted logging).node 2).commit_index ≡ pos 0)
unfolding methods
logged = (refl, refl, refl)

failed_over :
    (((run booted failover).node 1).state ≡ leader)
    × (((run booted failover).node 1).current_term ≡ 2)
unfolding methods
failed_over = (refl, refl)

election_safety_example : ◌≡◌ {A = ℕ} 1 1
unfolding methods
election_safety_example =
    election_safety 3 (λ _. 0) (λ i. 300 + 100 * i) failover 1 1 refl refl refl

terms_rise_example :
    ((run booted election).node 2).current_term
    ≤ ((run (run booted election) failover).node 2).current_term
terms_rise_example = terms_rise (run booted election) failover 2

run-IsLogged_example : IsLogged ((run booted logging).node 0)
run-IsLogged_example = run-IsLogged 3 (λ _. 0) (λ i. 300 + 100 * i) logging 0

-- Two calls of `append_log` on node 0 at once: the first has read the length of its log when the second
-- appends, and is the last to set the commit index.
abbrev overtaking : List (Event ℕ ℕ)
overtaking =
    election
    ++ appends 0 0 7 ∷ appends 0 1 8 ∷ replicate 3 (proceeds 0 0)
    ++ replicate 4 (proceeds 0 1)
    ++ proceeds 0 0 ∷ []

overtaken :
    (((run booted overtaking).node 0).log ≡ entry ∷ record { term = 1; command = 8 } ∷ [])
    × (((run booted overtaking).node 0).commit_index ≡ pos 0)
unfolding methods
overtaken = (refl, refl)

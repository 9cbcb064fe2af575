-- ===== src/EventLog/Examples.antt =====
-- A log of three events, two of one stamp.
use scrape_grid.Prelude.{ℕ, ◌*◌, ◌/◌, ◌≡◌, refl, List, [], ◌∷◌, map, take_last}
use scrape_grid.EventLog.{Event, init, log, all_events}
use scrape_grid.EventLog.Order.{Ascends, stamped, all_events_lem}
use scrape_grid.EventLog.Recent.{run, kept, run_lem}

abbrev event : ℕ → ℕ → Event ℕ
event lamport t = record {
  lamport = lamport;
  t = t;
  source = b'N' ∷ [];
  level = b'i' ∷ [];
  message = [];
}

abbrev calls : List (Event ℕ)
calls = event 2 15 ∷ event 1 27 ∷ event 2 39 ∷ []

abbrev tens : ℕ → ℕ
tens t = t / 10 * 10

methods : Unit {0}
unfolding init log all_events
methods = tt

in_order : all_events (run tens init calls) ≡ event 1 20 ∷ event 2 10 ∷ event 2 30 ∷ []
unfolding methods
in_order = refl

all_events_lem_example :
    Ascends (all_events (run tens init calls))
    × ((n : ℕ)
        → stamped n (all_events (run tens init calls)) ≡ stamped n (run tens init calls).events)
all_events_lem_example = all_events_lem (run tens init calls)

run_lem_example : (run tens init calls).events ≡ take_last 500 (map (kept tens) calls)
run_lem_example = run_lem tens calls

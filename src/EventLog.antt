-- ===== src/EventLog.antt =====
-- utils/logger.py: `EventLog`. `round_2` stands for `round(t, 2)` on the language's floats.
pub mod Order
pub mod Recent
mod Examples
use scrape_grid.Prelude.{ℕ, ◌+◌, List, [], ◌∷◌, ◌++◌, ltb, if◌then◌else◌, length, take_last}
use scrape_grid.Text.{Text}

pub record Event (F : Type 0) : Type 0 where
  pub lamport : ℕ
  pub t : F
  pub source : Text
  pub level : Text
  pub message : Text

pub record EventLog (F : Type 0) : Type 0 where
  pub events : List (Event F)

unfoldable pub init : {F : Type 0} → EventLog F
init = record { events = [] }

-- The argument holds the five values that `log` is called with.
unfoldable pub log : {F : Type 0} (round_2 : F → F) → EventLog F → Event F → EventLog F
log round_2 l call =
    let events = l.events ++ record call { t = round_2 call.t } ∷ [] in
    record { events = if ltb 500 (length events) then take_last 500 events else events }

-- `sorted(…, key=…)` is a stable sort; an element goes before the first whose key is not smaller.
unfoldable pub insert : {F : Type 0} → Event F → List (Event F) → List (Event F)
insert e [] = e ∷ []
insert e (x ∷ xs) =
    let rest = insert e xs in if ltb x.lamport e.lamport then x ∷ rest else e ∷ x ∷ xs

unfoldable pub sorted : {F : Type 0} → List (Event F) → List (Event F)
unfolding insert
sorted [] = []
sorted (e ∷ es) = insert e (sorted es)

-- `all`
unfoldable pub all_events : {F : Type 0} → EventLog F → List (Event F)
unfolding sorted
all_events l = sorted l.events

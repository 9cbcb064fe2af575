-- ===== src/Clocks/Lamport.antt =====
-- `LamportClock` of algorithms/clocks.py, and its behaviour along any sequence of calls.
use scrape_grid.Prelude.{ℕ, ◌+◌, ◌≤◌, ◌<◌, ◌↔◌, max, List, [], ◌∷◌, arith}

pub record LamportClock : Type 0 where
  pub value : ℕ

unfoldable pub init : LamportClock
init = record { value = 0 }

unfoldable pub increment : LamportClock → ℕ × LamportClock
increment c = let v = c.value + 1 in (v, record c { value = v })

unfoldable pub update : LamportClock → ℕ → ℕ × LamportClock
update c received = let v = max c.value received + 1 in (v, record c { value = v })

-- A call that moves the clock.
pub data Call : Type 0 where
  increments : Call
  updates : ℕ → Call

unfoldable pub step : LamportClock → Call → ℕ × LamportClock
unfolding increment update
step c increments = increment c
step c (updates received) = update c received

-- The values that a sequence of calls returns, in order.
unfoldable pub stamps : LamportClock → List Call → List ℕ
unfolding step
stamps c [] = []
stamps c (call ∷ calls) = let (v, c') = step c call in v ∷ stamps c' calls

-- Each number of the list lies above the bound and above all before it.
abbrev pub Ascends : ℕ → List ℕ → Type 0
Ascends low [] = Unit {0}
Ascends low (v ∷ vs) = (low < v) × Ascends v vs

-- However the threads interleave their calls, the stamps handed out rise strictly, starting above
-- the clock's value.
pub stamps-Ascends : (c : LamportClock) (calls : List Call) → Ascends c.value (stamps c calls)
unfolding stamps
stamps-Ascends c [] = tt
stamps-Ascends c (increments ∷ calls) = (omega arith, stamps-Ascends (increment c).1 calls)
stamps-Ascends c (updates received ∷ calls) =
    (omega arith, stamps-Ascends (update c received).1 calls)

-- The receive rule: the new value is at most a number just when that number is above both the
-- received stamp and the old value, so it is the least such number.
pub update-least :
    (c : LamportClock) (received m : ℕ)
    → ((update c received).0 ≤ m) ↔ ((received < m) × (c.value < m))
unfolding update
update-least c received m = (λ h. (omega arith, omega arith), λ (p, q). omega arith)

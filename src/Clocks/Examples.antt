-- ===== src/Clocks/Examples.antt =====
-- Runs of the clocks on small inputs, the cases of tests/test_clocks.py among them.
use scrape_grid.Prelude.{ℕ, ◌≡◌, refl, ◌↔◌, ◌≢◌, List, [], ◌∷◌, arith}
use scrape_grid.Result.{ok, err, index_error}
use scrape_grid.Clocks.Lamport
use scrape_grid.Clocks.Lamport.{
  LamportClock, Call, increments, updates, stamps, step, Ascends, stamps-Ascends, update-least,
}
use scrape_grid.Clocks.Vector.{
  VectorClock, IsValid, tick, receive, merge, compare, all_slots, equal, before, after, concurrent,
}
use scrape_grid.Clocks.Order.{compare_iff, AtMost}
use scrape_grid.Clocks.Causality.{receive-after}

stamps_run : stamps Lamport.init (increments ∷ updates 10 ∷ increments ∷ []) ≡ 1 ∷ 11 ∷ 12 ∷ []
unfolding stamps Lamport.init
stamps_run = refl

stamps-Ascends_example : Ascends 0 (stamps Lamport.init (increments ∷ updates 10 ∷ []))
unfolding Lamport.init
stamps-Ascends_example = stamps-Ascends Lamport.init (increments ∷ updates 10 ∷ [])

abbrev second : VectorClock
second = record { node_id = 1; num_nodes = 3; vector = 2 ∷ 1 ∷ 0 ∷ [] }

second-IsValid : IsValid second
second-IsValid = omega arith

tick-second : tick second ≡ (ok (2 ∷ 2 ∷ 0 ∷ []), record second { vector = 2 ∷ 2 ∷ 0 ∷ [] })
unfolding tick
tick-second = refl

tick_foreign : (tick (record second { node_id = 3 })).0 ≡ err index_error
unfolding tick
tick_foreign = refl

receive-second : (receive second (0 ∷ 5 ∷ 4 ∷ [])).0 ≡ ok (2 ∷ 6 ∷ 4 ∷ [])
unfolding receive merge
receive-second = refl

compare_samples :
    (compare (1 ∷ 2 ∷ []) (1 ∷ 3 ∷ []) ≡ before)
    × (compare (1 ∷ 3 ∷ []) (1 ∷ 2 ∷ []) ≡ after)
    × (compare (1 ∷ 0 ∷ []) (0 ∷ 1 ∷ []) ≡ concurrent)
    × (compare [] [] ≡ equal)
unfolding compare all_slots
compare_samples = (refl, refl, refl, refl)

abbrev low : List ℕ
low = 1 ∷ 4 ∷ []

abbrev high : List ℕ
high = 2 ∷ 4 ∷ []

compare_iff_example :
    ((compare low high ≡ equal) ↔ (low ≡ high))
    × ((compare low high ≡ before) ↔ (AtMost low high × (low ≢ high)))
    × ((compare low high ≡ after) ↔ (AtMost high low × (low ≢ high)))
    × ((compare low high ≡ concurrent) ↔ ((¬ AtMost low high) × (¬ AtMost high low)))
compare_iff_example = compare_iff low high refl

receive-after_example :
    (w : List ℕ) × (receive second (0 ∷ 5 ∷ 4 ∷ []) ≡ (ok w, record second { vector = w }))
    × (compare (2 ∷ 1 ∷ 0 ∷ []) w ≡ before)
    × (compare (0 ∷ 5 ∷ 4 ∷ []) w ≡ before)
receive-after_example = receive-after second (0 ∷ 5 ∷ 4 ∷ []) second-IsValid refl

-- ===== src/CircuitBreaker/Examples.antt =====
-- The breaker on numbers with three decimals, the cases of tests/test_circuit_breaker.py among them.
use scrape_grid.Prelude.{◌≡◌, refl, true, all, not, List, [], ◌∷◌, arith}
use scrape_grid.Prelude.Int.{pos, ◌-ℤ◌}
use scrape_grid.Floats.Fixed.{fixed, mul}
use scrape_grid.CircuitBreaker.{
  closed, opened, CircuitBreaker, init, record_failure, cooldown_remaining, Call, allows, succeeds,
  fails, probes, step, run,
}
use scrape_grid.CircuitBreaker.Transitions.{answers, Quiet, opened-refuses}
use scrape_grid.CircuitBreaker.Cooldown.{run-fails, delay, IsValid, run-init-IsValid}

-- Blocked for the second time at second 10, so closed off for two seconds.
abbrev blocked : CircuitBreaker fixed
blocked = record {
  failure_threshold = 1;
  state = opened;
  failure_count = 0;
  block_count = 2;
  open_since = pos 10000;
  cooldown = pos 2000;
}

run-blocked :
    run fixed (init fixed 1) (fails (pos 3000) ∷ probes ∷ fails (pos 10000) ∷ []) ≡ blocked
unfolding run init step mul
run-blocked = refl

-- BASE_DELAY is half a second, and the first cooldown is a whole one.
first_cooldown : (record_failure fixed (init fixed 1) (pos 0)).cooldown ≡ pos 1000
unfolding record_failure init mul
first_cooldown = refl

remaining : cooldown_remaining fixed blocked (pos 10500) ≡ pos 1500
unfolding cooldown_remaining ◌-ℤ◌
remaining = refl

recovers : (run fixed blocked (allows (pos 12000) ∷ succeeds ∷ [])).state ≡ closed
unfolding run step ◌-ℤ◌
recovers = refl

abbrev early : List (Call fixed)
early = allows (pos 10500) ∷ succeeds ∷ allows (pos 11999) ∷ []

early-Quiet : Quiet fixed (pos 2000) (pos 10000) early
unfolding ◌-ℤ◌
early-Quiet = (refl, (refl, tt))

opened-refuses_example :
    (all not (answers fixed blocked early) ≡ true) × ((run fixed blocked early).state ≡ opened)
opened-refuses_example = opened-refuses fixed blocked early refl early-Quiet

run-fails_example :
    ((run fixed (init fixed 1) (fails (pos 1000) ∷ fails (pos 4000) ∷ [])).state ≡ opened)
    × ((run fixed (init fixed 1) (fails (pos 1000) ∷ fails (pos 4000) ∷ [])).block_count ≡ 2)
    × ((run fixed (init fixed 1) (fails (pos 1000) ∷ fails (pos 4000) ∷ [])).cooldown
        ≡ delay fixed 2)
    × ((run fixed (init fixed 1) (fails (pos 1000) ∷ fails (pos 4000) ∷ [])).open_since ≡ pos 4000)
unfolding init
run-fails_example = run-fails fixed (init fixed 1) (pos 1000 ∷ []) (pos 4000) (omega arith)

run-init-IsValid_example : IsValid fixed (run fixed (init fixed 2) (fails (pos 0) ∷ early))
run-init-IsValid_example = run-init-IsValid fixed 2 (fails (pos 0) ∷ early) (omega arith)

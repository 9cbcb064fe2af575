-- ===== src/CircuitBreaker/Cooldown.antt =====
-- The exponential backoff of the cooldown, and the bounds on the counters.
use scrape_grid.Prelude.{
  ℕ, zero, suc, ◌+◌, ◌^◌, ◌≤◌, ◌<◌, min, ◌≡◌, ◌++◌, ◌∙◌, ap, true, arith, List, [], ◌∷◌, length,
  map,
}
use scrape_grid.Floats.{FloatOps}
use scrape_grid.CircuitBreaker.{
  opened, CircuitBreaker, base_delay, init, Call, allows, succeeds, fails, probes, step, run,
}

pow_le : (m : ℕ) → m ≤ 5 → 2 ^ m ≤ 32
pow_le zero h = omega arith
pow_le (suc zero) h = omega arith
pow_le (suc (suc zero)) h = omega arith
pow_le (suc (suc (suc zero))) h = omega arith
pow_le (suc (suc (suc (suc zero)))) h = omega arith
pow_le (suc (suc (suc (suc (suc zero))))) h = omega arith
pow_le (suc (suc (suc (suc (suc (suc m)))))) h = absurd (omega arith)

module _ (fl : FloatOps) where
  open fl use {
    Float, le, mul, of_ℕ, of_ℕ_nonneg, of_ℕ_mono, literal_nonneg, mul_mono, mul_nonneg, le_refl,
  }

  -- The cooldown of the `n`-th block.
  abbrev pub delay : ℕ → Float
  delay n = mul (of_ℕ (2 ^ min n 5)) (base_delay fl)

  step-fails :
      (cb : CircuitBreaker fl) (t : Float)
      → cb.failure_threshold ≤ 1
      → ((step fl cb (fails t)).state ≡ opened)
        × ((step fl cb (fails t)).failure_threshold ≡ cb.failure_threshold)
        × ((step fl cb (fails t)).block_count ≡ cb.block_count + 1)
        × ((step fl cb (fails t)).cooldown ≡ delay (cb.block_count + 1))
        × ((step fl cb (fails t)).open_since ≡ t)
  unfolding step
  step-fails cb t h = ground arith

  -- With the threshold 1 that the workers use, failures at any times open the circuit for a
  -- cooldown of 2^n * BASE_DELAY after the n-th block, n counting up to 5.
  pub run-fails :
      (cb : CircuitBreaker fl) (times : List Float) (t : Float)
      → cb.failure_threshold ≤ 1
      → let cb' = run fl cb (map fails (times ++ t ∷ [])) in
        (cb'.state ≡ opened)
        × (cb'.block_count ≡ cb.block_count + length times + 1)
        × (cb'.cooldown ≡ delay (cb.block_count + length times + 1))
        × (cb'.open_since ≡ t)
  unfolding run
  run-fails cb [] t h =
      let (o, _, n, c, at) = step-fails cb t h in
      (o, omega (arith, n), c ∙ ap delay (omega arith), at)
  run-fails cb (s ∷ times) t h =
      let (_, k, n, _, _) = step-fails cb s h in
      let (o, m, c, at) = run-fails (step fl cb (fails s)) times t (omega (arith, k)) in
      (o, omega (arith, m, n), c ∙ ap delay (omega (arith, n)), at)

  delay-le : (n : ℕ) → le (delay n) (delay 5) ≡ true
  delay-le n =
      mul_mono _ _ _ (of_ℕ_nonneg _) (of_ℕ_mono _ _ (pow_le (min n 5) (omega arith)))
        (literal_nonneg 5 10)

  -- With a threshold of at least 1: fewer failures are pending than the threshold, each of them is
  -- counted as a block, and no cooldown is above 2^5 * BASE_DELAY.
  pub record IsValid (cb : CircuitBreaker fl) : Type 0 where
    pub pending : cb.failure_count < cb.failure_threshold
    pub counted : cb.failure_count ≤ cb.block_count
    pub capped : le cb.cooldown (delay 5) ≡ true

  init-IsValid : (threshold : ℕ) → 1 ≤ threshold → IsValid (init fl threshold)
  unfolding init
  init-IsValid threshold h = record {
    pending = h;
    counted = omega arith;
    capped = mul_nonneg _ _ (of_ℕ_nonneg _) (literal_nonneg 5 10);
  }

  step-IsValid : (cb : CircuitBreaker fl) (call : Call fl) → IsValid cb → IsValid (step fl cb call)
  unfolding step
  step-IsValid cb (allows now) v = ground arith
  step-IsValid cb succeeds v = ground arith
  step-IsValid cb (fails now) v = ground (arith, delay-le (cb.block_count + 1))
  step-IsValid cb probes v = ground arith

  run-IsValid :
      (cb : CircuitBreaker fl) (calls : List (Call fl)) → IsValid cb → IsValid (run fl cb calls)
  unfolding run
  run-IsValid cb [] v = v
  run-IsValid cb (call ∷ calls) v = run-IsValid (step fl cb call) calls (step-IsValid cb call v)

  -- Whatever is called on a new breaker of a threshold of one or more, in any order and at any times:
  -- the failures counted stay below the threshold and no more than all blocks, and the cooldown is at
  -- most the delay of the fifth block.
  pub run-init-IsValid :
      (threshold : ℕ) (calls : List (Call fl))
      → 1 ≤ threshold
      → IsValid (run fl (init fl threshold) calls)
  run-init-IsValid threshold calls h = run-IsValid _ calls (init-IsValid threshold h)

-- ===== src/Simulation/Delay.antt =====
-- The delays that the threads of simulation.py sleep: what divides by `self.speed`, and `time.sleep`,
-- which refuses a negative time. How long a thread then sleeps is left open.
use scrape_grid.Prelude.{ℕ, ◌≡◌, refl, Bool, false, true, ◌&&◌, arith, if◌then◌else◌}
use scrape_grid.Result.{Result, ok, err, value_error, zero_division_error, ◌>>=◌}
use scrape_grid.Floats.{FloatOps, lt, fmin}

module _ (fl : FloatOps) where
  open fl use {Float, zero, of_ℕ, div, le}

  -- `a / b`
  unfoldable pub quotient : (a b : Float) → Result Float
  quotient a b = if le b zero && le zero b then err zero_division_error else ok (div a b)

  -- `time.sleep(t)`
  unfoldable pub time_sleep : (t : Float) → Result Float
  time_sleep t = if lt fl t zero then err value_error else ok t

  -- The wait for a page: `time.sleep(min(latency_ms / 1000.0 / self.speed, longest))`.
  unfoldable pub wait_page : (latency_ms : ℕ) (speed longest : Float) → Result Float
  unfolding quotient time_sleep
  wait_page latency_ms speed longest = do
    seconds ← quotient (of_ℕ latency_ms) (of_ℕ 1000)
    sleep ← quotient seconds speed
    time_sleep (fmin fl sleep longest)

  quotient_lem : (a b : Float) → le b zero ≡ false → quotient a b ≡ ok (div a b)
  unfolding quotient
  quotient_lem a b h = rw h refl

  nonneg_either :
      (a b : Float) (c : Bool)
      → le zero a ≡ true
      → le zero b ≡ true
      → le zero (if c then a else b) ≡ true
  nonneg_either a b true h k = h
  nonneg_either a b false h k = k

  time_sleep_lem : (t : Float) → le zero t ≡ true → time_sleep t ≡ ok t
  unfolding time_sleep
  time_sleep_lem t h = rw h refl

  -- At a speed above zero, and up to a longest time that is none below it, the wait succeeds.
  pub wait_page_lem :
      (latency_ms : ℕ) (speed longest : Float)
      → le speed zero ≡ false
      → le zero longest ≡ true
      → (t : Float) × (wait_page latency_ms speed longest ≡ ok t)
  unfolding wait_page
  wait_page_lem latency_ms speed longest h k =
      let seconds = div (of_ℕ latency_ms) (of_ℕ 1000) in
      let sleep = div seconds speed in
      let positive = fl.of_ℕ_pos 1000 (omega arith) in
      let some_time =
        fl.div_nonneg seconds speed
          (fl.div_nonneg (of_ℕ latency_ms) (of_ℕ 1000) (fl.of_ℕ_nonneg latency_ms) positive) h in
      let least = nonneg_either longest sleep (lt fl longest sleep) k some_time in
      (
        fmin fl sleep longest,
        rw (quotient_lem (of_ℕ latency_ms) (of_ℕ 1000) positive, quotient_lem seconds speed h)
            (time_sleep_lem (fmin fl sleep longest) least),
      )

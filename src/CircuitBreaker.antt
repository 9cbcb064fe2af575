-- ===== src/CircuitBreaker.antt =====
-- algorithms/circuit_breaker.py: `CircuitBreaker`. `now` is the reading of the wall clock that a
-- method takes.
pub mod Transitions
pub mod Cooldown
mod Examples
use scrape_grid.Prelude.{ℕ, ◌+◌, ◌^◌, min, Bool, true, false, List, [], ◌∷◌, leb, if◌then◌else◌}
use scrape_grid.Floats.{FloatOps, fmax}

pub data State : Type 0 where
  closed opened half_open : State

module _ (fl : FloatOps) where
  open fl use {Float, zero, sub, mul, le, of_ℕ, literal}

  -- BASE_DELAY
  abbrev pub base_delay : Float
  base_delay = literal 5 10

  pub record CircuitBreaker : Type 0 where
    pub failure_threshold : ℕ
    pub state : State
    pub failure_count : ℕ
    pub block_count : ℕ
    pub open_since : Float
    pub cooldown : Float

  unfoldable pub init : ℕ → CircuitBreaker
  init failure_threshold = record {
    failure_threshold = failure_threshold;
    state = closed;
    failure_count = 0;
    block_count = 0;
    open_since = zero;
    cooldown = zero;
  }

  -- `allow_request` in state `s`.
  unfoldable pub allow_in : State → CircuitBreaker → Float → Bool × CircuitBreaker
  allow_in closed cb now = (true, cb)
  allow_in opened cb now =
      if le cb.cooldown (sub now cb.open_since)
      then (true, record cb { state = half_open })
      else (false, cb)
  allow_in half_open cb now = (true, cb)

  unfoldable pub allow_request : CircuitBreaker → Float → Bool × CircuitBreaker
  unfolding allow_in
  allow_request cb now = allow_in cb.state cb now

  -- The state after `record_success` in state `s`.
  unfoldable pub after_success : State → State
  after_success half_open = closed
  after_success closed = closed
  after_success opened = opened

  unfoldable pub record_success : CircuitBreaker → CircuitBreaker
  unfolding after_success
  record_success cb = record cb { failure_count = 0; state = after_success cb.state }

  -- `_open`
  unfoldable pub trip : CircuitBreaker → Float → CircuitBreaker
  trip cb now = record cb {
    state = opened;
    failure_count = 0;
    cooldown = mul (of_ℕ (2 ^ min cb.block_count 5)) base_delay;
    open_since = now;
  }

  unfoldable pub record_failure : CircuitBreaker → Float → CircuitBreaker
  unfolding trip
  record_failure cb now =
      let cb' = record cb {
        failure_count = cb.failure_count + 1;
        block_count = cb.block_count + 1;
      } in
      if leb cb'.failure_threshold cb'.failure_count then trip cb' now else cb'

  -- The state after `probe` in state `s`.
  unfoldable pub after_probe : State → State
  after_probe opened = half_open
  after_probe closed = closed
  after_probe half_open = half_open

  unfoldable pub probe : CircuitBreaker → CircuitBreaker
  unfolding after_probe
  probe cb = record cb { state = after_probe cb.state }

  unfoldable pub remaining_in : State → CircuitBreaker → Float → Float
  remaining_in closed cb now = zero
  remaining_in half_open cb now = zero
  remaining_in opened cb now = fmax fl zero (sub cb.cooldown (sub now cb.open_since))

  unfoldable pub cooldown_remaining : CircuitBreaker → Float → Float
  unfolding remaining_in
  cooldown_remaining cb now = remaining_in cb.state cb now

  unfoldable pub total_blocks : CircuitBreaker → ℕ
  total_blocks cb = cb.block_count

  -- A call of a method that changes the state, with the clock reading it takes.
  pub data Call : Type 0 where
    allows : Float → Call
    succeeds : Call
    fails : Float → Call
    probes : Call

  unfoldable pub step : CircuitBreaker → Call → CircuitBreaker
  unfolding allow_request record_success record_failure probe
  step cb (allows now) = (allow_request cb now).1
  step cb succeeds = record_success cb
  step cb (fails now) = record_failure cb now
  step cb probes = probe cb

  unfoldable pub run : CircuitBreaker → List Call → CircuitBreaker
  run cb [] = cb
  run cb (call ∷ calls) = run (step cb call) calls

-- ===== src/TokenBucket.antt =====
-- algorithms/token_bucket.py: `TokenBucket`. Each method runs under the bucket's lock, and reads
-- the wall clock once; the reading is an argument, `now`.
pub mod Bounds
mod Examples
use scrape_grid.Prelude.{ℕ, ◌+◌, Bool, true, false, ◌&&◌, if◌then◌else◌}
use scrape_grid.Result.{Result, ok, err, zero_division_error}
use scrape_grid.Floats.{FloatOps, fmin}

module _ (fl : FloatOps) where
  open fl use {Float, zero, add, sub, mul, div, le}

  pub record TokenBucket : Type 0 where
    pub rate : Float
    pub capacity : Float
    pub tokens : Float
    pub last_refill : Float
    pub total_consumed : ℕ
    pub total_rejected : ℕ

  unfoldable pub init : (rate capacity now : Float) → TokenBucket
  init rate capacity now = record {
    rate = rate;
    capacity = capacity;
    tokens = capacity;
    last_refill = now;
    total_consumed = 0;
    total_rejected = 0;
  }

  unfoldable pub refill : TokenBucket → Float → TokenBucket
  refill b now =
      let elapsed = sub now b.last_refill in
      let added = mul elapsed b.rate in
      record b { tokens = fmin fl b.capacity (add b.tokens added); last_refill = now }

  -- The part of `consume` after the refill.
  unfoldable pub take : TokenBucket → Float → Bool × TokenBucket
  take b n =
      if le n b.tokens
      then (true, record b { tokens = sub b.tokens n; total_consumed = b.total_consumed + 1 })
      else (false, record b { total_rejected = b.total_rejected + 1 })

  unfoldable pub consume : TokenBucket → (now tokens : Float) → Bool × TokenBucket
  unfolding refill take
  consume b now n = take (refill b now) n

  -- `==` on floats
  abbrev equals : Float → Float → Bool
  equals a b = le a b && le b a

  unfoldable pub fill_level : TokenBucket → Float → Result Float × TokenBucket
  unfolding refill
  fill_level b now =
      let b' = refill b now in
      (
        if equals b'.capacity zero then err zero_division_error else ok (div b'.tokens b'.capacity),
        b',
      )

  unfoldable pub available : TokenBucket → Float → Float × TokenBucket
  unfolding refill
  available b now = let b' = refill b now in (b'.tokens, b')

-- ===== src/TokenBucket/Examples.antt =====
-- The bucket on numbers with three decimals.
use scrape_grid.Prelude.{◌+◌, ◌≡◌, refl}
use scrape_grid.Prelude.Int.{pos, ◌+ℤ◌, ◌-ℤ◌}
use scrape_grid.Result.{ok, err, zero_division_error}
use scrape_grid.Floats.Fixed.{fixed, mul, div}
use scrape_grid.TokenBucket.{TokenBucket, init, consume, fill_level}
use scrape_grid.TokenBucket.Bounds.{IsValid, consume-IsValid}

-- Ten tokens a second, room for two, created at second 1.
abbrev bucket : TokenBucket fixed
bucket = record {
  rate = pos 10000;
  capacity = pos 2000;
  tokens = pos 2000;
  last_refill = pos 1000;
  total_consumed = 0;
  total_rejected = 0;
}

bucket-IsValid : IsValid fixed bucket
bucket-IsValid = record {
  rate_nonneg = refl;
  capacity_nonneg = refl;
  tokens_nonneg = refl;
  tokens_le = refl;
}

init-bucket : init fixed (pos 10000) (pos 2000) (pos 1000) ≡ bucket
unfolding init
init-bucket = refl

half_full : (fill_level fixed (record bucket { tokens = pos 1000 }) (pos 1000)).0 ≡ ok (pos 500)
unfolding fill_level mul div ◌+ℤ◌ ◌-ℤ◌
half_full = refl

no_capacity :
    (fill_level fixed (record bucket { capacity = pos 0 }) (pos 1000)).0 ≡ err zero_division_error
unfolding fill_level mul div ◌+ℤ◌ ◌-ℤ◌
no_capacity = refl

consume-IsValid_example :
    IsValid fixed (consume fixed bucket (pos 1500) (pos 1000)).1
    × ((consume fixed bucket (pos 1500) (pos 1000)).1.rate ≡ pos 10000)
    × ((consume fixed bucket (pos 1500) (pos 1000)).1.capacity ≡ pos 2000)
    × ((consume fixed bucket (pos 1500) (pos 1000)).1.last_refill ≡ pos 1500)
    × ((consume fixed bucket (pos 1500) (pos 1000)).1.total_consumed
          + (consume fixed bucket (pos 1500) (pos 1000)).1.total_rejected
        ≡ 0 + 0 + 1)
consume-IsValid_example =
    consume-IsValid fixed bucket (pos 1500) (pos 1000) bucket-IsValid refl refl

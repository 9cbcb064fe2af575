-- ===== src/TokenBucket/Bounds.antt =====
-- The token count over a call of `consume`, and what the call answers.
use scrape_grid.Prelude.{◌+◌, ◌≡◌, refl, true, ◌↔◌, arith, if◌then◌else◌, Bool-cases, inl, inr}
use scrape_grid.Floats.{FloatOps, fmin}
use scrape_grid.TokenBucket.{TokenBucket, init, refill, consume, available}

module _ (fl : FloatOps) where
  open fl use {
    Float, zero, add, sub, mul, le, le_refl, le_trans, le_total, le-add_right, sub_nonneg, sub-le,
    mul_nonneg,
  }

  pub record IsValid (b : TokenBucket fl) : Type 0 where
    pub rate_nonneg : le zero b.rate ≡ true
    pub capacity_nonneg : le zero b.capacity ≡ true
    pub tokens_nonneg : le zero b.tokens ≡ true
    pub tokens_le : le b.tokens b.capacity ≡ true

  pub init-IsValid :
      (rate capacity now : Float)
      → le zero rate ≡ true
      → le zero capacity ≡ true
      → IsValid (init fl rate capacity now)
  unfolding init
  init-IsValid rate capacity now r c = record {
    rate_nonneg = r;
    capacity_nonneg = c;
    tokens_nonneg = c;
    tokens_le = le_refl capacity;
  }

  fmin_left : (a b : Float) → le (fmin fl a b) a ≡ true
  fmin_left a b = ground (arith, le_refl a, le_total a b)

  fmin_nonneg : (a b : Float) → le zero a ≡ true → le zero b ≡ true → le zero (fmin fl a b) ≡ true
  fmin_nonneg a b h k = ground arith

  -- A refill never lifts the count above the capacity, even if the clock was set back.
  pub refill_le_capacity :
      (b : TokenBucket fl) (now : Float) → le (refill fl b now).tokens b.capacity ≡ true
  unfolding refill
  refill_le_capacity b now = fmin_left _ _

  pub refill-IsValid :
      (b : TokenBucket fl) (now : Float)
      → IsValid b
      → le b.last_refill now ≡ true
      → IsValid (refill fl b now)
  unfolding refill
  refill-IsValid b now v later =
      let added_nonneg = mul_nonneg _ _ (sub_nonneg now b.last_refill later) v.rate_nonneg in
      record {
        rate_nonneg = v.rate_nonneg;
        capacity_nonneg = v.capacity_nonneg;
        tokens_nonneg =
            fmin_nonneg _ _ v.capacity_nonneg
              (le_trans _ _ _ v.tokens_nonneg (le-add_right b.tokens _ added_nonneg));
        tokens_le = fmin_left _ _;
      }

  -- Every call of `consume` with a clock that did not run back and a demand that is not negative
  -- keeps the count between zero and the capacity, leaves rate and capacity alone, and is counted
  -- once, as consumed or as rejected.
  pub consume-IsValid :
      (b : TokenBucket fl) (now n : Float)
      → IsValid b
      → le b.last_refill now ≡ true
      → le zero n ≡ true
      → IsValid (consume fl b now n).1
        × ((consume fl b now n).1.rate ≡ b.rate)
        × ((consume fl b now n).1.capacity ≡ b.capacity)
        × ((consume fl b now n).1.last_refill ≡ now)
        × ((consume fl b now n).1.total_consumed + (consume fl b now n).1.total_rejected
            ≡ b.total_consumed + b.total_rejected + 1)
  unfolding consume
  consume-IsValid b now n v later pos =
      let r = refill fl b now in
      let vr = refill-IsValid b now v later in
      elim (Bool-cases (le n r.tokens)) [
        | inl enough ↦ rw enough (
          record {
            rate_nonneg = vr.rate_nonneg;
            capacity_nonneg = vr.capacity_nonneg;
            tokens_nonneg = sub_nonneg _ _ enough;
            tokens_le = le_trans _ _ _ (sub-le r.tokens n pos) vr.tokens_le;
          },
          refl,
          refl,
          refl,
          omega arith,
        )
        | inr short ↦ rw short (
          record {
            rate_nonneg = vr.rate_nonneg;
            capacity_nonneg = vr.capacity_nonneg;
            tokens_nonneg = vr.tokens_nonneg;
            tokens_le = vr.tokens_le;
          },
          refl,
          refl,
          refl,
          omega arith,
        )
      ]

  -- `consume` succeeds exactly when the refilled bucket holds the demand; it then takes just that,
  -- and a refused call takes nothing.
  pub consume_iff :
      (b : TokenBucket fl) (now n : Float)
      → (((consume fl b now n).0 ≡ true) ↔ (le n (available fl b now).0 ≡ true))
        × ((consume fl b now n).1.tokens ≡ (
            if (consume fl b now n).0
            then sub (available fl b now).0 n
            else (available fl b now).0))
  unfolding consume available
  consume_iff b now n = elim (Bool-cases (le n (refill fl b now).tokens)) [
    | inl enough ↦ rw enough ((λ _. refl, λ _. refl), refl)
    | inr short ↦ rw short ((λ e. e, λ e. e), refl)
  ]

-- ===== src/CircuitBreaker/Transitions.antt =====
-- The state machine: which calls move the breaker from which state, and what `allow_request` says.
use scrape_grid.Prelude.{
  ◌+◌, ◌≤◌, ◌≡◌, refl, ◌≢◌, ◌↔◌, ◌⊎◌, inr, Bool, true, false, arith, all, ap, ◌∙◌, List, [], ◌∷◌,
  not,
}
use scrape_grid.Floats.{FloatOps}
use scrape_grid.CircuitBreaker.{
  closed, opened, half_open, CircuitBreaker, allow_request, Call, allows, succeeds, fails, probes,
  step, run,
}

module _ (fl : FloatOps) where
  open fl use {Float, sub, le}

  -- The cooldown has passed.
  abbrev pub cooled : CircuitBreaker fl → Float → Bool
  cooled cb now = le cb.cooldown (sub now cb.open_since)

  -- A request is refused exactly while the circuit is open and its cooldown has not passed. An
  -- allowed request leaves an open circuit half open; in the other states, and when refused, nothing
  -- changes.
  pub allow_request_iff :
      (cb : CircuitBreaker fl) (now : Float)
      → (((allow_request fl cb now).0 ≡ false) ↔ ((cb.state ≡ opened) × (cooled cb now ≡ false)))
        × (cb.state ≡ opened
            → cooled cb now ≡ true
            → (allow_request fl cb now).1 ≡ record cb { state = half_open })
        × (((cb.state ≢ opened) ⊎ (cooled cb now ≡ false)) → (allow_request fl cb now).1 ≡ cb)
  unfolding allow_request
  allow_request_iff cb now = ((ground arith, ground arith), λ e c. ground arith, λ h. ground arith)

  -- What each change of state needs: the circuit opens only by a failure that reaches the
  -- threshold; it becomes half open only from open, by a probe or by a request after the cooldown;
  -- and it closes only from half open, by a success.
  pub step_causes :
      (cb : CircuitBreaker fl) (call : Call fl)
      → (cb.state ≢ opened
          → (step fl cb call).state ≡ opened
          → ((now : Float) × (call ≡ fails now)) × (cb.failure_threshold ≤ cb.failure_count + 1))
        × (cb.state ≢ half_open
            → (step fl cb call).state ≡ half_open
            → (cb.state ≡ opened)
              × ((call ≡ probes) ⊎ ((now : Float) × (call ≡ allows now) × (cooled cb now ≡ true))))
        × (cb.state ≢ closed
            → (step fl cb call).state ≡ closed
            → (cb.state ≡ half_open) × (call ≡ succeeds))
  unfolding step
  step_causes cb (allows now) = (
    λ n e. absurd (ground arith),
    λ n e. (ground arith, inr (now, refl, ground arith)),
    λ n e. ground arith,
  )
  step_causes cb succeeds = (λ n e. ground arith, λ n e. ground arith, λ n e. ground arith)
  step_causes cb (fails now) =
      (λ n e. ((now, refl), ground arith), λ n e. ground arith, λ n e. ground arith)
  step_causes cb probes = (λ n e. ground arith, λ n e. ground arith, λ n e. ground arith)

  -- The answers that `allow_request` gives in a run.
  unfoldable pub answers : CircuitBreaker fl → List (Call fl) → List Bool
  answers cb [] = []
  answers cb (allows now ∷ calls) = let (a, cb') = allow_request fl cb now in a ∷ answers cb' calls
  answers cb (succeeds ∷ calls) = answers (step fl cb succeeds) calls
  answers cb (fails now ∷ calls) = answers (step fl cb (fails now)) calls
  answers cb (probes ∷ calls) = answers (step fl cb probes) calls

  -- Requests before the cooldown has passed, and late successes of earlier requests.
  abbrev pub Quiet : (cooldown open_since : Float) → List (Call fl) → Type 0
  Quiet c t [] = Unit {0}
  Quiet c t (allows now ∷ calls) = (le c (sub now t) ≡ false) × Quiet c t calls
  Quiet c t (succeeds ∷ calls) = Quiet c t calls
  Quiet c t (fails now ∷ calls) = ⊥
  Quiet c t (probes ∷ calls) = ⊥

  refused :
      (cb : CircuitBreaker fl) (now : Float)
      → cb.state ≡ opened
      → cooled cb now ≡ false
      → allow_request fl cb now ≡ (false, cb)
  unfolding allow_request
  refused cb now o early = ground arith

  quiet_step :
      (cb : CircuitBreaker fl) (now : Float)
      → cb.state ≡ opened
      → cooled cb now ≡ false
      → step fl cb (allows now) ≡ cb
  unfolding step
  quiet_step cb now o early = ground arith

  succeeds-opened :
      (cb : CircuitBreaker fl) → cb.state ≡ opened → (step fl cb succeeds).state ≡ opened
  unfolding step
  succeeds-opened cb o = ground arith

  succeeds-Quiet :
      (cb : CircuitBreaker fl) (calls : List (Call fl))
      → Quiet cb.cooldown cb.open_since calls
      → Quiet (step fl cb succeeds).cooldown (step fl cb succeeds).open_since calls
  unfolding step
  succeeds-Quiet cb calls q = q

  -- An open circuit refuses every request until its cooldown has passed, and stays open, also if
  -- earlier requests still report success in the meantime.
  pub opened-refuses :
      (cb : CircuitBreaker fl) (calls : List (Call fl))
      → cb.state ≡ opened
      → Quiet cb.cooldown cb.open_since calls
      → (all not (answers cb calls) ≡ true) × ((run fl cb calls).state ≡ opened)
  unfolding answers run
  opened-refuses cb [] o q = (refl, o)
  opened-refuses cb (allows now ∷ calls) o (early, q) =
      let (refuses, stays) = opened-refuses cb calls o q in
      let same = ap (λ c. (run fl c calls).state) (quiet_step cb now o early) in
      (rw (refused cb now o early) refuses, same ∙ stays)
  opened-refuses cb (succeeds ∷ calls) o q =
      opened-refuses (step fl cb succeeds) calls (succeeds-opened cb o) (succeeds-Quiet cb calls q)
  opened-refuses cb (fails now ∷ calls) o q = absurd q
  opened-refuses cb (probes ∷ calls) o q = absurd q

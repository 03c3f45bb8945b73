-- ===== src/Resilience/Breaker/Invariant.antt =====
-- The fields of a circuit breaker agree with its state, after every sequence of calls.
use krab_pub.Common.{ℕ, ◌≤◌, ◌<◌, max, ◌≡◌, Bool, true, false, List, [], ◌∷◌, none, is_some, arith}
use krab_pub.Resilience.Breaker.{
  F64, CircuitState, closed, opened, half_open, TripPolicy, consecutive_failures, failure_rate,
  CircuitBreakerConfig, CircuitBreaker, from_config, allow_request, record_success, record_failure,
  Event, asks, succeeds, fails, step, run,
}

module _ (f : F64) where
  -- Below the limit of a consecutive-failure policy; a limit of 0 acts as 1.
  abbrev pub Untripped : TripPolicy f → ℕ → Type 0
  Untripped (consecutive_failures failure_threshold) count = count < max failure_threshold 1
  Untripped (failure_rate threshold window_secs min_samples) count = Unit {0}

  abbrev pub HasWindow : TripPolicy f → Bool → Type 0
  HasWindow (consecutive_failures failure_threshold) present = present ≡ false
  HasWindow (failure_rate threshold window_secs min_samples) present = present ≡ true

  abbrev pub InState : CircuitState → CircuitBreaker f → Type 0
  InState closed c =
      (c.opened_at ≡ none)
      × (c.half_open_probes ≡ 0)
      × Untripped c.trip_policy c.consecutive_failures
  InState opened c = (is_some c.opened_at ≡ true) × (c.half_open_probes ≡ 0)
  InState half_open c =
      (is_some c.opened_at ≡ true)
      × (1 ≤ c.half_open_probes)
      × (c.half_open_probes ≤ max c.half_open_max_probes 1)

  pub record IsCoherent (c : CircuitBreaker f) : Type 0 where
    pub in_state : InState c.state c
    pub has_window : HasWindow c.trip_policy (is_some c.window)

  from_config-IsCoherent : (config : CircuitBreakerConfig f) → IsCoherent (from_config f config)
  unfolding from_config
  from_config-IsCoherent config = go config.trip_policy
    where
      go : (p : TripPolicy f) → IsCoherent (from_config f (record config { trip_policy = p }))
      go (consecutive_failures n) = ground arith
      go (failure_rate t w m) = ground arith

  allow_request-IsCoherent :
      (c : CircuitBreaker f) (now : ℕ) → IsCoherent c → IsCoherent (allow_request f c now).0
  unfolding allow_request
  allow_request-IsCoherent c now v = ground arith

  record_success-IsCoherent :
      (c : CircuitBreaker f) (now : ℕ) → IsCoherent c → IsCoherent (record_success f c now)
  unfolding record_success
  record_success-IsCoherent c now v = ground arith

  record_failure-IsCoherent :
      (c : CircuitBreaker f) (now : ℕ) → IsCoherent c → IsCoherent (record_failure f c now)
  unfolding record_failure
  record_failure-IsCoherent c now v = ground arith

  step-IsCoherent : (c : CircuitBreaker f) (e : Event f) → IsCoherent c → IsCoherent (step f c e).0
  unfolding step
  step-IsCoherent c (asks now) v = allow_request-IsCoherent c now v
  step-IsCoherent c (succeeds now) v = record_success-IsCoherent c now v
  step-IsCoherent c (fails now) v = record_failure-IsCoherent c now v

  run-IsCoherent :
      (c : CircuitBreaker f) (es : List (Event f)) → IsCoherent c → IsCoherent (run f c es).0
  unfolding run
  run-IsCoherent c [] v = v
  run-IsCoherent c (e ∷ es) v = run-IsCoherent (step f c e).0 es (step-IsCoherent c e v)

  -- After any sequence of calls on a breaker built from a configuration: the opening time is known
  -- exactly when the breaker is not closed, probes are counted only when half-open and never
  -- exceed the larger of their limit and one, a closed breaker with a consecutive-failure policy
  -- is below its limit, and the rate window is there exactly for a failure-rate policy.
  pub run-from_config-IsCoherent :
      (config : CircuitBreakerConfig f) (es : List (Event f))
      → IsCoherent (run f (from_config f config) es).0
  run-from_config-IsCoherent config es =
      run-IsCoherent (from_config f config) es (from_config-IsCoherent config)

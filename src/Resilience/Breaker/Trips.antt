-- ===== src/Resilience/Breaker/Trips.antt =====
-- When a circuit breaker opens, and what closing it resets.
use krab_pub.Common.{
  ℕ, ◌+◌, ◌≤◌, ◌<◌, max, ◌≡◌, ◌≢◌, ◌↔◌, ◌⊎◌, inl, inr, Bool, refl, true, false, List, [], ◌∷◌, map,
  Option, none, some, arith, if◌then◌else◌, length, ltb,
}
use krab_pub.Resilience.Window.{RateWindow, u32_max}
use krab_pub.Resilience.Window.Counts.{
  Log, Ordered, replay, first_or, recent, totals-replay, totals_window, recent_self, reset-replay,
}
use krab_pub.Resilience.Window.{seconds_since}
use krab_pub.Resilience.Breaker.{
  F64, closed, opened, TripPolicy, consecutive_failures, failure_rate, CircuitBreakerConfig,
  CircuitBreaker, from_config, record_success, record_failure, fails, step, run, rate_reached,
  reset_in, window_for,
}

module _ (f : F64) where
  -- The window that a policy asks for, after the samples of `log`.
  abbrev pub WindowOf : TripPolicy f → Log → Option RateWindow → Type 0
  WindowOf (consecutive_failures failure_threshold) log window = window ≡ none
  WindowOf (failure_rate threshold window_secs min_samples) log window =
      window ≡ some (replay window_secs log)

  opened_stays :
      (c : CircuitBreaker f) (times : List ℕ)
      → c.state ≡ opened
      → (run f c (map fails times)).0.state ≡ opened
  unfolding run step record_failure
  opened_stays c [] o = o
  opened_stays c (now ∷ times) o = opened_stays (record_failure f c now) times (ground arith)

  -- Failures in a row, with a limit of `limit` consecutive failures and `count` of them already
  -- counted: a closed breaker is open after them exactly when they reach the limit.
  pub run_failures :
      (c : CircuitBreaker f) (limit count : ℕ) (times : List ℕ)
      → c.state ≡ closed
      → c.trip_policy ≡ consecutive_failures limit
      → c.consecutive_failures ≡ count
      → count < limit
      → limit ≤ u32_max
      → (run f c (map fails times)).0.state
        ≡ (if ltb (count + length times) limit then closed else opened)
  unfolding run step record_failure
  run_failures c limit count [] s p n h k = ground arith
  run_failures c limit count (now ∷ times) s p n h k = ground (
    arith,
    run_failures (record_failure f c now) limit (count + 1) times,
    opened_stays (record_failure f c now) times,
  )

  -- The share of failures among some samples reaches the threshold, and there are enough samples.
  abbrev pub ReachesRate : f.Float → ℕ → ℕ → ℕ → Type 0
  ReachesRate threshold min_samples successes failures =
      (min_samples ≤ successes + failures)
      × (f.ge (f.div (f.of_u64 failures) (f.of_u64 (successes + failures))) threshold ≡ true)

  rate_reached_iff :
      (threshold : f.Float) (min_samples successes failures : ℕ)
      → 0 < failures
      → (rate_reached f threshold min_samples successes failures ≡ true)
        ↔ ReachesRate threshold min_samples successes failures
  unfolding rate_reached
  rate_reached_iff threshold min_samples successes failures some_failed =
      (λ h. (ground arith, ground arith), λ h. ground arith)

  record_failure_rate :
      (c : CircuitBreaker f) (threshold : f.Float) (window_secs min_samples now : ℕ) (log : Log)
      → c.state ≡ closed
      → c.trip_policy ≡ failure_rate threshold window_secs min_samples
      → c.window ≡ some (replay window_secs log)
      → Ordered now log
      → length log < u32_max
      → let log' = (now, false) ∷ log in
        let epoch = first_or now log' in
        let current = seconds_since epoch now in
        ((record_failure f c now).state ≡ (
          if rate_reached f threshold min_samples
            (recent true (max window_secs 1) epoch current log')
            (recent false (max window_secs 1) epoch current log')
          then opened
          else closed))
        × ((record_failure f c now).window ≡ some (replay window_secs log'))
  unfolding record_failure replay
  record_failure_rate c threshold window_secs min_samples now log s p w o h =
      let exact =
        totals-replay window_secs now ((now, false) ∷ log) (omega arith, o) (omega arith) in
      (ground (arith, exact), ground (arith, totals_window window_secs now now false log))

  opened_iff :
      {A : Type 0} (b : Bool) → ((b ≡ true) ↔ A) → ((if b then opened else closed) ≡ opened) ↔ A
  opened_iff true g = (λ h. g.0 refl, λ a. refl)
  opened_iff false g = (λ h. absurd (ground arith), λ a. absurd (ground (arith, g.1 a)))

  opened_or_closed :
      (b : Bool)
      → ((if b then opened else closed) ≡ opened) ⊎ ((if b then opened else closed) ≡ closed)
  opened_or_closed true = inl refl
  opened_or_closed false = inr refl

  -- Under a failure-rate policy, a failure is reported to a closed breaker whose window has recorded
  -- a log of fewer than 2^32 - 1 samples, none of them later than now or than the next one. The
  -- window then has recorded the failure too, and the breaker is open exactly when the samples of
  -- the last `window_secs` seconds (at least one), this one included, reach their minimum and the
  -- share of failures among them reaches the threshold; else it is still closed.
  pub record_failure-rate :
      (c : CircuitBreaker f) (threshold : f.Float) (window_secs min_samples now : ℕ) (log : Log)
      → c.state ≡ closed
      → c.trip_policy ≡ failure_rate threshold window_secs min_samples
      → c.window ≡ some (replay window_secs log)
      → Ordered now log
      → length log < u32_max
      → let log' = (now, false) ∷ log in
        let epoch = first_or now log' in
        let current = seconds_since epoch now in
        let successes = recent true (max window_secs 1) epoch current log' in
        let failures = recent false (max window_secs 1) epoch current log' in
        let c' = record_failure f c now in
        ((c'.state ≡ opened) ↔ ReachesRate threshold min_samples successes failures)
        × ((c'.state ≡ opened) ⊎ (c'.state ≡ closed))
        × (c'.window ≡ some (replay window_secs log'))
  record_failure-rate c threshold window_secs min_samples now log s p w o h =
      let (state, window) =
        record_failure_rate c threshold window_secs min_samples now log s p w o h in
      rw state
        (opened_iff _ (rate_reached_iff threshold min_samples _ _ seen), opened_or_closed _, window)
    where
      seen :
          0
          < recent false
              (max window_secs 1)
              (first_or now ((now, false) ∷ log))
              (seconds_since (first_or now ((now, false) ∷ log)) now)
              ((now, false) ∷ log)
      seen =
          recent_self false (max window_secs 1) (first_or now ((now, false) ∷ log)) now log
            (omega arith)

  reset_in-window_for :
      (p : TripPolicy f) (log : Log) (w : Option RateWindow) (before : ℕ)
      → Ordered before log
      → WindowOf p log w
      → reset_in f w ≡ window_for f p
  unfolding reset_in window_for
  reset_in-window_for (consecutive_failures n) log w before o h = ground arith
  reset_in-window_for (failure_rate t window_secs m) log w before o h =
      ground (arith, reset-replay window_secs before log o)

  -- A success reported to an open or half-open breaker leaves it as it was when it was built from
  -- its configuration, under a failure-rate policy too.
  pub record_success-from_config :
      (config : CircuitBreakerConfig f) (c : CircuitBreaker f) (now before : ℕ) (log : Log)
      → c.state ≢ closed
      → c.open_cooldown ≡ config.open_cooldown
      → c.half_open_max_probes ≡ config.half_open_max_probes
      → c.trip_policy ≡ config.trip_policy
      → WindowOf config.trip_policy log c.window
      → Ordered before log
      → record_success f c now ≡ from_config f config
  unfolding record_success from_config
  record_success-from_config config c now before log s e h p w o =
      ground (arith, reset_in-window_for config.trip_policy log c.window before o)

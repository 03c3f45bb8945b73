-- ===== src/Tests/Breaker.antt =====
-- The circuit breaker at fixed inputs. Failure rates are fractions, compared by cross products.
use krab_pub.Common.{ℕ, ◌*◌, ◌≡◌, ◌↔◌, ◌⊎◌, refl, true, false, [], ◌∷◌, map, none, some, arith, leb}
use krab_pub.Resilience.Window.{new, totals, nanos_per_sec}
use krab_pub.Resilience.Window
use krab_pub.Resilience.Window.Counts.{replay, totals-replay, Log}
use krab_pub.Resilience.Breaker.{
  F64, allow_request, closed, opened, half_open, consecutive_failures, failure_rate,
  CircuitBreakerConfig, CircuitBreaker, from_config, new_breaker, asks, succeeds, fails, step, run,
  record_failure, record_success, rate_reached,
}
use krab_pub.Resilience.Breaker.Invariant.{IsCoherent, run-from_config-IsCoherent}
use krab_pub.Resilience.Breaker.Admission.{run_early, run_half_open, run_cooled}
use krab_pub.Resilience.Breaker.Trips.{
  run_failures, ReachesRate, record_failure-rate, record_success-from_config,
}

abbrev fraction : F64
fraction = record {
  Float = ℕ × ℕ;
  of_u64 = λ n. (n, 1);
  div = λ a b. (a.0 * b.1, a.1 * b.0);
  ge = λ a b. leb (b.0 * a.1) (a.0 * b.1);
}

abbrev half : F64.Float fraction
half = (1, 2)

abbrev rate_config : CircuitBreakerConfig fraction
rate_config = record {
  open_cooldown = 2 * nanos_per_sec;
  half_open_max_probes = 1;
  trip_policy = failure_rate half 10 4;
}

program : Unit {0}
unfolding new_breaker from_config run step allow_request record_success record_failure rate_reached
    Window.new Window.record_sample Window.totals replay
program = tt

abbrev sec : ℕ → ℕ
sec n = n * nanos_per_sec

-- resilience.rs, `failure_rate_trips_at_threshold_with_min_samples`
rate_trips_test :
    (run fraction
      (from_config fraction rate_config)
      (succeeds 0 ∷ succeeds 0 ∷ fails 0 ∷ fails 0 ∷ [])).0.state
    ≡ opened
unfolding program
rate_trips_test = refl

-- resilience.rs, `half_open_allows_limited_probes`
probes_test :
    (run fraction
      (new_breaker fraction 1 (sec 2) 2)
      (fails 0 ∷ asks (sec 1) ∷ asks (sec 2) ∷ asks (sec 2) ∷ asks (sec 2) ∷ [])).1
    ≡ 2
unfolding program
probes_test = refl

-- A limit of no probes still admits the one that ends the cooldown.
no_probes_test :
    (run fraction (new_breaker fraction 1 (sec 2) 0) (fails 0 ∷ asks (sec 2) ∷ asks (sec 2) ∷ [])).1
    ≡ 1
unfolding program
no_probes_test = refl

abbrev samples : Log
samples = (sec 6, false) ∷ (sec 5, true) ∷ (sec 5, true) ∷ (sec 1, false) ∷ (0, false) ∷ []

totals-replay_example :
    ((totals (replay 3 samples) (sec 6)).1 ≡ 2) × ((totals (replay 3 samples) (sec 6)).2 ≡ 1)
unfolding program
totals-replay_example = totals-replay 3 (sec 6) samples (omega arith) (omega arith)

run-from_config-IsCoherent_example :
    IsCoherent fraction
      (run fraction (from_config fraction rate_config) (fails 0 ∷ fails 1 ∷ asks 2 ∷ [])).0
run-from_config-IsCoherent_example =
    run-from_config-IsCoherent fraction rate_config (fails 0 ∷ fails 1 ∷ asks 2 ∷ [])

abbrev tripped : CircuitBreaker fraction
tripped = record {
  open_cooldown = sec 2;
  half_open_max_probes = 2;
  trip_policy = consecutive_failures 1;
  state = opened;
  consecutive_failures = 1;
  opened_at = some 0;
  half_open_probes = 0;
  window = none;
}

run_early_example : (run fraction tripped (asks 5 ∷ fails (sec 1) ∷ asks (sec 1) ∷ [])).1 ≡ 0
run_early_example =
    (run_early fraction tripped 0 (asks 5 ∷ fails (sec 1) ∷ asks (sec 1) ∷ []) refl refl
      (omega arith)).2

run_half_open_example :
    (run fraction
      (record tripped { state = half_open; half_open_probes = 1 })
      (map asks (5 ∷ 6 ∷ 7 ∷ []))).1
    ≡ 1
run_half_open_example =
    run_half_open fraction (record tripped { state = half_open; half_open_probes = 1 })
      (5 ∷ 6 ∷ 7 ∷ []) refl

run_cooled_example : (run fraction tripped (map asks (sec 2 ∷ sec 3 ∷ sec 3 ∷ []))).1 ≡ 2
run_cooled_example =
    run_cooled fraction tripped 0 (sec 2) (sec 3 ∷ sec 3 ∷ []) refl refl (omega arith)

run_failures_example :
    (run fraction (new_breaker fraction 3 (sec 2) 1) (map fails (0 ∷ 1 ∷ 2 ∷ []))).0.state ≡ opened
unfolding program
run_failures_example =
    run_failures fraction (new_breaker fraction 3 (sec 2) 1) 3 0 (0 ∷ 1 ∷ 2 ∷ []) refl refl refl
      (omega arith) (omega arith)

abbrev sampled : CircuitBreaker fraction
sampled = record {
  open_cooldown = sec 2;
  half_open_max_probes = 1;
  trip_policy = failure_rate half 10 4;
  state = closed;
  consecutive_failures = 1;
  opened_at = none;
  half_open_probes = 0;
  window = some (replay 10 ((2, false) ∷ (1, true) ∷ (0, true) ∷ []));
}

-- Two failures of four samples: the minimum is four and the threshold is a half.
abbrev after_failure : CircuitBreaker fraction
after_failure = record_failure fraction sampled 3

record_failure-rate_example :
    ((after_failure.state ≡ opened) ↔ ReachesRate fraction half 4 2 2)
    × ((after_failure.state ≡ opened) ⊎ (after_failure.state ≡ closed))
    × (after_failure.window
        ≡ some (replay 10 ((3, false) ∷ (2, false) ∷ (1, true) ∷ (0, true) ∷ [])))
unfolding Window.seconds_since
record_failure-rate_example =
    record_failure-rate fraction sampled half 10 4 3 ((2, false) ∷ (1, true) ∷ (0, true) ∷ []) refl
      refl refl (omega arith) (omega arith)

reached_test : after_failure.state ≡ opened
unfolding program
reached_test = refl

-- One sample fewer than the minimum.
too_few_test :
    (record_failure fraction
      (record sampled { window = some (replay 10 ((2, false) ∷ (1, false) ∷ [])) })
      3).state
    ≡ closed
unfolding program
too_few_test = refl

-- One failure of four samples.
below_threshold_test :
    (record_failure fraction
      (record sampled { window = some (replay 10 ((2, true) ∷ (1, true) ∷ (0, true) ∷ [])) })
      3).state
    ≡ closed
unfolding program
below_threshold_test = refl

record_success-from_config_example :
    record_success fraction (record sampled { state = half_open; opened_at = some 3 }) (sec 3)
    ≡ from_config fraction rate_config
record_success-from_config_example =
    record_success-from_config fraction rate_config
      (record sampled { state = half_open; opened_at = some 3 }) (sec 3) 3
      ((2, false) ∷ (1, true) ∷ (0, true) ∷ []) (λ e. cc) refl refl refl refl (omega arith)

-- ===== src/Resilience/Breaker.antt =====
-- `CircuitBreaker` of resilience.rs, one call of a method at a time; `SharedCircuitBreaker` puts a
-- mutex round the same methods, so that its callers' calls form one sequence of events.
pub mod Invariant
pub mod Admission
pub mod Trips
use krab_pub.Common.{
  ℕ, ◌+◌, ◌-◌, Bool, true, false, ◌||◌, List, [], ◌∷◌, Option, none, some, leb, ltb, ◌==◌,
  if◌then◌else◌, saturating_add,
}
use krab_pub.Resilience.Window.{RateWindow, u32_max, new, record_sample, totals, reset}

-- The f64 operations of `should_trip`: conversion from u64, division and `>=`.
pub record F64 : Type 1 where
  pub Float : Type 0
  pub of_u64 : ℕ → Float
  pub div : Float → Float → Float
  pub ge : Float → Float → Bool

pub data CircuitState : Type 0 where
  closed opened half_open : CircuitState

module _ (f : F64) where
  open f use {Float, of_u64, div, ge}

  pub data TripPolicy : Type 0 where
    consecutive_failures : ℕ → TripPolicy
    failure_rate : Float → ℕ → ℕ → TripPolicy

  pub record CircuitBreakerConfig : Type 0 where
    pub open_cooldown : ℕ
    pub half_open_max_probes : ℕ
    pub trip_policy : TripPolicy

  pub record CircuitBreaker : Type 0 where
    pub open_cooldown : ℕ
    pub half_open_max_probes : ℕ
    pub trip_policy : TripPolicy
    pub state : CircuitState
    pub consecutive_failures : ℕ
    pub opened_at : Option ℕ
    pub half_open_probes : ℕ
    pub window : Option RateWindow

  window_for : TripPolicy → Option RateWindow
  window_for (consecutive_failures failure_threshold) = none
  window_for (failure_rate threshold window_secs min_samples) = some (new window_secs)

  unfoldable pub from_config : CircuitBreakerConfig → CircuitBreaker
  unfolding window_for
  from_config config = record {
    open_cooldown = config.open_cooldown;
    half_open_max_probes = config.half_open_max_probes;
    trip_policy = config.trip_policy;
    state = closed;
    consecutive_failures = 0;
    opened_at = none;
    half_open_probes = 0;
    window = window_for config.trip_policy;
  }

  unfoldable pub new_breaker : ℕ → ℕ → ℕ → CircuitBreaker
  unfolding from_config
  new_breaker failure_threshold open_cooldown half_open_max_probes = from_config (record {
    open_cooldown = open_cooldown;
    half_open_max_probes = half_open_max_probes;
    trip_policy = consecutive_failures failure_threshold;
  })

  cooled_down : CircuitBreaker → ℕ → Option ℕ → Bool
  cooled_down c now none = false
  cooled_down c now (some at) = leb c.open_cooldown (now - at)

  allow_in : CircuitState → CircuitBreaker → ℕ → CircuitBreaker × Bool
  unfolding cooled_down
  allow_in closed c now = (c, true)
  allow_in opened c now =
      if cooled_down c now c.opened_at
      then (record c { state = half_open; half_open_probes = 1 }, true)
      else (c, false)
  allow_in half_open c now =
      if ltb c.half_open_probes c.half_open_max_probes
      then (record c { half_open_probes = c.half_open_probes + 1 }, true)
      else (c, false)

  unfoldable pub allow_request : CircuitBreaker → ℕ → CircuitBreaker × Bool
  unfolding allow_in
  allow_request c now = allow_in c.state c now

  record_in : Option RateWindow → ℕ → Bool → Option RateWindow
  record_in none now success = none
  record_in (some w) now success = some (record_sample w now success)

  reset_in : Option RateWindow → Option RateWindow
  reset_in none = none
  reset_in (some w) = some (reset w)

  close_and_reset : CircuitBreaker → CircuitBreaker
  unfolding reset_in
  close_and_reset c = record c {
    state = closed;
    consecutive_failures = 0;
    half_open_probes = 0;
    opened_at = none;
    window = reset_in c.window;
  }

  success_in : CircuitState → CircuitBreaker → ℕ → CircuitBreaker
  unfolding record_in close_and_reset
  success_in closed c now = record c {
    consecutive_failures = 0;
    window = record_in c.window now true;
  }
  success_in half_open c now = close_and_reset c
  success_in opened c now = close_and_reset c

  unfoldable pub record_success : CircuitBreaker → ℕ → CircuitBreaker
  unfolding success_in
  record_success c now = success_in c.state c now

  trip_open : CircuitBreaker → ℕ → CircuitBreaker
  trip_open c now = record c { state = opened; opened_at = some now; half_open_probes = 0 }

  unfoldable pub rate_reached : Float → ℕ → ℕ → ℕ → Bool
  rate_reached threshold min_samples successes failures =
      let total = successes + failures in
      if ltb total min_samples || total == 0
      then false
      else ge (div (of_u64 failures) (of_u64 total)) threshold

  -- The window comes back because `totals` may set its epoch.
  rate_trips : Option RateWindow → Float → ℕ → ℕ → Option RateWindow × Bool
  unfolding rate_reached
  rate_trips none threshold min_samples now = (none, false)
  rate_trips (some w) threshold min_samples now =
      let (w', successes, failures) = totals w now in
      (some w', rate_reached threshold min_samples successes failures)

  trips_by : TripPolicy → CircuitBreaker → ℕ → CircuitBreaker × Bool
  unfolding rate_trips
  trips_by (consecutive_failures failure_threshold) c now =
      (c, leb failure_threshold c.consecutive_failures)
  trips_by (failure_rate threshold window_secs min_samples) c now =
      let (window, tripped) = rate_trips c.window threshold min_samples now in
      (record c { window = window }, tripped)

  should_trip : CircuitBreaker → ℕ → CircuitBreaker × Bool
  unfolding trips_by
  should_trip c now = trips_by c.trip_policy c now

  failure_in : CircuitState → CircuitBreaker → ℕ → CircuitBreaker
  unfolding record_in should_trip trip_open
  failure_in closed c now =
      let (c', tripped) = should_trip (record c { window = record_in c.window now false }) now in
      if tripped then trip_open c' now else c'
  failure_in half_open c now = trip_open c now
  failure_in opened c now = c

  unfoldable pub record_failure : CircuitBreaker → ℕ → CircuitBreaker
  unfolding failure_in
  record_failure c now =
      failure_in c.state
        (record c { consecutive_failures = saturating_add u32_max c.consecutive_failures 1 }) now

  pub data Event : Type 0 where
    asks : ℕ → Event
    succeeds : ℕ → Event
    fails : ℕ → Event

  -- Breaker, and whether a request was admitted.
  unfoldable pub step : CircuitBreaker → Event → CircuitBreaker × Bool
  step c (asks now) = allow_request c now
  step c (succeeds now) = (record_success c now, false)
  step c (fails now) = (record_failure c now, false)

  -- The breaker after a sequence of calls, and how many requests it admitted.
  unfoldable pub run : CircuitBreaker → List Event → CircuitBreaker × ℕ
  unfolding step
  run c [] = (c, 0)
  run c (e ∷ es) =
      let (c', admitted) = step c e in
      let (last, rest) = run c' es in (last, if admitted then rest + 1 else rest)

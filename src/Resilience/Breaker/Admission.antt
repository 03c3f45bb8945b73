-- ===== src/Resilience/Breaker/Admission.antt =====
-- Which requests a circuit breaker admits once it has opened.
use krab_pub.Common.{
  ℕ, ◌+◌, ◌-◌, ◌≤◌, ◌<◌, min, max, ◌≡◌, refl, false, List, [], ◌∷◌, map, some, arith, length,
}
use krab_pub.Resilience.Breaker.{
  F64, opened, half_open, CircuitBreaker, allow_request, record_failure, Event, asks, succeeds,
  fails, step, run,
}

module _ (f : F64) where
  -- A call other than a reported success, less than the cooldown after the opening.
  abbrev pub IsEarly : ℕ → ℕ → Event f → Type 0
  IsEarly at cooldown (asks now) = now - at < cooldown
  IsEarly at cooldown (succeeds now) = ⊥
  IsEarly at cooldown (fails now) = now - at < cooldown

  abbrev pub AllEarly : ℕ → ℕ → List (Event f) → Type 0
  AllEarly at cooldown [] = Unit {0}
  AllEarly at cooldown (e ∷ es) = IsEarly at cooldown e × AllEarly at cooldown es

  step-early :
      (c : CircuitBreaker f) (at : ℕ) (e : Event f)
      → c.state ≡ opened
      → c.opened_at ≡ some at
      → IsEarly at c.open_cooldown e
      → let (c', admitted) = step f c e in
        (c'.state ≡ opened)
        × (c'.opened_at ≡ some at)
        × (c'.open_cooldown ≡ c.open_cooldown)
        × (admitted ≡ false)
  unfolding step allow_request record_failure
  step-early c at (asks now) o a h = ground arith
  step-early c at (succeeds now) o a h = absurd h
  step-early c at (fails now) o a h = ground arith

  -- Until the cooldown is over an open breaker admits no request, whatever requests and failures
  -- are reported in between, and its opening time stays what it was.
  pub run_early :
      (c : CircuitBreaker f) (at : ℕ) (es : List (Event f))
      → c.state ≡ opened
      → c.opened_at ≡ some at
      → AllEarly at c.open_cooldown es
      → let (c', admitted) = run f c es in
        (c'.state ≡ opened) × (c'.opened_at ≡ some at) × (admitted ≡ 0)
  unfolding run
  run_early c at [] o a h = (o, a, refl)
  run_early c at (e ∷ es) o a h =
      let (o', a', same, refused) = step-early c at e o a h.0 in
      let rest = run_early (step f c e).0 at es o' a' (rw same h.1) in ground arith

  -- A half-open breaker admits exactly the probes that its limit has left, over any sequence of
  -- requests with no reported outcome, at whatever times they come.
  pub run_half_open :
      (c : CircuitBreaker f) (times : List ℕ)
      → c.state ≡ half_open
      → (run f c (map asks times)).1
        ≡ min (length times) (c.half_open_max_probes - c.half_open_probes)
  unfolding run step allow_request
  run_half_open c [] h = omega arith
  run_half_open c (now ∷ times) h = ground (arith, run_half_open (allow_request f c now).0 times)

  -- Requests that all come after the cooldown: an open breaker admits the first as a probe, then
  -- as many as are left of its limit, so the larger of the limit and one in all.
  pub run_cooled :
      (c : CircuitBreaker f) (at now : ℕ) (times : List ℕ)
      → c.state ≡ opened
      → c.opened_at ≡ some at
      → c.open_cooldown ≤ now - at
      → (run f c (map asks (now ∷ times))).1 ≡ min (length times + 1) (max c.half_open_max_probes 1)
  unfolding run step allow_request
  run_cooled c at now times o a h =
      ground (arith, run_half_open (record c { state = half_open; half_open_probes = 1 }) times)

-- ===== src/Resilience/Window/Counts.antt =====
-- The rolling window of resilience.rs against the log of all samples.
use krab_pub.Common.{
  ℕ, ◌<◌, zero, suc, ◌+◌, ◌-◌, ◌≤◌, max, ◌≡◌, refl, ap, Bool, true, false, ◌&&◌, List, [], ◌∷◌, map,
  ltb, length, length-replicate, sum_of, sum_of-replicate, replicate, arith,
}
use krab_pub.Resilience.Window.{
  RateWindow, default_bucket, u32_max, new, epoch_or, seconds_since, current_second, record_sample,
  totals, reset,
}
use krab_pub.Resilience.Window.Ring.{
  same, tally, weight, sum_range-eq-sum_of, Fitted, Ring, record_at-Ring, record_at-sum,
}

-- All samples since the window was new or reset, newest first: when, and whether a success.
abbrev pub Log : Type 0
Log = List (ℕ × Bool)

unfoldable pub replay : ℕ → Log → RateWindow
replay window_secs [] = new window_secs
replay window_secs ((at, success) ∷ older) = record_sample (replay window_secs older) at success

-- The clock did not go back: times fall along the log from `now` on.
abbrev pub Ordered : ℕ → Log → Type 0
Ordered now [] = Unit {0}
Ordered now ((at, success) ∷ older) = (at ≤ now) × Ordered at older

-- The time of the first sample, from which whole seconds are counted.
abbrev pub first_or : ℕ → Log → ℕ
first_or now [] = now
first_or now ((at, success) ∷ older) = first_or at older

-- How many samples of one kind fall in the last `w` seconds before second `current`.
abbrev pub recent : Bool → ℕ → ℕ → ℕ → Log → ℕ
recent kind w epoch current [] = 0
recent kind w epoch current ((at, success) ∷ older) =
    tally (same kind success && ltb current (seconds_since epoch at + w))
    + recent kind w epoch current older

abbrev last_second : Log → ℕ
last_second [] = 0
last_second ((at, success) ∷ older) = seconds_since (first_or at older) at

record Replayed (window_secs : ℕ) (log : Log) (w : RateWindow) : Type 0 where
  secs : w.window_secs ≡ max window_secs 1
  epoch_at : (now : ℕ) → epoch_or w.epoch now ≡ first_or now log
  ring : Ring (max window_secs 1) (last_second log) (length log) w.buckets

Fitted-new : (w i k : ℕ) → Fitted w 0 0 i (replicate k default_bucket)
Fitted-new w i zero = tt
Fitted-new w i (suc k) = (ground arith, Fitted-new w (suc i) k)

last_second-le :
    (now : ℕ) (log : Log) → Ordered now log → last_second log ≤ seconds_since (first_or now log) now
unfolding seconds_since
last_second-le now [] o = omega arith
last_second-le now ((at, success) ∷ older) o = omega arith

replay-Replayed :
    (window_secs now : ℕ) (log : Log)
    → Ordered now log
    → Replayed window_secs log (replay window_secs log)
unfolding replay new record_sample
replay-Replayed window_secs now [] o = record {
  secs = refl;
  epoch_at = λ now. refl;
  ring = record {
    positive = omega arith;
    full = length-replicate _ _;
    fitted = Fitted-new _ 0 (max window_secs 1);
  };
}
replay-Replayed window_secs now ((at, success) ∷ older) o =
    let ih = replay-Replayed window_secs at older o.1 in
    record {
      secs = ih.secs;
      epoch_at = λ now. ih.epoch_at at;
      ring =
          rw (ih.secs, ih.epoch_at at)
            (record_at-Ring (max window_secs 1) (last_second older) (length older)
              (seconds_since (first_or at older) at) (replay window_secs older).buckets ih.ring
              (last_second-le at older o.1) success);
    }

weight-default : (kind : Bool) (oldest c : ℕ) → weight kind oldest c default_bucket ≡ 0
weight-default true oldest c = ground arith
weight-default false oldest c = ground arith

buckets-recent :
    (kind : Bool) (window_secs now c : ℕ) (log : Log)
    → Ordered now log
    → length log ≤ u32_max
    → last_second log ≤ c
    → sum_of (weight kind (c - (max window_secs 1 - 1)) c) (replay window_secs log).buckets
      ≡ recent kind (max window_secs 1) (first_or now log) c log
unfolding replay new record_sample
buckets-recent kind window_secs now c [] o small h =
    sum_of-replicate (weight kind (c - (max window_secs 1 - 1)) c) (max window_secs 1)
      default_bucket (weight-default kind _ c)
buckets-recent kind window_secs now c ((at, success) ∷ older) o small h =
    let ih = replay-Replayed window_secs at older o.1 in
    let second = seconds_since (first_or at older) at in
    let before = last_second-le at older o.1 in
    rw (ih.secs, ih.epoch_at at)
      (omega (
        arith,
        record_at-sum (max window_secs 1) (last_second older) (length older) second
            (replay window_secs older).buckets ih.ring before kind success c h (omega arith),
        buckets-recent kind window_secs at c older o.1 (omega arith) (omega arith),
      ))

-- `totals` reports, of each kind, exactly how many of the samples recorded since the window was
-- new lie in the last `window_secs` seconds (at least one), counted in whole seconds from the
-- first sample, as long as the clock never went back and fewer than 2^32 samples came in.
pub totals-replay :
    (window_secs now : ℕ) (log : Log)
    → Ordered now log
    → length log ≤ u32_max
    → let epoch = first_or now log in
      let current = seconds_since epoch now in
      let (_, successes, failures) = totals (replay window_secs log) now in
      (successes ≡ recent true (max window_secs 1) epoch current log)
      × (failures ≡ recent false (max window_secs 1) epoch current log)
unfolding totals current_second
totals-replay window_secs now log o small =
    let r = replay-Replayed window_secs now log o in
    let at_end = last_second-le now log o in
    rw (r.secs, r.epoch_at now, sum_range-eq-sum_of)
      (
        buckets-recent true window_secs now _ log o small at_end,
        buckets-recent false window_secs now _ log o small at_end,
      )

-- `totals` leaves a window as it is that holds a sample.
pub totals_window :
    (window_secs now at : ℕ) (success : Bool) (older : Log)
    → (totals (replay window_secs ((at, success) ∷ older)) now).0
      ≡ replay window_secs ((at, success) ∷ older)
unfolding totals current_second replay record_sample
totals_window window_secs now at success older = refl

-- A sample just recorded is among the recent ones.
pub recent_self :
    (kind : Bool) (w epoch now : ℕ) (older : Log)
    → 0 < w
    → 0 < recent kind w epoch (seconds_since epoch now) ((now, kind) ∷ older)
recent_self true w epoch now older h = ground arith
recent_self false w epoch now older h = ground arith

map_const {ℓ} : {A B : Type ℓ} (b : B) (xs : List A) → map (λ _. b) xs ≡ replicate (length xs) b
map_const b [] = refl
map_const b (x ∷ xs) = ap (◌∷◌ b) (map_const b xs)

-- `reset` gives back a new window of the same length, whatever was recorded.
pub reset-replay :
    (window_secs now : ℕ) (log : Log)
    → Ordered now log
    → reset (replay window_secs log) ≡ new window_secs
unfolding reset new
reset-replay window_secs now log o =
    let r = replay-Replayed window_secs now log o in
    rw (map_const default_bucket, r.ring.full, r.secs)

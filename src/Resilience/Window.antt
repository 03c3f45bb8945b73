-- ===== src/Resilience/Window.antt =====
-- `RateBucket` and `RateWindow` of resilience.rs. An `Instant` is a number of nanoseconds.
mod Ring
pub mod Counts
use krab_pub.Common.{
  ℕ, ◌+◌, ◌-◌, ◌/◌, ◌%◌, ◌^◌, max, Bool, true, false, ◌&&◌, List, [], ◌∷◌, map, Option, none, some,
  leb, ◌==◌, if◌then◌else◌, saturating_add, get_or, set, replicate,
}

abbrev pub u32_max : ℕ
u32_max = 2 ^ 32 - 1

abbrev pub nanos_per_sec : ℕ
nanos_per_sec = 1_000_000_000

pub record RateBucket : Type 0 where
  pub second : ℕ
  pub successes : ℕ
  pub failures : ℕ

abbrev pub default_bucket : RateBucket
default_bucket = record { second = 0; successes = 0; failures = 0 }

pub record RateWindow : Type 0 where
  pub epoch : Option ℕ
  pub buckets : List RateBucket
  pub window_secs : ℕ

unfoldable pub new : ℕ → RateWindow
new window_secs = record {
  epoch = none;
  buckets = replicate (max window_secs 1) default_bucket;
  window_secs = max window_secs 1;
}

-- `get_or_insert`, then the whole seconds since the epoch; `-` stops at 0 as the saturating
-- difference does.
abbrev pub epoch_or : Option ℕ → ℕ → ℕ
epoch_or none now = now
epoch_or (some epoch) now = epoch

unfoldable pub seconds_since : ℕ → ℕ → ℕ
seconds_since epoch now = (now - epoch) / nanos_per_sec

unfoldable pub current_second : RateWindow → ℕ → RateWindow × ℕ
unfolding seconds_since
current_second w now =
    let epoch = epoch_or w.epoch now in (record w { epoch = some epoch }, seconds_since epoch now)

-- The bucket of a second, emptied if it still counts an older one.
unfoldable pub claim : RateBucket → ℕ → RateBucket
claim bucket second =
    if bucket.second == second
    then bucket
    else record { second = second; successes = 0; failures = 0 }

unfoldable pub count_in : RateBucket → Bool → RateBucket
count_in bucket true = record bucket { successes = saturating_add u32_max bucket.successes 1 }
count_in bucket false = record bucket { failures = saturating_add u32_max bucket.failures 1 }

-- The write of `record` into the ring buffer.
unfoldable pub record_at : List RateBucket → ℕ → ℕ → Bool → List RateBucket
unfolding claim count_in
record_at buckets window_secs second success =
    let index = second % window_secs in
    set buckets index (count_in (claim (get_or buckets index default_bucket) second) success)

unfoldable pub record_sample : RateWindow → ℕ → Bool → RateWindow
unfolding record_at current_second
record_sample w now success =
    let (w', second) = current_second w now in
    record w' { buckets = record_at w'.buckets w'.window_secs second success }

unfoldable pub in_range : ℕ → ℕ → RateBucket → Bool
in_range oldest_valid current bucket = leb oldest_valid bucket.second && leb bucket.second current

-- The loop of `totals`. The sums are u64 and cannot wrap: at most 2^32 buckets of a u32 each.
unfoldable pub sum_range : ℕ → ℕ → List RateBucket → ℕ × ℕ
unfolding in_range
sum_range oldest current [] = (0, 0)
sum_range oldest current (b ∷ bs) =
    let (successes, failures) = sum_range oldest current bs in
    if in_range oldest current b
    then (b.successes + successes, b.failures + failures)
    else (successes, failures)

unfoldable pub totals : RateWindow → ℕ → RateWindow × ℕ × ℕ
unfolding current_second sum_range
totals w now =
    let (w', current) = current_second w now in
    let (successes, failures) = sum_range (current - (w'.window_secs - 1)) current w'.buckets in
    (w', successes, failures)

unfoldable pub reset : RateWindow → RateWindow
reset w = record w { buckets = map (λ _. default_bucket) w.buckets; epoch = none }

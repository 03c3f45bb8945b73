-- ===== src/Resilience/Window/Ring.antt =====
-- What one write to the ring buffer of resilience.rs adds to the sum over the window.
use native.Mathlib.Nat.{div-add-mod, mod-lt}
use krab_pub.Common.{
  ℕ, zero, suc, ◌+◌, ◌-◌, ◌%◌, ◌≤◌, ◌<◌, ◌≡◌, refl, ◌⊎◌, Bool, true, false, not, ◌&&◌, List, [],
  ◌∷◌, ltb, if◌then◌else◌, get_or, set, length, length-set, ◌∙◌, sum_of, sum_of-set, arith,
}
use krab_pub.Resilience.Window.{
  RateBucket, default_bucket, u32_max, claim, count_in, record_at, in_range, sum_range,
}

abbrev pub counted : Bool → RateBucket → ℕ
counted true b = b.successes
counted false b = b.failures

abbrev pub same : Bool → Bool → Bool
same true b = b
same false b = not b

abbrev pub tally : Bool → ℕ
tally true = 1
tally false = 0

abbrev pub weight : Bool → ℕ → ℕ → RateBucket → ℕ
weight kind oldest current b = if in_range oldest current b then counted kind b else 0

pub sum_range-eq-sum_of :
    (oldest current : ℕ) (bs : List RateBucket)
    → sum_range oldest current bs
      ≡ (sum_of (weight true oldest current) bs, sum_of (weight false oldest current) bs)
unfolding sum_range
sum_range-eq-sum_of oldest current [] = refl
sum_range-eq-sum_of oldest current (b ∷ bs) = ground (arith, sum_range-eq-sum_of oldest current bs)

-- A bucket at index `i` of a ring of `w` buckets, after at most `n` samples up to second `last`.
pub record Fits (w last n i : ℕ) (b : RateBucket) : Type 0 where
  pub seen : b.second ≤ last
  pub few_successes : b.successes ≤ n
  pub few_failures : b.failures ≤ n
  pub place : (b.second % w ≡ i) ⊎ ((b.successes ≡ 0) × (b.failures ≡ 0))

abbrev pub Fitted : ℕ → ℕ → ℕ → ℕ → List RateBucket → Type 0
Fitted w last n i [] = Unit {0}
Fitted w last n i (b ∷ bs) = Fits w last n i b × Fitted w last n (suc i) bs

-- Two seconds of one bucket are a whole window apart.
apart : (w a b : ℕ) → 0 < w → a % w ≡ b % w → a < b → a + w ≤ b
apart w a b p e h = grind (arith, div-add-mod a w, div-add-mod b w)

-- One sample at second `s` adds one to the sum of its kind, if `s` is in the window that ends at
-- `c`, and nothing to the other: what the write throws away is out of every such window.
weight-claim :
    (kind ok : Bool) (w last n i s c : ℕ) (b : RateBucket)
    → 0 < w
    → Fits w last n i b
    → s % w ≡ i
    → last ≤ s
    → s ≤ c
    → n < u32_max
    → weight kind (c - (w - 1)) c (count_in (claim b s) ok)
      ≡ tally (same kind ok && ltb c (s + w)) + weight kind (c - (w - 1)) c b
unfolding count_in claim in_range
weight-claim true true w last n i s c b p f e h k l = ground (arith, f.place, apart w b.second s p)
weight-claim true false w last n i s c b p f e h k l = ground (arith, f.place, apart w b.second s p)
weight-claim false true w last n i s c b p f e h k l = ground (arith, f.place, apart w b.second s p)
weight-claim false false w last n i s c b p f e h k l =
    ground (arith, f.place, apart w b.second s p)

claim-Fits :
    (ok : Bool) (w last n i s : ℕ) (b : RateBucket)
    → Fits w last n i b
    → s % w ≡ i
    → last ≤ s
    → Fits w s (suc n) i (count_in (claim b s) ok)
unfolding count_in claim
claim-Fits true w last n i s b f e h = ground arith
claim-Fits false w last n i s b f e h = ground arith

Fitted-later :
    (w last n i s : ℕ) (bs : List RateBucket)
    → last ≤ s
    → Fitted w last n i bs
    → Fitted w s (suc n) i bs
Fitted-later w last n i s [] h f = tt
Fitted-later w last n i s (b ∷ bs) h f = (
  record {
    seen = omega arith;
    few_successes = omega arith;
    few_failures = omega arith;
    place = f.0.place;
  },
  Fitted-later w last n (suc i) s bs h f.1,
)

-- The bucket at position `k` of a fitted list that starts at index `i`.
Fitted-get :
    (w last n i k : ℕ) (bs : List RateBucket)
    → k < length bs
    → Fitted w last n i bs
    → Fits w last n (i + k) (get_or bs k default_bucket)
Fitted-get w last n i k [] h f = absurd (omega arith)
Fitted-get w last n i zero (b ∷ bs) h f = let e : i + 0 ≡ i = omega arith in rw e f.0
Fitted-get w last n i (suc k) (b ∷ bs) h f =
    let e : i + suc k ≡ suc i + k = omega arith in
    rw e (Fitted-get w last n (suc i) k bs (omega arith) f.1)

Fitted-set :
    (w last n i k : ℕ) (v : RateBucket) (bs : List RateBucket)
    → Fitted w last n i bs
    → Fits w last n (i + k) v
    → Fitted w last n i (set bs k v)
Fitted-set w last n i k v [] f g = tt
Fitted-set w last n i zero v (b ∷ bs) f g = let e : i + 0 ≡ i = omega arith in (rw e at g, f.1)
Fitted-set w last n i (suc k) v (b ∷ bs) f g =
    let e : i + suc k ≡ suc i + k = omega arith in
    (f.0, Fitted-set w last n (suc i) k v bs f.1 (rw e at g))

-- Bounds that the ring keeps: `w` buckets, each fitted, after at most `n` samples up to `last`.
pub record Ring (w last n : ℕ) (bs : List RateBucket) : Type 0 where
  pub positive : 0 < w
  pub full : length bs ≡ w
  pub fitted : Fitted w last n 0 bs

module _ (w last n s : ℕ) (bs : List RateBucket) (r : Ring w last n bs) (later : last ≤ s) where
  bucket : RateBucket
  bucket = get_or bs (s % w) default_bucket

  bucket-Fits : Fits w last n (s % w) bucket
  unfolding bucket
  bucket-Fits =
      let e : 0 + s % w ≡ s % w = omega arith in
      rw e at
        (Fitted-get w last n 0 (s % w) bs (omega (arith, mod-lt s r.positive, r.full)) r.fitted)

  pub record_at-Ring : (ok : Bool) → Ring w s (suc n) (record_at bs w s ok)
  unfolding record_at bucket
  record_at-Ring ok = record {
    positive = r.positive;
    full = length-set bs (s % w) _ ∙ r.full;
    fitted =
        let e : 0 + s % w ≡ s % w = omega arith in
        Fitted-set w s (suc n) 0 (s % w) _ _ (Fitted-later w last n 0 s bs later r.fitted)
          (rw e (claim-Fits ok w last n (s % w) s bucket bucket-Fits refl later));
  }

  -- A write adds the sample to the sum over every window that ends later.
  pub record_at-sum :
      (kind ok : Bool) (c : ℕ)
      → s ≤ c
      → n < u32_max
      → sum_of (weight kind (c - (w - 1)) c) (record_at bs w s ok)
        ≡ tally (same kind ok && ltb c (s + w)) + sum_of (weight kind (c - (w - 1)) c) bs
  unfolding record_at bucket
  record_at-sum kind ok c h k = omega (
    arith,
    sum_of-set (weight kind (c - (w - 1)) c) bs (s % w) (count_in (claim bucket s) ok)
        default_bucket (omega (arith, mod-lt s r.positive, r.full)),
    weight-claim kind ok w last n (s % w) s c bucket r.positive bucket-Fits refl later h k,
  )

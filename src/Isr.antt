-- ===== src/Isr.antt =====
-- crates/framework/krab_core/src/isr.rs: cached pages over a shared store.
pub mod Keys
pub mod Invalidation
pub mod Serving
use krab_pub.Common.{
  ℕ, ◌+◌, ◌-◌, ◌*◌, ◌^◌, min, max, ◌≡◌, Bool, true, false, not, ◌&&◌, ◌||◌, List, [], ◌∷◌, ◌++◌,
  Option, none, some, ltb, ◌==◌, if◌then◌else◌, length, take, Result, ok, err,
}
use krab_pub.Common.Text.{Text, codes, strip_prefix}
use krab_pub.Store.Interface.{Times, DistributedStore}

abbrev pub nanos_per_sec : ℕ
nanos_per_sec = 1_000_000_000

pub data IsrPolicy : Type 0 where
  static : IsrPolicy
  revalidate : ℕ → IsrPolicy
  on_demand : IsrPolicy

pub record IsrEntry : Type 0 where
  pub html : Text
  pub generated_at : ℕ
  pub policy : IsrPolicy
  pub etag : Text

-- `elapsed().unwrap_or(ZERO)`: an entry from the future has age 0.
unfoldable pub age : IsrEntry → ℕ → ℕ
age e now = now - e.generated_at

unfoldable pub stale_by : IsrPolicy → ℕ → Bool
stale_by static age = false
stale_by (revalidate max_age) age = ltb max_age age
stale_by on_demand age = true

unfoldable pub is_stale : IsrEntry → ℕ → Bool
unfolding stale_by age
is_stale e now = stale_by e.policy (age e now)

unfoldable pub is_fresh : IsrEntry → ℕ → Bool
is_fresh e now = not (is_stale e now)

-- The largest `Duration`, in nanoseconds.
abbrev pub duration_max : ℕ
duration_max = (2 ^ 64 - 1) * nanos_per_sec + (nanos_per_sec - 1)

abbrev pub stale_retention_factor : ℕ
stale_retention_factor = 10

abbrev pub min_retention : ℕ
min_retention = 3600 * nanos_per_sec

abbrev pub render_lease_ttl : ℕ
render_lease_ttl = 10 * nanos_per_sec

unfoldable pub retention_for : IsrPolicy → ℕ
retention_for static = 0
retention_for (revalidate max_age) =
    max (min (max_age * stale_retention_factor) duration_max) min_retention
retention_for on_demand = min_retention

abbrev pub key_separator : ℕ
key_separator = 1

abbrev pub lease_separator : ℕ
lease_separator = 2

unfoldable pub key : Text → Text → Text
key namespace path = namespace ++ key_separator ∷ path

unfoldable pub lease_key : Text → Text → Text
lease_key namespace path = namespace ++ lease_separator ∷ path

-- Whether the rest of a path after a prefix begins a new segment.
unfoldable pub on_boundary : Text → Bool
on_boundary [] = true
on_boundary (c ∷ rest) = c == b'/'

ends_with_slash : Text → Bool
ends_with_slash [] = false
ends_with_slash (c ∷ []) = c == b'/'
ends_with_slash (c ∷ d ∷ rest) = ends_with_slash (d ∷ rest)

-- `prefix.is_empty() || prefix.ends_with('/')`
unfoldable pub boundary_exempt : Text → Bool
unfolding ends_with_slash
boundary_exempt [] = true
boundary_exempt (c ∷ rest) = ends_with_slash (c ∷ rest)

on_segment_boundary : Option Text → Bool
unfolding on_boundary
on_segment_boundary none = false
on_segment_boundary (some rest) = on_boundary rest

-- The keys that the loop of `invalidate_prefix` deletes.
unfoldable pub is_hit : Bool → Text → Text → Bool
unfolding on_segment_boundary
is_hit exempt full_prefix k = exempt || on_segment_boundary (strip_prefix full_prefix k)

-- `serde_json` and the hexadecimal SHA-256 digest.
pub record Codec : Type 0 where
  pub encode : IsrEntry → Text
  pub decode : Text → Option IsrEntry
  pub decode-encode : (e : IsrEntry) → decode (encode e) ≡ some e
  pub sha256_hex : Text → Text

pub data IsrServeOutcome : Type 0 where
  hit : IsrEntry → IsrServeOutcome
  miss_acquired miss_locked : IsrServeOutcome

module _ (codec : Codec) where
  unfoldable pub compute_etag : Text → Text
  compute_etag html = codes "\"krab-" ++ take 16 (codec.sha256_hex html) ++ codes "\""

  -- A new entry, at the wall-clock time `system_now`.
  unfoldable pub new_entry : Text → IsrPolicy → ℕ → IsrEntry
  new_entry html policy system_now = record {
    html = html;
    generated_at = system_now;
    policy = policy;
    etag = compute_etag html;
  }

  -- A value that cannot be decoded counts as a miss.
  abbrev pub decoded : Option Text → Option IsrEntry
  decoded none = none
  decoded (some raw) = codec.decode raw

add_stale : Option IsrEntry → ℕ → Text → List Text → List Text
add_stale none system_now path stale = stale
add_stale (some e) system_now path stale =
    if is_stale e system_now then stale ++ path ∷ [] else stale

abbrev pub served : ℕ → Option IsrEntry → Option (Text × Bool)
served system_now none = none
served system_now (some e) = some (e.html, is_stale e system_now)

-- A failed lease write fails open: the caller renders.
abbrev pub leased : Result Bool → IsrServeOutcome
leased (ok true) = miss_acquired
leased (ok false) = miss_locked
leased err = miss_acquired

-- `?` on a store's answer: go on with the value, or hand the error out.
abbrev pub and_then {ℓ} :
    {S : Type ℓ} {A B : Type 0} → S × Result A → (S → A → S × Result B) → S × Result B
and_then r f = elim r.1 [ ok a ↦ f r.0 a | err ↦ (r.0, err) ]

module _ (d : DistributedStore) (codec : Codec) (namespace : Text) where
  open d use {State}

  unfoldable pub put : State → Times → Text → Text → IsrPolicy → ℕ → State × Result (Unit {0})
  unfolding new_entry compute_etag
  put s t path html policy system_now =
      d.set s t (key namespace path) (codec.encode (new_entry codec html policy system_now))
        (retention_for policy)

  unfoldable pub get : State → Times → Text → State × Result (Option IsrEntry)
  get s t path = and_then (d.get s t (key namespace path)) (λ s' raw. (s', ok (decoded codec raw)))

  unfoldable pub invalidate : State → Times → Text → State × Result Bool
  invalidate s t path = d.delete s t (key namespace path)

  -- The loop of `invalidate_prefix`: the keys to go through, and how many were removed so far.
  unfoldable pub delete_keys : State → Times → Bool → Text → List Text → ℕ → State × Result ℕ
  delete_keys s t exempt full_prefix [] removed = (s, ok removed)
  delete_keys s t exempt full_prefix (k ∷ ks) removed =
      let skipped = delete_keys s t exempt full_prefix ks removed in
      let deleted = and_then (d.delete s t k) (λ s' existed.
        delete_keys s' t exempt full_prefix ks (if existed then removed + 1 else removed)) in
      if is_hit exempt full_prefix k then deleted else skipped

  unfoldable pub invalidate_prefix : State → Times → Text → State × Result ℕ
  invalidate_prefix s t prefix =
      let full_prefix = key namespace prefix in
      and_then (d.keys_with_prefix s t full_prefix)
        (λ s' keys. delete_keys s' t (boundary_exempt prefix) full_prefix keys 0)

  unfoldable pub invalidate_all : State → Times → State × Result ℕ
  invalidate_all s t = invalidate_prefix s t []

  unfoldable pub len : State → Times → State × Result ℕ
  len s t = and_then (d.keys_with_prefix s t (key namespace [])) (λ s' keys. (s', ok (length keys)))

  unfoldable pub is_empty : State → Times → State × Result Bool
  is_empty s t = and_then (len s t) (λ s' n. (s', ok (n == 0)))

  -- The loop of `stale_paths`, with one clock reading for its reads.
  collect_stale : State → Times → ℕ → List Text → List Text → State × Result (List Text)
  unfolding add_stale
  collect_stale s t system_now [] stale = (s, ok stale)
  collect_stale s t system_now (k ∷ ks) stale = elim (strip_prefix (key namespace []) k) [
    | none ↦ collect_stale s t system_now ks stale
    | some path ↦
        and_then (get s t path)
          (λ s' found. collect_stale s' t system_now ks (add_stale found system_now path stale))
  ]

  unfoldable pub stale_paths : State → Times → ℕ → State × Result (List Text)
  unfolding collect_stale
  stale_paths s t system_now =
      and_then (d.keys_with_prefix s t (key namespace []))
        (λ s' keys. collect_stale s' t system_now keys [])

  unfoldable pub serve : State → Times → Text → ℕ → State × Result (Option (Text × Bool))
  serve s t path system_now =
      and_then (get s t path) (λ s' found. (s', ok (served system_now found)))

  unfoldable pub take_lease : State → Times → Text → State × Result IsrServeOutcome
  take_lease s t path =
      let (s', answer) =
        d.set_if_absent s t (lease_key namespace path) (codes "1") render_lease_ttl in
      (s', ok (leased answer))

  -- A request is one step: its two calls of the store take the same readings of the clock, and no
  -- call of another task comes between them.
  unfoldable pub serve_or_lease : State → Times → Text → State × Result IsrServeOutcome
  unfolding take_lease
  serve_or_lease s t path =
      and_then (get s t path)
        (λ s' found. elim found [ none ↦ take_lease s' t path | some e ↦ (s', ok (hit e)) ])

  unfoldable pub release_lease : State → Times → Text → State × Result Bool
  release_lease s t path = d.delete s t (lease_key namespace path)

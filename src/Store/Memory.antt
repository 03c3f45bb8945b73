-- ===== src/Store/Memory.antt =====
-- `MemoryStore` of store.rs. Each section under the write lock is one step; a time is a number of
-- nanoseconds, read by the caller's `Instant::now`.
pub mod Eviction
pub mod Room
pub mod Cases
pub mod Calls
pub mod Invariant
pub mod Reads
pub mod Counters
pub mod Leases
pub mod Races
pub mod Lawful
use krab_pub.Common.{
  ℕ, ◌+◌, ◌%◌, ◌^◌, Bool, true, false, not, ◌&&◌, ◌||◌, List, [], ◌∷◌, ◌++◌, map, Option, none,
  some, is_some, ltb, leb, ◌==◌, if◌then◌else◌, length, filter, saturating_add, Result, ok, err,
}
use krab_pub.Common.Text.{Text, text_eq, starts_with}
use krab_pub.Common.Text.Decimal.{u64_max, to_string, parse_u64}
use krab_pub.Store.Interface.{Times, contains, deadline, passed}
use krab_pub.Entries.{lookup, insert, remove, retain, contains_key}

pub record MemoryEntry : Type 0 where
  pub value : Text
  pub expires_at : Option ℕ

abbrev pub is_expired : ℕ → MemoryEntry → Bool
is_expired now e = passed e.expires_at now

abbrev pub Entries : Type 0
Entries = List (Text × MemoryEntry)

pub record MemoryStore : Type 0 where
  pub entries : Entries
  pub order : List Text
  pub writes_since_sweep : ℕ
  pub evictions : ℕ
  pub max_entries : ℕ

abbrev pub sweep_every_n_writes : ℕ
sweep_every_n_writes = 256

unfoldable pub with_max_entries : ℕ → MemoryStore
with_max_entries max_entries = record {
  entries = [];
  order = [];
  writes_since_sweep = 0;
  evictions = 0;
  max_entries = max_entries;
}

-- `order.retain`: keys that still have an entry, each at its first place.
unfoldable pub compact : Entries → List Text → List Text → List Text
compact entries seen [] = []
compact entries seen (k ∷ order) =
    let kept = k ∷ compact entries (k ∷ seen) order in
    let dropped = compact entries seen order in
    if contains_key k entries && not (contains k seen) then kept else dropped

unfoldable pub swept : MemoryStore → ℕ → MemoryStore
unfolding compact
swept s now =
    let live = retain (λ e. not (is_expired now e)) s.entries in
    record s { entries = live; order = compact live [] s.order; writes_since_sweep = 0 }

unfoldable pub sweep_if_due : MemoryStore → ℕ → MemoryStore
unfolding swept
sweep_if_due s now =
    if ltb (s.writes_since_sweep + 1) sweep_every_n_writes
    then record s { writes_since_sweep = s.writes_since_sweep + 1 }
    else swept s now

-- One round of the loop: the key taken from the front of the queue is evicted unless it is a ghost.
unfoldable pub evict_one : Text → Option MemoryEntry → Entries → ℕ → Entries × ℕ
evict_one candidate none entries evictions = (entries, evictions)
evict_one candidate (some e) entries evictions =
    (remove candidate entries, (evictions + 1) % 2 ^ 64)

unfoldable pub evict_loop : ℕ → List Text → Entries → ℕ → Entries × List Text × ℕ
unfolding evict_one
evict_loop max_entries [] entries evictions = (entries, [], evictions)
evict_loop max_entries (candidate ∷ order) entries evictions =
    let (entries', evictions') = evict_one candidate (lookup candidate entries) entries evictions in
    let rest = evict_loop max_entries order entries' evictions' in
    if ltb (length entries) max_entries then (entries, candidate ∷ order, evictions) else rest

unfoldable pub evict_for_capacity : MemoryStore → MemoryStore
unfolding evict_loop
evict_for_capacity s =
    let (entries, order, evictions) = evict_loop s.max_entries s.order s.entries s.evictions in
    if s.max_entries == 0
    then s
    else record s { entries = entries; order = order; evictions = evictions }

unfoldable pub room_for : MemoryStore → Text → MemoryStore
unfolding evict_for_capacity
room_for s key =
    let s' = evict_for_capacity s in
    if contains_key key s.entries then s else record s' { order = s'.order ++ key ∷ [] }

unfoldable pub insert_entry : MemoryStore → Text → MemoryEntry → MemoryStore
unfolding room_for
insert_entry s key entry =
    let s' = room_for s key in record s' { entries = insert key entry s'.entries }

-- The first half of `get`, under the read lock: a value, nothing, or an entry to be reaped.
pub data Found : Type 0 where
  absent : Found
  live : Text → Found
  stale : Found

unfoldable pub get_read : MemoryStore → Text → ℕ → Found
get_read s key now = elim (lookup key s.entries) [
  | none ↦ absent
  | some e ↦ if is_expired now e then stale else live e.value
]

-- Its second half, once the write lock is taken: the entry at the key goes, whatever it is by then.
unfoldable pub get_reap : MemoryStore → Text → MemoryStore
get_reap s key = record s { entries = remove key s.entries }

-- `get` with no other task between the two locks.
unfoldable pub get : MemoryStore → Text → ℕ → MemoryStore × Option Text
unfolding get_read get_reap
get s key now = elim (get_read s key now) [
  | absent ↦ (s, none)
  | live value ↦ (s, some value)
  | stale ↦ (get_reap s key, none)
]

unfoldable pub set : MemoryStore → Times → Text → Text → ℕ → MemoryStore
unfolding insert_entry sweep_if_due
set s t key value ttl =
    sweep_if_due (insert_entry s key (record { value = value; expires_at = deadline t.call ttl }))
      t.sweep

unfoldable pub add_to : MemoryStore → Times → Text → ℕ → ℕ → Option ℕ → MemoryStore × Result ℕ
unfolding insert_entry sweep_if_due
add_to s t key delta current expires_at =
    let next = saturating_add u64_max current delta in
    (
      sweep_if_due (insert_entry s key (record { value = to_string next; expires_at = expires_at }))
          t.sweep,
      ok next,
    )

unfoldable pub incr : MemoryStore → Times → Text → ℕ → MemoryStore × Result ℕ
incr s t key delta = elim (lookup key s.entries) [
  | none ↦ add_to s t key delta 0 none
  | some e ↦
      if is_expired t.call e
      then add_to (record s { entries = remove key s.entries }) t key delta 0 none
      else elim (parse_u64 e.value) [
        | none ↦ (s, err)
        | some current ↦ add_to s t key delta current e.expires_at
      ]
]

unfoldable pub incr_with_ttl : MemoryStore → Times → Text → ℕ → ℕ → MemoryStore × Result ℕ
incr_with_ttl s t key delta ttl = elim (lookup key s.entries) [
  | none ↦ add_to s t key delta 0 (deadline t.call ttl)
  | some e ↦
      if is_expired t.call e
      then add_to s t key delta 0 (deadline t.call ttl)
      else elim (parse_u64 e.value) [
        | none ↦ (s, err)
        | some current ↦ add_to s t key delta current e.expires_at
      ]
]

unfoldable pub expire : MemoryStore → ℕ → Text → ℕ → MemoryStore
expire s now key ttl = elim (lookup key s.entries) [
  | none ↦ s
  | some e ↦ record s {
    entries = insert key (record e { expires_at = deadline now ttl }) s.entries;
  }
]

unfoldable pub delete : MemoryStore → Text → MemoryStore × Bool
delete s key = (record s { entries = remove key s.entries }, contains_key key s.entries)

unfoldable pub keys_with_prefix : MemoryStore → ℕ → Text → List Text
keys_with_prefix s now prefix =
    map (λ kv. kv.0) (filter (λ kv. starts_with prefix kv.0 && not (is_expired now kv.1)) s.entries)

unfoldable pub holds : Option MemoryEntry → ℕ → Bool
holds none now = false
holds (some e) now = not (is_expired now e)

unfoldable pub set_if_absent : MemoryStore → Times → Text → Text → ℕ → MemoryStore × Bool
unfolding insert_entry sweep_if_due holds
set_if_absent s t key value ttl =
    let written =
      sweep_if_due (insert_entry s key (record { value = value; expires_at = deadline t.call ttl }))
        t.sweep in
    if holds (lookup key s.entries) t.call then (s, false) else (written, true)

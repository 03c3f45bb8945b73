-- ===== src/Store/Memory/Room.antt =====
-- The invariant of the in-process store, and how one insert keeps it at capacity.
use krab_pub.Common.{◌≤◌, ◌<◌, ◌≡◌, ◌⊎◌, true, false, ◌||◌, List, [], ◌∷◌, ◌++◌, length, arith}
use krab_pub.Common.Text.{Text, text_eq, text_eq_iff, text_eq_refl}
use krab_pub.Store.Interface.{contains}
use krab_pub.Entries.{contains_key, Distinct, lookup-insert, Distinct-insert, length-insert}
use krab_pub.Store.Memory.{
  MemoryEntry, Entries, MemoryStore, compact, evict_loop, room_for, insert_entry,
  sweep_every_n_writes,
}
use krab_pub.Store.Memory.Eviction.{
  Queued, Shrinks, evict_loop-length, evict_loop-Queued, Distinct-evict_loop, evict_loop-Shrinks,
}

pub record IsValid (s : MemoryStore) : Type 0 where
  pub distinct : Distinct s.entries
  pub queued : Queued s.entries s.order
  pub capped : (s.max_entries ≡ 0) ⊎ (length s.entries ≤ s.max_entries)
  pub due : s.writes_since_sweep < sweep_every_n_writes

contains-append :
    (k j : Text) (js : List Text) → contains k (js ++ j ∷ []) ≡ (contains k js || text_eq j k)
contains-append k j [] = ground arith
contains-append k j (i ∷ js) = ground (arith, contains-append k j js)

-- Compaction keeps a slot for every key with an entry that it has not seen.
pub contains-compact :
    (entries : Entries) (k : Text) (seen order : List Text)
    → contains_key k entries ≡ true
    → contains k order ≡ true
    → contains k seen ≡ false
    → contains k (compact entries seen order) ≡ true
unfolding compact
contains-compact entries k seen [] e h n = h
contains-compact entries k seen (j ∷ order) e h n = ground (
  arith,
  text_eq_iff j k,
  text_eq_refl k,
  contains-compact entries k seen order e,
  contains-compact entries k (j ∷ seen) order e,
)

module _ (s : MemoryStore) (key : Text) where
  pub room_for-Distinct : IsValid s → Distinct (room_for s key).entries
  unfolding room_for
  room_for-Distinct v =
      ground (arith, Distinct-evict_loop s.max_entries s.order s.entries s.evictions v.distinct)

  room_for-Queued : IsValid s → Queued (room_for s key).entries (room_for s key).order
  unfolding room_for
  room_for-Queued v k h = ground (
    arith,
    v.queued k,
    contains-append k key s.order,
    contains-append k key (evict_loop s.max_entries s.order s.entries s.evictions).1,
    evict_loop-Queued s.max_entries s.order s.entries s.evictions v.queued k,
  )

  room_for-contains :
      IsValid s → contains_key key s.entries ≡ false → contains key (room_for s key).order ≡ true
  unfolding room_for
  room_for-contains v h = ground (
    arith,
    contains-append key key s.order,
    contains-append key key (evict_loop s.max_entries s.order s.entries s.evictions).1,
    text_eq_refl key,
  )

  pub room_for-present : contains_key key s.entries ≡ true → room_for s key ≡ s
  unfolding room_for
  room_for-present h = ground arith

  room_for-room :
      IsValid s
      → contains_key key s.entries ≡ false
      → (s.max_entries ≡ 0) ⊎ (length (room_for s key).entries < s.max_entries)
  unfolding room_for
  room_for-room v h =
      ground (arith, evict_loop-length s.max_entries s.order s.entries s.evictions, v.queued)

  -- What was there is there, or was evicted; nothing else appears.
  pub room_for-Shrinks : Shrinks s.entries (room_for s key).entries
  unfolding room_for
  room_for-Shrinks k =
      ground (arith, evict_loop-Shrinks s.max_entries s.order s.entries s.evictions k)

  pub room_for-fields :
      ((room_for s key).max_entries ≡ s.max_entries)
      × ((room_for s key).writes_since_sweep ≡ s.writes_since_sweep)
  unfolding room_for
  room_for-fields = ground arith

pub insert_entry-IsValid :
    (s : MemoryStore) (key : Text) (e : MemoryEntry) → IsValid s → IsValid (insert_entry s key e)
unfolding insert_entry
insert_entry-IsValid s key e v = record {
  distinct = Distinct-insert key e _ (room_for-Distinct s key v);
  queued = λ k h. ground (
    arith,
    lookup-insert key k e (room_for s key).entries,
    room_for-Queued s key v k,
    text_eq_iff key k,
    room_for-contains s key v,
    room_for-present s key,
    v.queued key,
  );
  capped = ground (
    arith,
    length-insert key e (room_for s key).entries,
    room_for-room s key v,
    room_for-present s key,
    room_for-Shrinks s key key,
    room_for-fields s key,
    v.capped,
  );
  due = ground (arith, room_for-fields s key, v.due);
}

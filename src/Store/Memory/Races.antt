-- ===== src/Store/Memory/Races.antt =====
-- Where the in-process store differs from the order of its calls: `get` overtaken between its two
-- locks, and a key that was deleted and written again.
use krab_pub.Common.{
  ℕ, ◌+◌, ◌≤◌, ◌<◌, ◌≡◌, sym, false, List, [], ◌∷◌, ◌++◌, none, some, length, arith,
}
use krab_pub.Common.Text.{Text, text_eq_refl}
use krab_pub.Store.Interface.{Times, deadline, passed}
use krab_pub.Entries.{
  lookup, insert, remove, Distinct, lookup-insert, lookup-remove, Distinct-insert, Distinct-remove,
  length-insert, length-remove,
}
use krab_pub.Store.Memory.{
  MemoryEntry, MemoryStore, insert_entry, get_read, get_reap, get, set, delete,
  sweep_every_n_writes,
}
use krab_pub.Common.{◌≢◌}
use krab_pub.Common.Text.{text_eq_ne}
use krab_pub.Store.Memory.{stale}
use krab_pub.Store.Memory.Reads.{get-lookup, get-set}
use krab_pub.Store.Memory.Eviction.{evict_loop_roomy, evict_loop_full}
use krab_pub.Store.Memory.Room.{IsValid, room_for-fields}
use krab_pub.Store.Memory.Invariant.{get-IsValid}

get_stale :
    (s : MemoryStore) (key : Text) (now : ℕ)
    → get_read s key now ≡ stale
    → get s key now ≡ (get_reap s key, none)
unfolding get
get_stale s key now h = ground arith

get_reap-none : (s : MemoryStore) (key : Text) (now : ℕ) → (get (get_reap s key) key now).1 ≡ none
unfolding get_reap
get_reap-none s key now =
    ground (
      arith,
      get-lookup (get_reap s key) key now,
      lookup-remove key key s.entries,
      text_eq_refl key,
    )

get-keeps :
    (s : MemoryStore) (key value : Text) (now : ℕ)
    → (get s key now).1 ≡ some value
    → (get s key now).0 ≡ s
unfolding get
get-keeps s key value now h = ground arith

-- `get` drops its read lock before it takes the write lock and removes the key without looking
-- again. When its first half finds an expired entry, alone it removes that entry and reports
-- nothing; but if another task's `set` comes before its second half, the new value is lost at once.
-- In either order of the two whole calls the new value is kept until it expires.
pub get-overtaken :
    (s : MemoryStore) (t : Times) (key value : Text) (ttl now later : ℕ)
    → IsValid s
    → get_read s key now ≡ stale
    → t.sweep ≤ now
    → t.sweep ≤ later
    → passed (deadline t.call ttl) now ≡ false
    → passed (deadline t.call ttl) later ≡ false
    → (get s key now ≡ (get_reap s key, none))
      × ((get (get_reap (set s t key value ttl) key) key later).1 ≡ none)
      × ((get (get (set s t key value ttl) key now).0 key later).1 ≡ some value)
      × ((get (set (get s key now).0 t key value ttl) key later).1 ≡ some value)
get-overtaken s t key value ttl now later v found h k live live' = (
  get_stale s key now found,
  get_reap-none _ key later,
  rw (get-keeps (set s t key value ttl) key value now (kept s v now h live))
      (kept s v later k live'),
  kept (get s key now).0 (get-IsValid s key now v) later k live',
)
  where
    kept :
        (s : MemoryStore)
        → IsValid s
        → (at : ℕ) → t.sweep ≤ at
        → passed (deadline t.call ttl) at ≡ false
        → (get (set s t key value ttl) key at).1 ≡ some value
    kept s v at h live = ground (arith, (get-set s t key value ttl at key v h).0)

insert_entry-writes :
    (s : MemoryStore) (key : Text) (e : MemoryEntry)
    → (insert_entry s key e).writes_since_sweep ≡ s.writes_since_sweep
unfolding insert_entry
insert_entry-writes s key e = ground (arith, room_for-fields s key)

set_quiet :
    (s : MemoryStore) (t : Times) (key value : Text) (ttl : ℕ)
    → s.writes_since_sweep + 1 < sweep_every_n_writes
    → let e : MemoryEntry = record { value = value; expires_at = deadline t.call ttl } in
      set s t key value ttl
      ≡ record (insert_entry s key e) { writes_since_sweep = s.writes_since_sweep + 1 }
unfolding set
set_quiet s t key value ttl h =
    let e : MemoryEntry = record { value = value; expires_at = deadline t.call ttl } in
    ground (arith, insert_entry-writes s key e)

module _ (s : MemoryStore) (key : Text) (e : MemoryEntry) (new : lookup key s.entries ≡ none) where
  insert_entry_roomy :
      length s.entries < s.max_entries
      → insert_entry s key e
        ≡ record s { entries = insert key e s.entries; order = s.order ++ key ∷ [] }
  unfolding insert_entry
  insert_entry_roomy h =
      ground (arith, evict_loop_roomy s.max_entries s.order s.entries s.evictions)

  insert_entry_full :
      (c : Text) (order : List Text) (x : MemoryEntry)
      → Distinct s.entries
      → length s.entries ≡ s.max_entries
      → 0 < s.max_entries
      → s.order ≡ c ∷ order
      → lookup c s.entries ≡ some x
      → (insert_entry s key e).entries ≡ insert key e (remove c s.entries)
  unfolding insert_entry
  insert_entry_full c order x d full pos o found =
      ground (arith, evict_loop_full s.max_entries c order s.entries x s.evictions d full found)

-- A key that was deleted and written again keeps its old place in the insertion-order queue. In a
-- store at its cap with the key at the front of the queue, delete the key, write it again, and
-- write another, new key: the eviction takes the key that was written last but one, and leaves
-- every other entry, all of which are older. No sweep comes between.
pub delete-set-evicted :
    (s : MemoryStore) (t t' : Times) (key other value : Text) (queue : List Text)
    (old : MemoryEntry) (ttl : ℕ)
    → IsValid s
    → s.order ≡ key ∷ queue
    → lookup key s.entries ≡ some old
    → length s.entries ≡ s.max_entries
    → s.writes_since_sweep + 2 < sweep_every_n_writes
    → lookup other s.entries ≡ none
    → let again = set (delete s key).0 t key value ttl in
      let s' = set again t' other value ttl in
      (lookup key again.entries ≡ some (record { value = value; expires_at = deadline t.call ttl }))
      × (lookup key s'.entries ≡ none)
      × ((k : Text) → k ≢ key → k ≢ other → lookup k s'.entries ≡ lookup k s.entries)
unfolding delete
delete-set-evicted s t t' key other value queue old ttl v o f c w m =
    rw (once, set_quiet a t' other value ttl (omega arith))
      (
        ground (arith, lookup-insert key key lease (remove key s.entries), text_eq_refl key),
        rw evicted (
            ground (
              arith,
              lookup-insert other key lease' (remove key a.entries),
              lookup-remove key key a.entries,
              text_eq_refl key,
              text_eq_ne other key differ,
            )),
        λ k nk no. rw evicted (
            ground (
              arith,
              lookup-insert other k lease' (remove key a.entries),
              lookup-remove key k a.entries,
              lookup-insert key k lease (remove key s.entries),
              lookup-remove key k s.entries,
              text_eq_ne other k (λ e. no (sym e)),
              text_eq_ne key k (λ e. nk (sym e)),
            )),
      )
  where
    lease : MemoryEntry
    lease = record { value = value; expires_at = deadline t.call ttl }

    lease' : MemoryEntry
    lease' = record { value = value; expires_at = deadline t'.call ttl }

    -- After the second write of the key.
    a : MemoryStore
    a = record s {
      entries = insert key lease (remove key s.entries);
      order = s.order ++ key ∷ [];
      writes_since_sweep = s.writes_since_sweep + 1;
    }

    differ : other ≢ key
    differ e = cc

    gone : lookup key (remove key s.entries) ≡ none
    gone = ground (arith, lookup-remove key key s.entries, text_eq_refl key)

    shorter : length (remove key s.entries) + 1 ≡ length s.entries
    shorter = length-remove key old s.entries v.distinct f

    once : set (record s { entries = remove key s.entries }) t key value ttl ≡ a
    once = rw (
      set_quiet (record s { entries = remove key s.entries }) t key value ttl (omega arith),
      insert_entry_roomy (record s { entries = remove key s.entries }) key lease gone
          (omega (arith, shorter)),
    )

    evicted : (insert_entry a other lease').entries ≡ insert other lease' (remove key a.entries)
    evicted =
        insert_entry_full a other lease'
          (ground (
            arith,
            lookup-insert key other lease (remove key s.entries),
            lookup-remove key other s.entries,
            text_eq_ne key other (λ e. differ (sym e)),
          ))
          key (queue ++ key ∷ []) lease
          (Distinct-insert key lease _ (Distinct-remove key s.entries v.distinct))
          (ground (arith, shorter, gone, length-insert key lease (remove key s.entries)))
          (omega (arith, shorter)) (rw o)
          (ground (arith, lookup-insert key key lease (remove key s.entries), text_eq_refl key))

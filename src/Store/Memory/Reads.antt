-- ===== src/Store/Memory/Reads.antt =====
-- What can be read from the in-process store after a write.
use krab_pub.Common.{
  ℕ, ◌≤◌, ◌≡◌, ◌∙◌, refl, ◌⊎◌, Bool, true, false, not, ◌&&◌, [], ◌∷◌, map, filter, Option, none,
  some, is_some, if◌then◌else◌, length, arith, ltb, leb, ap, ◌≢◌,
}
use krab_pub.Common.Text.{Text, text_eq, text_eq_iff, text_eq_refl, text_eq_ne, starts_with}
use krab_pub.Store.Interface.{Times, contains, deadline, passed, Unique}
use krab_pub.Entries.{lookup, contains_key, Distinct, lookup-insert, lookup-remove, lookup-retain}
use krab_pub.Store.Memory.{
  MemoryEntry, Entries, MemoryStore, is_expired, sweep_if_due, room_for, insert_entry, get, set,
  delete,
}
use krab_pub.Store.Memory.{keys_with_prefix}
use krab_pub.Store.Memory.Eviction.{evict_loop_roomy}
use krab_pub.Store.Memory.Room.{IsValid, insert_entry-IsValid, room_for-Shrinks}

-- The value of an entry that has not expired.
abbrev pub live_value : ℕ → Option MemoryEntry → Option Text
live_value now none = none
live_value now (some e) = if is_expired now e then none else some e.value

pub get-lookup :
    (s : MemoryStore) (key : Text) (now : ℕ)
    → (get s key now).1 ≡ live_value now (lookup key s.entries)
unfolding get
get-lookup s key now = ground arith

-- A sweep removes nothing that can be read at or after its time.
pub sweep-live :
    (s : MemoryStore) (at now : ℕ) (k : Text)
    → Distinct s.entries
    → at ≤ now
    → live_value now (lookup k (sweep_if_due s at).entries) ≡ live_value now (lookup k s.entries)
unfolding sweep_if_due
sweep-live s at now k d h = ground (arith, lookup-retain (λ e. not (is_expired at e)) k s.entries d)

pub lookup-insert_entry :
    (s : MemoryStore) (key k : Text) (e : MemoryEntry)
    → lookup k (insert_entry s key e).entries
      ≡ (if text_eq key k then some e else lookup k (room_for s key).entries)
unfolding insert_entry
lookup-insert_entry s key k e = lookup-insert key k e (room_for s key).entries

-- Whether a write to the key has to evict: the key is new and the store is at its cap.
abbrev pub is_full : MemoryStore → Text → Bool
is_full s key =
    not (contains_key key s.entries) && ltb 0 s.max_entries && leb s.max_entries (length s.entries)

pub room_for-entries :
    (s : MemoryStore) (key : Text) → is_full s key ≡ false → (room_for s key).entries ≡ s.entries
unfolding room_for
room_for-entries s key h =
    ground (arith, evict_loop_roomy s.max_entries s.order s.entries s.evictions)

-- The write that `set`, the increments and `set_if_absent` make.
abbrev pub write : MemoryStore → Text → MemoryEntry → ℕ → MemoryStore
write s key e at = sweep_if_due (insert_entry s key e) at

module _ (s : MemoryStore) (key : Text) (e : MemoryEntry) (at now : ℕ) (v : IsValid s)
    (later : at ≤ now) where
  written :
      (k : Text)
      → (get (write s key e at) k now).1
        ≡ live_value now (if text_eq key k then some e else lookup k (room_for s key).entries)
  written k =
      get-lookup (write s key e at) k now
      ∙ sweep-live (insert_entry s key e) at now k (insert_entry-IsValid s key e v).distinct later
      ∙ ap (live_value now) (lookup-insert_entry s key k e)

  pub get-write_self : (get (write s key e at) key now).1 ≡ live_value now (some e)
  get-write_self = rw (written key, text_eq_refl key)

  -- Another key reads as before, or was evicted to make room in a full store.
  pub get-write_other :
      (k : Text)
      → key ≢ k
      → ((get (write s key e at) k now).1 ≡ (get s k now).1)
        ⊎ (((get (write s key e at) k now).1 ≡ none) × (is_full s key ≡ true))
  get-write_other k ne = ground (
    arith,
    written k,
    text_eq_ne key k ne,
    get-lookup s k now,
    room_for-Shrinks s key k,
    room_for-entries s key,
  )

-- `set`: until its ttl has passed the key reads as the value, and every other key reads as before,
-- unless a full store evicted it to make room for a new key.
pub get-set :
    (s : MemoryStore) (t : Times) (key value : Text) (ttl now : ℕ) (k : Text)
    → IsValid s
    → t.sweep ≤ now
    → let s' = set s t key value ttl in
      ((get s' key now).1 ≡ (if passed (deadline t.call ttl) now then none else some value))
      × (key ≢ k
          → ((get s' k now).1 ≡ (get s k now).1)
            ⊎ (((get s' k now).1 ≡ none) × (is_full s key ≡ true)))
unfolding set
get-set s t key value ttl now k v h =
    let e : MemoryEntry = record { value = value; expires_at = deadline t.call ttl } in
    (get-write_self s key e t.sweep now v h, get-write_other s key e t.sweep now v h k)

-- `delete` reports whether there was an entry, and takes away that key's only.
pub get-delete :
    (s : MemoryStore) (key k : Text) (now : ℕ)
    → ((delete s key).1 ≡ contains_key key s.entries)
      × ((get (delete s key).0 k now).1 ≡ (if text_eq key k then none else (get s k now).1))
unfolding delete
get-delete s key k now = (
  refl,
  ground
      (arith, get-lookup s k now, get-lookup (delete s key).0 k now, lookup-remove key k s.entries),
)

contains-listed :
    (now : ℕ) (prefix k : Text) (m : Entries)
    → Distinct m
    → contains k
        (map (λ kv. kv.0) (filter (λ kv. starts_with prefix kv.0 && not (is_expired now kv.1)) m))
      ≡ (starts_with prefix k && is_some (live_value now (lookup k m)))
unfolding lookup
contains-listed now prefix k [] d = ground arith
contains-listed now prefix k ((j, e) ∷ m) d =
    ground (arith, text_eq_iff j k, contains-listed now prefix k m d.1)

Unique-listed :
    (now : ℕ) (prefix : Text) (m : Entries)
    → Distinct m
    → Unique
        (map (λ kv. kv.0) (filter (λ kv. starts_with prefix kv.0 && not (is_expired now kv.1)) m))
Unique-listed now prefix [] d = tt
Unique-listed now prefix ((j, e) ∷ m) d =
    ground (arith, contains-listed now prefix j m d.1, Unique-listed now prefix m d.1)

pub Unique-keys_with_prefix :
    (s : MemoryStore) (now : ℕ) (prefix : Text) → IsValid s → Unique (keys_with_prefix s now prefix)
unfolding keys_with_prefix
Unique-keys_with_prefix s now prefix v = Unique-listed now prefix s.entries v.distinct

-- `keys_with_prefix` lists exactly the keys with the prefix that can be read.
pub contains-keys_with_prefix :
    (s : MemoryStore) (now : ℕ) (prefix k : Text)
    → IsValid s
    → contains k (keys_with_prefix s now prefix) ≡ (starts_with prefix k && is_some (get s k now).1)
unfolding keys_with_prefix
contains-keys_with_prefix s now prefix k v =
    ground (arith, get-lookup s k now, contains-listed now prefix k s.entries v.distinct)

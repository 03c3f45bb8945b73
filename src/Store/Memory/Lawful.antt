-- ===== src/Store/Memory/Lawful.antt =====
-- The in-process store fills the interface of store.rs, and keeps its laws at every capacity.
use krab_pub.Common.{
  ℕ, ◌≤◌, ◌≡◌, ◌≢◌, refl, ap, ◌⊎◌, inl, inr, Bool, true, false, not, Option, none, is_some,
  Bool-cases, ok, arith,
}
use krab_pub.Common.Text.{Text, text_eq_iff}
use krab_pub.Store.Interface.{Times, DistributedStore, IsLawful}
use krab_pub.Entries.{lookup, contains_key, lookup-remove}
use krab_pub.Store.Memory
use krab_pub.Store.Memory.{MemoryStore, holds}
use krab_pub.Store.Memory.Room.{IsValid}
use krab_pub.Store.Memory.Reads.{
  get-lookup, get-set, get-delete, contains-keys_with_prefix, Unique-keys_with_prefix,
}
use krab_pub.Store.Memory.Invariant.{get-IsValid, write-IsValid, remove-IsValid}

-- A `get` hands out its value and never fails; the other operations used here never fail either.
abbrev pub memory_store : DistributedStore
memory_store = record {
  State = MemoryStore;
  get = λ s t k. ((Memory.get s k t.call).0, ok (Memory.get s k t.call).1);
  set = λ s t k v ttl. (Memory.set s t k v ttl, ok tt);
  delete = λ s t k. ((Memory.delete s k).0, ok (Memory.delete s k).1);
  keys_with_prefix = λ s t p. (s, ok (Memory.keys_with_prefix s t.call p));
  set_if_absent = λ s t k v ttl.
      ((Memory.set_if_absent s t k v ttl).0, ok (Memory.set_if_absent s t k v ttl).1);
}

abbrev pub reads : MemoryStore → ℕ → Text → Option Text
reads s now k = (Memory.get s k now).1

pub reads_expire :
    (s : MemoryStore) (now later : ℕ) (k : Text)
    → now ≤ later
    → reads s now k ≡ none
    → reads s later k ≡ none
reads_expire s now later k h e = ground (arith, get-lookup s k now, get-lookup s k later)

pub get_reads :
    (s : MemoryStore) (t : Times) (k j : Text) (now : ℕ)
    → t.call ≤ now
    → reads (Memory.get s k t.call).0 now j ≡ reads s now j
unfolding Memory.get
get_reads s t k j now h = ground (
  arith,
  lookup-remove k j s.entries,
  text_eq_iff k j,
  get-lookup s j now,
  get-lookup (Memory.get_reap s k) j now,
)

pub lease_ok :
    (s : MemoryStore) (t : Times) (k v : Text) (ttl : ℕ)
    → (Memory.set_if_absent s t k v ttl).1 ≡ not (is_some (reads s t.call k))
unfolding Memory.set_if_absent
lease_ok s t k v ttl = ground (arith, get-lookup s k t.call)

pub lease_refused :
    (s : MemoryStore) (t : Times) (k v : Text) (ttl : ℕ)
    → is_some (reads s t.call k) ≡ true
    → (Memory.set_if_absent s t k v ttl).0 ≡ s
unfolding Memory.set_if_absent
lease_refused s t k v ttl h = ground (arith, get-lookup s k t.call)

pub lease_taken :
    (s : MemoryStore) (t : Times) (k v : Text) (ttl : ℕ)
    → is_some (reads s t.call k) ≡ false
    → (Memory.set_if_absent s t k v ttl).0 ≡ Memory.set s t k v ttl
unfolding Memory.set_if_absent Memory.set
lease_taken s t k v ttl h = elim (Bool-cases (holds (lookup k s.entries) t.call)) [
  | inl held ↦ absurd (ground (arith, get-lookup s k t.call))
  | inr free ↦ rw free
]

pub set_other :
    (s : MemoryStore) (t : Times) (k v j : Text) (ttl now : ℕ)
    → IsValid s
    → t.sweep ≤ now
    → k ≢ j
    → (reads (Memory.set s t k v ttl) now j ≡ reads s now j)
      ⊎ (reads (Memory.set s t k v ttl) now j ≡ none)
set_other s t k v j ttl now h later ne = ground (arith, (get-set s t k v ttl now j h later).1 ne)

pub delete_ok :
    (s : MemoryStore) (t : Times) (k : Text)
    → (b : Bool) × (ok (Memory.delete s k).1 ≡ ok b)
      × (is_some (reads s t.call k) ≡ true → b ≡ true)
unfolding Memory.delete
delete_ok s t k = (contains_key k s.entries, refl, λ h. ground (arith, get-lookup s k t.call))

pub set-IsValid :
    (s : MemoryStore) (t : Times) (k v : Text) (ttl : ℕ)
    → IsValid s
    → IsValid (Memory.set s t k v ttl)
unfolding Memory.set
set-IsValid s t k v ttl h = write-IsValid s k _ t.sweep h

pub delete-IsValid :
    (s : MemoryStore) (t : Times) (k : Text) → IsValid s → IsValid (Memory.delete s k).0
unfolding Memory.delete
delete-IsValid s t k h = remove-IsValid s k h

-- The store keeps every law of the interface, whatever its capacity.
abbrev pub memory_laws : IsLawful memory_store
memory_laws = record {
  Valid = IsValid;
  reads = reads;
  reads_expire = reads_expire;
  get_ok = λ s t k. refl;
  get_valid = λ s t k v. get-IsValid s k t.call v;
  get_reads = get_reads;
  set_ok = λ s t k v ttl. refl;
  set_valid = set-IsValid;
  set_self = λ s t k v ttl now h later. (get-set s t k v ttl now k h later).0;
  set_other = set_other;
  delete_ok = delete_ok;
  delete_valid = delete-IsValid;
  delete_reads = λ s t k j now. (get-delete s k j now).1;
  keys_ok = λ s t p h. (
    Memory.keys_with_prefix s t.call p,
    refl,
    Unique-keys_with_prefix s t.call p h,
    λ k. contains-keys_with_prefix s t.call p k h,
  );
  lease_ok = λ s t k v ttl. ap ok (lease_ok s t k v ttl);
  lease_refused = lease_refused;
  lease_taken = lease_taken;
}

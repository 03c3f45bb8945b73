-- ===== src/Store/Memory/Leases.antt =====
-- Leases in the in-process store: who holds a key that `set_if_absent` wrote.
use krab_pub.Common.{
  ℕ, ◌≡◌, ◌⊎◌, inl, inr, true, false, List, [], ◌∷◌, Option, some, Bool-cases, Option-cases, arith,
}
use krab_pub.Common.Text.{Text, text_eq, text_eq_iff}
use krab_pub.Store.Interface.{Times, deadline, passed}
use krab_pub.Entries.{lookup, remove, lookup-insert, lookup-remove, remove_absent, length-remove}
use krab_pub.Store.Memory.{
  MemoryEntry, MemoryStore, is_expired, insert_entry, get_reap, get, set, add_to, expire, delete,
  set_if_absent, holds,
}
use krab_pub.Common.{◌≢◌}
use krab_pub.Common.Text.{text_eq_ne}
use krab_pub.Store.Memory.Counters.{sweep-lookup, lookup-write}
use krab_pub.Store.Memory.Reads.{lookup-insert_entry, get-lookup, write, room_for-entries, is_full}
use krab_pub.Store.Memory.Room.{IsValid, insert_entry-IsValid}
use krab_pub.Store.Memory.Cases.{incr_cases, incr_with_ttl_cases}
use krab_pub.Store.Memory.Calls.{
  Call, gets, reaps, deletes, sets, leases, incrs, incrs_with_ttl, expires, step, run,
}
use krab_pub.Store.Memory.Invariant.{step-IsValid, set_if_absent-IsValid, remove-IsValid}

-- A call that may come in this state while a lease on the key is held. On the key itself: reads that
-- no other task overtakes between their two locks, and further attempts to take the lease. On any
-- other key: everything, unless it is a write that has to evict, of a new key to a store at its cap.
abbrev pub Respects : Text → MemoryStore → Call → Type 0
Respects key s (gets k) = Unit {0}
Respects key s (reaps k) = k ≢ key
Respects key s (deletes k) = k ≢ key
Respects key s (sets k value ttl) = (k ≢ key) × (is_full s k ≡ false)
Respects key s (leases k value ttl) = (k ≡ key) ⊎ (is_full s k ≡ false)
Respects key s (incrs k delta) = (k ≢ key) × (is_full s k ≡ false)
Respects key s (incrs_with_ttl k delta ttl) = (k ≢ key) × (is_full s k ≡ false)
Respects key s (expires k ttl) = k ≢ key

abbrev pub AllRespect : Text → Option ℕ → MemoryStore → List (Times × Call) → Type 0
AllRespect key until s [] = Unit {0}
AllRespect key until s ((t, c) ∷ cs) =
    Respects key s c
    × (passed until t.call ≡ false)
    × (passed until t.sweep ≡ false)
    × AllRespect key until (step s (t, c)) cs

-- A store that need not evict for a key need not once the key's own entry is gone.
is_full-remove :
    (s : MemoryStore) (k : Text)
    → IsValid s
    → is_full s k ≡ false
    → is_full (record s { entries = remove k s.entries }) k ≡ false
is_full-remove s k v h = elim (Option-cases (lookup k s.entries)) [
  | inl gone ↦ ground (arith, remove_absent k s.entries)
  | inr (x, there) ↦ ground (arith, length-remove k x s.entries v.distinct there, v.capped)
]

module _ (key : Text) (e : MemoryEntry) where
  abbrev Held : MemoryStore → Type 0
  Held s = lookup key s.entries ≡ some e

  remove-Held :
      (s : MemoryStore) (k : Text)
      → k ≢ key
      → Held s
      → Held (record s { entries = remove k s.entries })
  remove-Held s k ne h = ground (arith, lookup-remove k key s.entries, text_eq_ne k key ne)

  write-Held :
      (s : MemoryStore) (k : Text) (x : MemoryEntry) (at : ℕ)
      → IsValid s
      → k ≢ key
      → is_full s k ≡ false
      → is_expired at e ≡ false
      → Held s
      → Held (write s k x at)
  write-Held s k x at v ne room live h =
      sweep-lookup (insert_entry s k x) at key e (insert_entry-IsValid s k x v).distinct
        (ground
          (arith, lookup-insert_entry s k key x, text_eq_ne k key ne, room_for-entries s k room))
        live

  set_if_absent-Held :
      (s : MemoryStore) (t : Times) (value : Text) (ttl : ℕ)
      → is_expired t.call e ≡ false
      → Held s
      → set_if_absent s t key value ttl ≡ (s, false)
  unfolding set_if_absent
  set_if_absent-Held s t value ttl live h = rw (h, live)

  set_if_absent_same :
      (s : MemoryStore) (t : Times) (value : Text) (ttl : ℕ)
      → is_expired t.call e ≡ false
      → Held s
      → Held (set_if_absent s t key value ttl).0
  set_if_absent_same s t value ttl live h = rw (set_if_absent-Held s t value ttl live h) h

  set_if_absent_other :
      (s : MemoryStore) (t : Times) (k value : Text) (ttl : ℕ)
      → IsValid s
      → k ≢ key
      → is_full s k ≡ false
      → is_expired t.sweep e ≡ false
      → Held s
      → Held (set_if_absent s t k value ttl).0
  unfolding set_if_absent
  set_if_absent_other s t k value ttl v ne room live h =
      elim (Bool-cases (holds (lookup k s.entries) t.call)) [
        | inl held ↦ rw held h
        | inr free ↦ rw free (write-Held s k _ t.sweep v ne room live h)
      ]

  expire-Held :
      (s : MemoryStore) (now : ℕ) (k : Text) (ttl : ℕ)
      → k ≢ key
      → Held s
      → Held (expire s now k ttl)
  unfolding expire
  expire-Held s now k ttl ne h = elim (Option-cases (lookup k s.entries)) [
    | inl x ↦ rw (x, expire) h
    | inr (x, f) ↦
        rw (f, expire)
          (ground (
            arith,
            text_eq_ne k key ne,
            lookup-insert k key (record x { expires_at = deadline now ttl }) s.entries,
          ))
  ]

  lease-Held :
      (s : MemoryStore) (t : Times) (k value : Text) (ttl : ℕ)
      → IsValid s
      → (k ≡ key) ⊎ (is_full s k ≡ false)
      → is_expired t.call e ≡ false
      → is_expired t.sweep e ≡ false
      → Held s
      → Held (set_if_absent s t k value ttl).0
  lease-Held s t k value ttl v (inl same) a b h = rw same (set_if_absent_same s t value ttl a h)
  lease-Held s t k value ttl v (inr room) a b h = elim (Bool-cases (text_eq k key)) [
    | inl same ↦ rw ((text_eq_iff k key).0 same) (set_if_absent_same s t value ttl a h)
    | inr other ↦
        set_if_absent_other s t k value ttl v (λ p. ground (arith, text_eq_iff k key)) room b h
  ]

  step-Held :
      (s : MemoryStore) (t : Times) (c : Call)
      → IsValid s
      → Respects key s c
      → is_expired t.call e ≡ false
      → is_expired t.sweep e ≡ false
      → Held s
      → Held (step s (t, c))
  unfolding step get get_reap delete set add_to
  step-Held s t (gets k) v r a b h =
      ground (arith, lookup-remove k key s.entries, text_eq_iff k key)
  step-Held s t (reaps k) v r a b h = remove-Held s k r h
  step-Held s t (deletes k) v r a b h = remove-Held s k r h
  step-Held s t (sets k value ttl) v r a b h = write-Held s k _ t.sweep v r.0 r.1 b h
  step-Held s t (leases k value ttl) v r a b h = lease-Held s t k value ttl v r a b h
  step-Held s t (incrs k delta) v r a b h =
      incr_cases s t k delta (λ x. Held x.0) (λ _. write-Held s k _ t.sweep v r.0 r.1 b h)
        (λ _.
          write-Held _ k _ t.sweep (remove-IsValid s k v) r.0 (is_full-remove s k v r.1) b
            (remove-Held s k r.0 h))
        h (λ x n _ _ _. write-Held s k _ t.sweep v r.0 r.1 b h)
  step-Held s t (incrs_with_ttl k delta ttl) v r a b h =
      incr_with_ttl_cases s t k delta (λ x. Held x.0) ttl
        (λ _. write-Held s k _ t.sweep v r.0 r.1 b h) h
        (λ x n _ _ _. write-Held s k _ t.sweep v r.0 r.1 b h)
  step-Held s t (expires k ttl) v r a b h = expire-Held s t.call k ttl r h

  run-Held :
      (s : MemoryStore) (cs : List (Times × Call))
      → IsValid s
      → AllRespect key e.expires_at s cs
      → Held s
      → Held (run s cs)
  unfolding run
  run-Held s [] v r h = h
  run-Held s ((t, c) ∷ cs) v r h =
      run-Held (step s (t, c)) cs (step-IsValid s (t, c) v) r.3 (step-Held s t c v r.0 r.1 r.2 h)

set_if_absent_taken :
    (s : MemoryStore) (t : Times) (key value : Text) (ttl : ℕ)
    → IsValid s
    → passed (deadline t.call ttl) t.sweep ≡ false
    → (set_if_absent s t key value ttl).1 ≡ true
    → lookup key (set_if_absent s t key value ttl).0.entries
      ≡ some (record { value = value; expires_at = deadline t.call ttl })
unfolding set_if_absent
set_if_absent_taken s t key value ttl v live won =
    elim (Bool-cases (holds (lookup key s.entries) t.call)) [
      | inl held ↦ absurd (ground arith)
      | inr free ↦ rw free (lookup-write s key _ t.sweep v live)
    ]

-- Who takes the key with `set_if_absent` holds it, in a store with a cap too: after calls of other
-- tasks that come before the deadline, none of which deletes or writes the key, changes its expiry,
-- removes it as the second half of an overtaken `get`, or has to evict to make room in a full store,
-- the key still reads as the value, and every attempt to take it is refused and changes nothing.
pub set_if_absent-exclusive :
    (s : MemoryStore) (t t' : Times) (key value other : Text) (ttl ttl' : ℕ)
    (cs : List (Times × Call))
    → IsValid s
    → (set_if_absent s t key value ttl).1 ≡ true
    → passed (deadline t.call ttl) t.sweep ≡ false
    → AllRespect key (deadline t.call ttl) (set_if_absent s t key value ttl).0 cs
    → passed (deadline t.call ttl) t'.call ≡ false
    → let s' = run (set_if_absent s t key value ttl).0 cs in
      ((get s' key t'.call).1 ≡ some value) × (set_if_absent s' t' key other ttl' ≡ (s', false))
set_if_absent-exclusive s t t' key value other ttl ttl' cs v won live r later = (
  ground (arith, get-lookup s' key t'.call, held),
  set_if_absent-Held key lease s' t' other ttl' later held,
)
  where
    lease : MemoryEntry
    lease = record { value = value; expires_at = deadline t.call ttl }

    taken : MemoryStore
    taken = (set_if_absent s t key value ttl).0

    s' : MemoryStore
    s' = run taken cs

    held : lookup key s'.entries ≡ some lease
    held =
        run-Held key lease taken cs (set_if_absent-IsValid s t key value ttl v) r
          (set_if_absent_taken s t key value ttl v live won)

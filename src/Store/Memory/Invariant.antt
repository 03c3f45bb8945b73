-- ===== src/Store/Memory/Invariant.antt =====
-- Every operation of the in-process store keeps its invariant.
use krab_pub.Common.{
  ℕ, ◌+◌, ◌≡◌, ◌∙◌, refl, inl, inr, not, List, [], ◌∷◌, Option, none, Bool-cases, Option-cases,
  arith, ltb,
}
use krab_pub.Common.Text.{Text, text_eq_iff}
use krab_pub.Store.Interface.{Times, deadline}
use krab_pub.Entries.{
  lookup, remove, lookup-insert, lookup-remove, lookup-retain, Distinct-insert, Distinct-remove,
  Distinct-retain, length-insert, length-remove-le, length-retain-le,
}
use krab_pub.Store.Memory.{
  MemoryEntry, MemoryStore, is_expired, sweep_if_due, with_max_entries, insert_entry, get_reap, get,
  set, add_to, incr, incr_with_ttl, expire, delete, set_if_absent, holds, sweep_every_n_writes,
}
use krab_pub.Store.Memory.Calls.{
  Call, gets, reaps, deletes, sets, leases, incrs, incrs_with_ttl, expires, step, run,
}
use krab_pub.Store.Memory.Room.{IsValid, insert_entry-IsValid, contains-compact, room_for-fields}
use krab_pub.Store.Memory.Cases.{incr_cases, incr_with_ttl_cases}

sweep_if_due-IsValid : (s : MemoryStore) (now : ℕ) → IsValid s → IsValid (sweep_if_due s now)
unfolding sweep_if_due
sweep_if_due-IsValid s now v =
    elim (Bool-cases (ltb (s.writes_since_sweep + 1) sweep_every_n_writes)) [
      | inl early ↦ rw early (record {
        distinct = v.distinct;
        queued = v.queued;
        capped = v.capped;
        due = ground arith;
      })
      | inr due ↦ rw due (record {
        distinct = Distinct-retain _ s.entries v.distinct;
        queued = λ k h.
            contains-compact _ k [] s.order h
              (ground (
                arith,
                v.queued k,
                lookup-retain (λ e. not (is_expired now e)) k s.entries v.distinct,
              ))
              refl;
        capped = ground (arith, length-retain-le (λ e. not (is_expired now e)) s.entries, v.capped);
        due = ground arith;
      })
    ]

pub remove-IsValid :
    (s : MemoryStore) (key : Text)
    → IsValid s
    → IsValid (record s { entries = remove key s.entries })
remove-IsValid s key v = record {
  distinct = Distinct-remove key s.entries v.distinct;
  queued = λ k h. ground (arith, lookup-remove key k s.entries, v.queued k);
  capped = ground (arith, length-remove-le key s.entries, v.capped);
  due = v.due;
}

pub write-IsValid :
    (s : MemoryStore) (key : Text) (e : MemoryEntry) (now : ℕ)
    → IsValid s
    → IsValid (sweep_if_due (insert_entry s key e) now)
write-IsValid s key e now v = sweep_if_due-IsValid _ now (insert_entry-IsValid s key e v)

with_max_entries-IsValid : (max_entries : ℕ) → IsValid (with_max_entries max_entries)
unfolding with_max_entries lookup
with_max_entries-IsValid max_entries = record {
  distinct = tt;
  queued = λ k h. ground arith;
  capped = inr (omega arith);
  due = omega arith;
}

pub get-IsValid : (s : MemoryStore) (key : Text) (now : ℕ) → IsValid s → IsValid (get s key now).0
unfolding get
get-IsValid s key now v = ground (arith, remove-IsValid s key v)

pub add_to-IsValid :
    (s : MemoryStore) (t : Times) (key : Text) (delta current : ℕ) (at : Option ℕ)
    → IsValid s
    → IsValid (add_to s t key delta current at).0
unfolding add_to
add_to-IsValid s t key delta current at v = write-IsValid s key _ t.sweep v

incr-IsValid :
    (s : MemoryStore) (t : Times) (key : Text) (delta : ℕ)
    → IsValid s
    → IsValid (incr s t key delta).0
incr-IsValid s t key delta v =
    incr_cases s t key delta (λ r. IsValid r.0) (λ _. add_to-IsValid s t key delta 0 none v)
      (λ _. add_to-IsValid _ t key delta 0 none (remove-IsValid s key v)) v
      (λ e n _ _ _. add_to-IsValid s t key delta n e.expires_at v)

pub incr_with_ttl-IsValid :
    (s : MemoryStore) (t : Times) (key : Text) (delta ttl : ℕ)
    → IsValid s
    → IsValid (incr_with_ttl s t key delta ttl).0
incr_with_ttl-IsValid s t key delta ttl v =
    incr_with_ttl_cases s t key delta (λ r. IsValid r.0) ttl
      (λ _. add_to-IsValid s t key delta 0 (deadline t.call ttl) v) v
      (λ e n _ _ _. add_to-IsValid s t key delta n e.expires_at v)

pub set_if_absent-IsValid :
    (s : MemoryStore) (t : Times) (key value : Text) (ttl : ℕ)
    → IsValid s
    → IsValid (set_if_absent s t key value ttl).0
unfolding set_if_absent
set_if_absent-IsValid s t key value ttl v =
    elim (Bool-cases (holds (lookup key s.entries) t.call)) [
      | inl held ↦ rw held v
      | inr free ↦ rw free (write-IsValid s key _ t.sweep v)
    ]

expire-IsValid :
    (s : MemoryStore) (now : ℕ) (key : Text) (ttl : ℕ) → IsValid s → IsValid (expire s now key ttl)
unfolding expire
expire-IsValid s now key ttl v = elim (Option-cases (lookup key s.entries)) [
  | inl e ↦ rw (e, expire) v
  | inr (x, e) ↦
      let later : MemoryEntry = record x { expires_at = deadline now ttl } in
      rw (e, expire)
        (record {
          distinct = Distinct-insert key later s.entries v.distinct;
          queued = λ k h.
              ground (arith, lookup-insert key k later s.entries, text_eq_iff key k, v.queued k);
          capped = ground (arith, length-insert key later s.entries, v.capped);
          due = v.due;
        })
]

pub step-IsValid : (s : MemoryStore) (c : Times × Call) → IsValid s → IsValid (step s c)
unfolding step get_reap delete set
step-IsValid s (t, gets key) v = get-IsValid s key t.call v
step-IsValid s (t, reaps key) v = remove-IsValid s key v
step-IsValid s (t, deletes key) v = remove-IsValid s key v
step-IsValid s (t, sets key value ttl) v = write-IsValid s key _ t.sweep v
step-IsValid s (t, leases key value ttl) v = set_if_absent-IsValid s t key value ttl v
step-IsValid s (t, incrs key delta) v = incr-IsValid s t key delta v
step-IsValid s (t, incrs_with_ttl key delta ttl) v = incr_with_ttl-IsValid s t key delta ttl v
step-IsValid s (t, expires key ttl) v = expire-IsValid s t.call key ttl v

pub run-IsValid : (s : MemoryStore) (cs : List (Times × Call)) → IsValid s → IsValid (run s cs)
unfolding run
run-IsValid s [] v = v
run-IsValid s (c ∷ cs) v = run-IsValid (step s c) cs (step-IsValid s c v)

write-max_entries :
    (s : MemoryStore) (key : Text) (e : MemoryEntry) (now : ℕ)
    → (sweep_if_due (insert_entry s key e) now).max_entries ≡ s.max_entries
unfolding sweep_if_due insert_entry
write-max_entries s key e now = ground (arith, room_for-fields s key)

incrs-max_entries :
    (s : MemoryStore) (t : Times) (key : Text) (delta ttl : ℕ)
    → ((incr s t key delta).0.max_entries ≡ s.max_entries)
      × ((incr_with_ttl s t key delta ttl).0.max_entries ≡ s.max_entries)
unfolding add_to
incrs-max_entries s t key delta ttl = (
  incr_cases s t key delta (λ r. r.0.max_entries ≡ s.max_entries)
      (λ _. write-max_entries s key _ t.sweep) (λ _. write-max_entries _ key _ t.sweep) refl
      (λ e n _ _ _. write-max_entries s key _ t.sweep),
  incr_with_ttl_cases s t key delta (λ r. r.0.max_entries ≡ s.max_entries) ttl
      (λ _. write-max_entries s key _ t.sweep) refl
      (λ e n _ _ _. write-max_entries s key _ t.sweep),
)

pub step-max_entries : (s : MemoryStore) (c : Times × Call) → (step s c).max_entries ≡ s.max_entries
unfolding step get get_reap delete set set_if_absent expire
step-max_entries s (t, gets key) = ground arith
step-max_entries s (t, reaps key) = refl
step-max_entries s (t, deletes key) = refl
step-max_entries s (t, sets key value ttl) = write-max_entries s key _ t.sweep
step-max_entries s (t, leases key value ttl) = ground (
  arith,
  write-max_entries s key (record { value = value; expires_at = deadline t.call ttl }) t.sweep,
)
step-max_entries s (t, incrs key delta) = (incrs-max_entries s t key delta 0).0
step-max_entries s (t, incrs_with_ttl key delta ttl) = (incrs-max_entries s t key delta ttl).1
step-max_entries s (t, expires key ttl) = ground arith

pub run-max_entries :
    (s : MemoryStore) (cs : List (Times × Call)) → (run s cs).max_entries ≡ s.max_entries
unfolding run
run-max_entries s [] = refl
run-max_entries s (c ∷ cs) = run-max_entries (step s c) cs ∙ step-max_entries s c

-- After any sequence of calls, interleaved halves of `get` among them, a new store has no key
-- twice, a slot in the insertion-order queue for each of its keys, fewer than 256 writes since the
-- last sweep, and, unless the cap is 0, no more entries than the cap that it was built with.
pub run-with_max_entries-IsValid :
    (max_entries : ℕ) (cs : List (Times × Call))
    → let s = run (with_max_entries max_entries) cs in IsValid s × (s.max_entries ≡ max_entries)
unfolding with_max_entries
run-with_max_entries-IsValid max_entries cs = (
  run-IsValid (with_max_entries max_entries) cs (with_max_entries-IsValid max_entries),
  run-max_entries (with_max_entries max_entries) cs,
)

-- ===== src/Store/Memory/Counters.antt =====
-- Counters and leases of the in-process store: `incr_with_ttl` and `set_if_absent` over time.
use krab_pub.Common.{
  ℕ, ◌+◌, ◌≤◌, ◌≡◌, refl, false, not, List, [], ◌∷◌, Option, none, some, length, arith, Result, ok,
}
use krab_pub.Common.Text.{Text, text_eq_refl}
use krab_pub.Store.Interface.{Times, deadline, passed}
use krab_pub.Entries.{lookup, Distinct, lookup-retain}
use krab_pub.Store.Memory.{
  MemoryEntry, MemoryStore, is_expired, swept, sweep_if_due, insert_entry, get, add_to,
  incr_with_ttl,
}
use krab_pub.Common.{saturating_add, ap}
use krab_pub.Store.Memory.Invariant.{add_to-IsValid}
use krab_pub.Common.Text.Decimal.{u64_max, to_string, parse_u64-to_string}
use krab_pub.Store.Memory.Reads.{lookup-insert_entry, get-lookup, write}
use krab_pub.Store.Memory.Room.{IsValid, insert_entry-IsValid}

-- An entry that a sweep does not drop is still there.
pub sweep-lookup :
    (s : MemoryStore) (at : ℕ) (k : Text) (e : MemoryEntry)
    → Distinct s.entries
    → lookup k s.entries ≡ some e
    → is_expired at e ≡ false
    → lookup k (sweep_if_due s at).entries ≡ some e
unfolding sweep_if_due
sweep-lookup s at k e d h live =
    ground (arith, lookup-retain (λ e. not (is_expired at e)) k s.entries d)

pub lookup-write :
    (s : MemoryStore) (key : Text) (e : MemoryEntry) (at : ℕ)
    → IsValid s
    → is_expired at e ≡ false
    → lookup key (write s key e at).entries ≡ some e
lookup-write s key e at v live =
    sweep-lookup (insert_entry s key e) at key e (insert_entry-IsValid s key e v).distinct
      (ground (arith, lookup-insert_entry s key key e, text_eq_refl key)) live

-- A counter at `n` that expires at `until`.
abbrev pub counter : ℕ → Option ℕ → MemoryEntry
counter n until = record { value = to_string n; expires_at = until }

incr_with_ttl_fresh :
    (s : MemoryStore) (t : Times) (key : Text) (delta ttl : ℕ)
    → (get s key t.call).1 ≡ none
    → incr_with_ttl s t key delta ttl ≡ add_to s t key delta 0 (deadline t.call ttl)
unfolding incr_with_ttl
incr_with_ttl_fresh s t key delta ttl missing = ground (arith, get-lookup s key t.call)

-- Increments by one at the given times, and what each returned.
pub hits : MemoryStore → Text → ℕ → List Times → List (Result ℕ)
hits s key ttl [] = []
hits s key ttl (t ∷ ts) = let (s', r) = incr_with_ttl s t key 1 ttl in r ∷ hits s' key ttl ts

abbrev pub count_up : ℕ → List Times → List (Result ℕ)
count_up n [] = []
count_up n (t ∷ ts) = ok (n + 1) ∷ count_up (n + 1) ts

abbrev pub AllBefore : Option ℕ → List Times → Type 0
AllBefore until [] = Unit {0}
AllBefore until (t ∷ ts) =
    (passed until t.call ≡ false) × (passed until t.sweep ≡ false) × AllBefore until ts

module _ (key : Text) (ttl : ℕ) (until : Option ℕ) where
  add_to-counter :
      (s : MemoryStore) (t : Times) (n : ℕ)
      → IsValid s
      → n + 1 ≤ u64_max
      → passed until t.sweep ≡ false
      → let (s', r) = add_to s t key 1 n until in
        (r ≡ ok (n + 1)) × (lookup key s'.entries ≡ some (counter (n + 1) until))
  unfolding add_to
  add_to-counter s t n v small live =
      let total : saturating_add u64_max n 1 ≡ n + 1 = omega arith in
      rw total (refl, lookup-write s key (counter (n + 1) until) t.sweep v live)

  incr_with_ttl-counter :
      (s : MemoryStore) (t : Times) (n : ℕ)
      → lookup key s.entries ≡ some (counter n until)
      → n ≤ u64_max
      → passed until t.call ≡ false
      → incr_with_ttl s t key 1 ttl ≡ add_to s t key 1 n until
  unfolding incr_with_ttl
  incr_with_ttl-counter s t n c small live =
      rw (c, incr_with_ttl, live, parse_u64-to_string n small)

  hits-count_up :
      (s : MemoryStore) (n : ℕ) (ts : List Times)
      → IsValid s
      → lookup key s.entries ≡ some (counter n until)
      → n + length ts ≤ u64_max
      → AllBefore until ts
      → hits s key ttl ts ≡ count_up n ts
  unfolding hits
  hits-count_up s n [] v c small before = refl
  hits-count_up s n (t ∷ ts) v c small before =
      let (returned, c') = add_to-counter s t n v (omega arith) before.1 in
      rw (incr_with_ttl-counter s t n c (omega arith) before.0, returned)
        (ap (◌∷◌ (ok (n + 1))) (
          hits-count_up (add_to s t key 1 n until).0 (n + 1) ts (add_to-IsValid s t key 1 n until v)
            c' (omega arith) before.2))

-- A fixed window. From a key that cannot be read, increments by one that all come before the
-- deadline of the first return 1, 2, 3, ..., on any valid store and however often it is swept: the
-- deadline is the first one's and no later increment moves it.
pub hits-window :
    (s : MemoryStore) (key : Text) (ttl : ℕ) (t : Times) (ts : List Times)
    → IsValid s
    → (get s key t.call).1 ≡ none
    → 1 + length ts ≤ u64_max
    → passed (deadline t.call ttl) t.sweep ≡ false
    → AllBefore (deadline t.call ttl) ts
    → hits s key ttl (t ∷ ts) ≡ count_up 0 (t ∷ ts)
unfolding hits
hits-window s key ttl t ts v missing small swept before =
    let until = deadline t.call ttl in
    let (returned, c) = add_to-counter key ttl until s t 0 v (omega arith) swept in
    rw (first, returned)
      (ap (◌∷◌ (ok 1)) (
        hits-count_up key ttl until (add_to s t key 1 0 until).0 1 ts
          (add_to-IsValid s t key 1 0 until v) c small before))
  where
    first : incr_with_ttl s t key 1 ttl ≡ add_to s t key 1 0 (deadline t.call ttl)
    first = incr_with_ttl_fresh s t key 1 ttl missing

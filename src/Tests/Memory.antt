-- ===== src/Tests/Memory.antt =====
-- The in-process store at fixed inputs.
use krab_pub.Common.{inl, ℕ, ◌≡◌, refl, ◌≢◌, false, List, [], ◌∷◌, none, some, arith, ok}
use krab_pub.Common.Text.{Text, text_eq, starts_with, text_eq_iff}
use krab_pub.Common.Text.Decimal.{to_string, parse_u64, parse_u64-to_string}
use krab_pub.Store.Interface.{Times, contains}
use krab_pub.Entries.{lookup, insert, remove, retain}
use krab_pub.Store.Memory
use krab_pub.Store.Memory.{
  MemoryEntry, MemoryStore, with_max_entries, get, set, get_reap, get_read, delete, expire, incr,
  incr_with_ttl, keys_with_prefix, set_if_absent, stale,
}
use krab_pub.Store.Memory.Calls.{Call, deletes, sets, leases, incrs_with_ttl, step, run}
use krab_pub.Store.Memory.Room.{IsValid}
use krab_pub.Store.Memory.Invariant.{run-with_max_entries-IsValid}
use krab_pub.Store.Memory.Reads.{get-set, get-delete, contains-keys_with_prefix}
use krab_pub.Store.Memory.Counters.{hits, hits-window}
use krab_pub.Store.Memory.Leases.{set_if_absent-exclusive}
use krab_pub.Store.Memory.Races.{get-overtaken, delete-set-evicted}

program : Unit {0}
unfolding with_max_entries get set get_reap get_read delete expire incr incr_with_ttl
    keys_with_prefix set_if_absent Memory.add_to step run lookup insert remove retain text_eq
    starts_with to_string parse_u64
program = tt

abbrev at : ℕ → Times
at n = record { call = n; sweep = n }

abbrev a : Text
a = b'a' ∷ []

abbrev b : Text
b = b'b' ∷ []

abbrev c : Text
c = b'c' ∷ []

abbrev one : Text
one = b'1' ∷ []

abbrev history : List (Times × Call)
history = (at 1, sets a one 10) ∷ (at 2, leases b one 0) ∷ (at 3, incrs_with_ttl c 1 5) ∷ []

-- The third key evicts the first.
history_test :
    let s = run (with_max_entries 2) history in
    ((get s a 4).1 ≡ none)
    × ((get s b 4).1 ≡ some one)
    × ((get s c 4).1 ≡ some one)
    × ((get s c 8).1 ≡ none)
unfolding program
history_test = (refl, refl, refl, refl)

parse_u64-to_string_example : parse_u64 (to_string 1203) ≡ some 1203
parse_u64-to_string_example = parse_u64-to_string 1203 (omega arith)

run-with_max_entries-IsValid_example : IsValid (run (with_max_entries 2) history)
run-with_max_entries-IsValid_example = (run-with_max_entries-IsValid 2 history).0

empty-IsValid : IsValid (run (with_max_entries 0) [])
empty-IsValid = (run-with_max_entries-IsValid 0 []).0

abbrev two : MemoryStore
two = record {
  entries =
      (a, record { value = one; expires_at = some 10 })
      ∷ (b, record { value = one; expires_at = none })
      ∷ [];
  order = a ∷ b ∷ [];
  writes_since_sweep = 2;
  evictions = 0;
  max_entries = 2;
}

two-IsValid : IsValid two
unfolding program
two-IsValid = (run-with_max_entries-IsValid 2 ((at 0, sets a one 10) ∷ (at 0, sets b one 0) ∷ [])).0

get-set_example : (get (set two (at 3) b a 5) b 7).1 ≡ some a
get-set_example = (get-set two (at 3) b a 5 7 a two-IsValid (omega arith)).0

get-delete_example : (get (delete two a).0 a 5).1 ≡ none
unfolding text_eq
get-delete_example = (get-delete two a a 5).1

contains-keys_with_prefix_example : contains a (keys_with_prefix two 12 []) ≡ false
unfolding program
contains-keys_with_prefix_example = contains-keys_with_prefix two 12 [] a two-IsValid

hits-window_example : hits two c 10 (at 20 ∷ at 21 ∷ at 29 ∷ []) ≡ ok 1 ∷ ok 2 ∷ ok 3 ∷ []
unfolding program
hits-window_example =
    hits-window two c 10 (at 20) (at 21 ∷ at 29 ∷ []) two-IsValid refl (omega arith) refl
      (refl, refl, (refl, refl, tt))

b-ne-a : b ≢ a
unfolding text_eq
b-ne-a e = ground (arith, text_eq_iff b a)

c-ne-a : c ≢ a
unfolding text_eq
c-ne-a e = ground (arith, text_eq_iff c a)

-- In a full store of two entries: `b` is written again, then deleted to make room for `c`.
abbrev others : List (Times × Call)
others = (at 12, leases a b 9) ∷ (at 13, sets b c 0) ∷ (at 13, deletes b) ∷ (at 14, sets c c 0) ∷ []

abbrev after_others : MemoryStore
after_others = run (set_if_absent two (at 11) a c 10).0 others

set_if_absent-exclusive_example :
    ((get after_others a 15).1 ≡ some c)
    × (set_if_absent after_others (at 15) a b 3 ≡ (after_others, false))
unfolding program
set_if_absent-exclusive_example =
    set_if_absent-exclusive two (at 11) (at 15) a c b 10 3 others two-IsValid refl refl
      (
        inl refl,
        refl,
        refl,
        ((b-ne-a, refl), refl, refl, (b-ne-a, refl, refl, ((c-ne-a, refl), refl, refl, tt))),
      )
      refl

get-overtaken_example : (get (get_reap (set two (at 11) a c 10) a) a 13).1 ≡ none
unfolding program
get-overtaken_example =
    (get-overtaken two (at 11) a c 10 12 13 two-IsValid refl (omega arith) (omega arith) refl
      refl).1

delete-set-evicted_example :
    lookup a (set (set (delete two a).0 (at 3) a c 0) (at 4) c c 0).entries ≡ none
unfolding program
delete-set-evicted_example =
    (delete-set-evicted two (at 3) (at 4) a c c (b ∷ [])
      (record { value = one; expires_at = some 10 }) 0 two-IsValid refl refl refl (omega arith)
      refl).1

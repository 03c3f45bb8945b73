-- ===== src/Tests/Isr.antt =====
-- The page cache over the in-process store at fixed inputs. The codec of the tests tells two
-- entries apart by an invented notation.
use krab_pub.Common.{
  ℕ, zero, suc, length, take, drop, take-append_length, drop-append_length, ◌*◌, ◌≤◌, ◌≡◌, ◌≢◌,
  refl, true, [], ◌∷◌, ◌++◌, Option, none, some, arith, ok,
}
use krab_pub.Common.Text.{Text, codes, text_eq, starts_with, strip_prefix, text_eq_iff}
use krab_pub.Store.Interface.{Times}
use krab_pub.Entries.{lookup, insert, remove, retain}
use krab_pub.Store.Memory
use krab_pub.Store.Memory.{MemoryStore, with_max_entries}
use krab_pub.Store.Memory.Room.{IsValid}
use krab_pub.Store.Memory.Calls.{run}
use krab_pub.Store.Memory.Invariant.{run-with_max_entries-IsValid}
use krab_pub.Store.Memory.Lawful.{memory_store, memory_laws}
use krab_pub.Isr.{
  stale_by, Codec, IsrEntry, IsrPolicy, static, revalidate, on_demand, put, get, serve,
  invalidate_prefix, miss_acquired, miss_locked, key, lease_key, stale_paths, delete_keys, is_hit,
  boundary_exempt, is_stale, retention_for, nanos_per_sec,
}
use krab_pub.Isr.Invalidation.{get-invalidate_prefix, invalidate_prefix-foreign}
use krab_pub.Isr.Serving.{
  serve-put, serve-put_revalidate, retention-revalidate, outcomes, outcomes-single_flight,
}

-- An entry as numbers: policy, time, the length of the html, the html and the tag.
abbrev notation : IsrPolicy → Text
notation static = 0 ∷ 0 ∷ []
notation (revalidate max_age) = 1 ∷ max_age ∷ []
notation on_demand = 2 ∷ 0 ∷ []

abbrev policy_of : ℕ → ℕ → IsrPolicy
policy_of zero n = static
policy_of (suc zero) n = revalidate n
policy_of (suc (suc tag)) n = on_demand

abbrev encode : IsrEntry → Text
encode e = notation e.policy ++ e.generated_at ∷ length e.html ∷ (e.html ++ e.etag)

abbrev decode : Text → Option IsrEntry
decode (tag ∷ n ∷ at ∷ k ∷ rest) =
    some (record {
      html = take k rest;
      generated_at = at;
      policy = policy_of tag n;
      etag = drop k rest;
    })
decode _ = none

decode-encode : (e : IsrEntry) → decode (encode e) ≡ some e
decode-encode e = go e.policy
  where
    go :
        (p : IsrPolicy) → decode (encode (record e { policy = p })) ≡ some (record e { policy = p })
    go static = rw (take-append_length e.html e.etag, drop-append_length e.html e.etag)
    go (revalidate n) = rw (take-append_length e.html e.etag, drop-append_length e.html e.etag)
    go on_demand = rw (take-append_length e.html e.etag, drop-append_length e.html e.etag)

abbrev numbers : Codec
numbers = record {
  encode = encode;
  decode = decode;
  decode-encode = decode-encode;
  sha256_hex = λ html. html;
}

abbrev at : ℕ → Times
at n = record { call = n; sweep = n }

abbrev site : Text
site = codes "site"

abbrev blog : Text
blog = codes "/blog"

abbrev empty : MemoryStore
empty = record { entries = []; order = []; writes_since_sweep = 0; evictions = 0; max_entries = 9 }

empty-IsValid : IsValid empty
unfolding run with_max_entries
empty-IsValid = (run-with_max_entries-IsValid 9 []).0

program : Unit {0}
unfolding run with_max_entries put get serve invalidate_prefix stale_paths delete_keys is_hit
    boundary_exempt is_stale Memory.get Memory.set Memory.delete Memory.keys_with_prefix
    Memory.set_if_absent lookup insert remove retain text_eq starts_with strip_prefix key lease_key
    retention_for
program = tt

-- The page cache on the in-process store, with one page.
abbrev cached : MemoryStore
cached = (put memory_store numbers site empty (at 5) blog (codes "hi") on_demand 100).0

cached-IsValid : IsValid cached
unfolding put
cached-IsValid = memory_laws.set_valid empty (at 5) _ _ _ empty-IsValid

serve-put_example :
    (serve memory_store numbers site cached (at 9) blog 103).1 ≡ ok (some (codes "hi", true))
unfolding retention_for stale_by
serve-put_example =
    serve-put memory_store numbers site memory_laws empty (at 5) (at 9) blog (codes "hi") on_demand
      100 103 empty-IsValid (omega arith) refl

serve-put_revalidate_example :
    (serve memory_store numbers site
      (put memory_store numbers site empty (at 5) blog (codes "hi") (revalidate 4) 100).0
      (at 44)
      blog
      139).1
    ≡ ok (some (codes "hi", true))
serve-put_revalidate_example =
    serve-put_revalidate memory_store numbers site memory_laws empty (at 5) (at 44) blog
      (codes "hi") 4 100 139 empty-IsValid (omega arith) (omega arith) (omega arith)

retention-revalidate_example :
    (70 ≤ retention_for (revalidate 7)) × (3600 * nanos_per_sec ≤ retention_for (revalidate 7))
retention-revalidate_example = retention-revalidate 7 (omega arith)

get-invalidate_prefix_example :
    (get memory_store numbers site
      (invalidate_prefix memory_store numbers site cached (at 7) (codes "/blo")).0
      (at 9)
      blog).1
    ≡ (get memory_store numbers site cached (at 9) blog).1
unfolding program
get-invalidate_prefix_example =
    (get-invalidate_prefix memory_store numbers site memory_laws cached (at 7) (at 9) (codes "/blo")
      blog cached-IsValid (omega arith)).1

sit-ne-site : codes "sit" ≢ site
unfolding text_eq
sit-ne-site e = ground (arith, text_eq_iff (codes "sit") site)

invalidate_prefix-foreign_example :
    memory_laws.reads
      (invalidate_prefix memory_store numbers (codes "sit") cached (at 7) []).0
      9
      (key site blog)
    ≡ memory_laws.reads cached 9 (key site blog)
unfolding text_eq
invalidate_prefix-foreign_example =
    (invalidate_prefix-foreign memory_store numbers (codes "sit") memory_laws cached (at 7) [] site
        blog 9 cached-IsValid (omega arith) (omega arith) (omega arith)).0
      sit-ne-site

outcomes-single_flight_example :
    outcomes memory_store numbers site memory_laws blog empty (at 5 ∷ at 6 ∷ at 7 ∷ [])
    ≡ ok miss_acquired ∷ ok miss_locked ∷ ok miss_locked ∷ []
unfolding program
outcomes-single_flight_example =
    outcomes-single_flight memory_store numbers site memory_laws empty (at 5) (at 6 ∷ at 7 ∷ [])
      blog empty-IsValid refl refl (omega arith) (omega arith)

-- isr.rs: a prefix ends at a segment.
prefix_test :
    let s =
      (put memory_store numbers site cached
        (at 6)
        (codes "/blog-archive")
        (codes "ho")
        static
        100).0 in
    let r = invalidate_prefix memory_store numbers site s (at 7) blog in
    (r.1 ≡ ok 1) × ((stale_paths memory_store numbers site s (at 7) 200).1 ≡ ok (blog ∷ []))
unfolding program
prefix_test = (refl, refl)

-- ===== src/Store/Memory/Eviction.antt =====
-- What the eviction loop of store.rs does to the entries and to the insertion-order queue.
use krab_pub.Common.{
  ℕ, ◌+◌, ◌%◌, ◌^◌, ◌≤◌, ◌<◌, ◌≡◌, refl, ◌⊎◌, inl, true, List, [], ◌∷◌, none, some, if◌then◌else◌,
  length, arith,
}
use krab_pub.Common.Text.{Text, text_eq, text_eq_iff, text_eq_refl}
use krab_pub.Store.Interface.{contains}
use krab_pub.Entries.{
  lookup, remove, contains_key, Distinct, lookup-remove, Distinct-remove, length-remove-le,
  length-remove,
}
use krab_pub.Store.Memory.{MemoryEntry, Entries, evict_one, evict_loop}

-- Every key with an entry has a slot in the queue.
abbrev pub Queued : Entries → List Text → Type 0
Queued entries order = (k : Text) → contains_key k entries ≡ true → contains k order ≡ true

-- Nothing but evictions: an entry is what it was, or it is gone.
abbrev pub Shrinks : Entries → Entries → Type 0
Shrinks entries entries' =
    (k : Text) → (lookup k entries' ≡ lookup k entries) ⊎ (lookup k entries' ≡ none)

module _ (candidate : Text) (entries : Entries) (evictions : ℕ) where
  abbrev after_one : Entries
  after_one = (evict_one candidate (lookup candidate entries) entries evictions).0

  lookup-evict_one :
      (k : Text) → lookup k after_one ≡ (if text_eq candidate k then none else lookup k entries)
  unfolding evict_one
  lookup-evict_one k = ground (arith, text_eq_iff candidate k, lookup-remove candidate k entries)

  evict_one-Queued :
      (order : List Text) → Queued entries (candidate ∷ order) → Queued after_one order
  evict_one-Queued order q k h = ground (arith, lookup-evict_one k, q k)

  Distinct-evict_one : Distinct entries → Distinct after_one
  unfolding evict_one
  Distinct-evict_one d = ground (arith, Distinct-remove candidate entries d)

  length-evict_one-le : length after_one ≤ length entries
  unfolding evict_one
  length-evict_one-le = ground (arith, length-remove-le candidate entries)

Queued-nil : (entries : Entries) → Queued entries [] → length entries ≡ 0
unfolding lookup
Queued-nil [] q = refl
Queued-nil ((k, v) ∷ m) q = absurd (ground (arith, q k, text_eq_refl k))

module _ (max : ℕ) where
  -- The loop ends with room for one more entry: the queue cannot run out before.
  pub evict_loop-length :
      (order : List Text) (entries : Entries) (evictions : ℕ)
      → 0 < max
      → Queued entries order
      → length (evict_loop max order entries evictions).0 < max
  unfolding evict_loop
  evict_loop-length [] entries evictions h q = omega (arith, Queued-nil entries q)
  evict_loop-length (c ∷ order) entries evictions h q =
      let one = evict_one c (lookup c entries) entries evictions in
      ground (
        arith,
        evict_loop-length order one.0 one.1 h (evict_one-Queued c entries evictions order q),
      )

  pub evict_loop-Queued :
      (order : List Text) (entries : Entries) (evictions : ℕ)
      → Queued entries order
      → let r = evict_loop max order entries evictions in Queued r.0 r.1
  unfolding evict_loop
  evict_loop-Queued [] entries evictions q k h = q k h
  evict_loop-Queued (c ∷ order) entries evictions q k h =
      let one = evict_one c (lookup c entries) entries evictions in
      ground (
        arith,
        q k,
        evict_loop-Queued order one.0 one.1 (evict_one-Queued c entries evictions order q) k,
      )

  pub Distinct-evict_loop :
      (order : List Text) (entries : Entries) (evictions : ℕ)
      → Distinct entries
      → Distinct (evict_loop max order entries evictions).0
  unfolding evict_loop
  Distinct-evict_loop [] entries evictions d = d
  Distinct-evict_loop (c ∷ order) entries evictions d =
      let one = evict_one c (lookup c entries) entries evictions in
      ground
        (arith, Distinct-evict_loop order one.0 one.1 (Distinct-evict_one c entries evictions d))

  pub evict_loop-Shrinks :
      (order : List Text) (entries : Entries) (evictions : ℕ)
      → Shrinks entries (evict_loop max order entries evictions).0
  unfolding evict_loop
  evict_loop-Shrinks [] entries evictions k = inl refl
  evict_loop-Shrinks (c ∷ order) entries evictions k =
      let one = evict_one c (lookup c entries) entries evictions in
      ground (arith, evict_loop-Shrinks order one.0 one.1 k, lookup-evict_one c entries evictions k)

  pub evict_loop_roomy :
      (order : List Text) (entries : Entries) (evictions : ℕ)
      → length entries < max
      → evict_loop max order entries evictions ≡ (entries, order, evictions)
  unfolding evict_loop
  evict_loop_roomy [] entries evictions h = refl
  evict_loop_roomy (c ∷ order) entries evictions h = ground arith

  -- At the cap, one entry goes: the first in the queue, if it has not gone already.
  pub evict_loop_full :
      (c : Text) (order : List Text) (entries : Entries) (e : MemoryEntry) (evictions : ℕ)
      → Distinct entries
      → length entries ≡ max
      → lookup c entries ≡ some e
      → evict_loop max (c ∷ order) entries evictions
        ≡ (remove c entries, order, (evictions + 1) % 2 ^ 64)
  unfolding evict_loop
  evict_loop_full c order entries e evictions d full found = ground (
    arith,
    length-remove c e entries d found,
    evict_loop_roomy order (remove c entries) ((evictions + 1) % 2 ^ 64),
  )

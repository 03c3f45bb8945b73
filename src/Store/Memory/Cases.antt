-- ===== src/Store/Memory/Cases.antt =====
-- The branches of the two increments of the in-process store.
use krab_pub.Common.{ℕ, ◌≡◌, inl, inr, false, none, some, Bool-cases, Option-cases, Result, err}
use krab_pub.Common.Text.{Text}
use krab_pub.Common.Text.Decimal.{parse_u64}
use krab_pub.Store.Interface.{Times, deadline}
use krab_pub.Entries.{lookup, remove}
use krab_pub.Store.Memory.{MemoryEntry, MemoryStore, is_expired, add_to, incr, incr_with_ttl, holds}

-- The branches of the two increments; `fresh` is what an expired or missing key leads to.
module _ {ℓ} (s : MemoryStore) (t : Times) (key : Text) (delta : ℕ)
    (P : MemoryStore × Result ℕ → Type ℓ) where
  abbrev Numeric : Type ℓ
  Numeric =
      (e : MemoryEntry) (current : ℕ)
      → lookup key s.entries ≡ some e
      → is_expired t.call e ≡ false
      → parse_u64 e.value ≡ some current
      → P (add_to s t key delta current e.expires_at)

  pub incr_cases :
      (lookup key s.entries ≡ none → P (add_to s t key delta 0 none))
      → (holds (lookup key s.entries) t.call ≡ false
          → P (add_to (record s { entries = remove key s.entries }) t key delta 0 none))
      → P (s, err)
      → Numeric
      → P (incr s t key delta)
  unfolding incr holds
  incr_cases missing expired refused numeric = elim (Option-cases (lookup key s.entries)) [
    | inl e ↦ rw (e, incr) (missing e)
    | inr (x, e) ↦ elim (Bool-cases (is_expired t.call x)) [
      | inl old ↦ rw (e, incr, old) (expired (rw (e, holds, old)))
      | inr new ↦ elim (Option-cases (parse_u64 x.value)) [
        | inl p ↦ rw (e, incr, new, p) refused
        | inr (n, p) ↦ rw (e, incr, new, p) (numeric x n e new p)
      ]
    ]
  ]

  pub incr_with_ttl_cases :
      (ttl : ℕ)
      → (holds (lookup key s.entries) t.call ≡ false
          → P (add_to s t key delta 0 (deadline t.call ttl)))
      → P (s, err)
      → Numeric
      → P (incr_with_ttl s t key delta ttl)
  unfolding incr_with_ttl holds
  incr_with_ttl_cases ttl fresh refused numeric = elim (Option-cases (lookup key s.entries)) [
    | inl e ↦ rw (e, incr_with_ttl) (fresh (rw (e, holds)))
    | inr (x, e) ↦ elim (Bool-cases (is_expired t.call x)) [
      | inl old ↦ rw (e, incr_with_ttl, old) (fresh (rw (e, holds, old)))
      | inr new ↦ elim (Option-cases (parse_u64 x.value)) [
        | inl p ↦ rw (e, incr_with_ttl, new, p) refused
        | inr (n, p) ↦ rw (e, incr_with_ttl, new, p) (numeric x n e new p)
      ]
    ]
  ]

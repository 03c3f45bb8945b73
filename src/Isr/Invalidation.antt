-- ===== src/Isr/Invalidation.antt =====
-- What `invalidate_prefix` of isr.rs removes, and what it leaves.
use krab_pub.Common.{
  ℕ, ◌+◌, ◌≤◌, ◌≡◌, ◌≢◌, refl, ap, ◌∙◌, inl, inr, Bool, true, false, ◌&&◌, List, [], ◌∷◌, none,
  if◌then◌else◌, is_some, Bool-cases, length, filter, ok, arith,
}
use krab_pub.Common.Text.{Text, text_eq_iff, text_eq_refl, starts_with}
use krab_pub.Store.Interface.{Times, DistributedStore, IsLawful, contains, Unique}
use krab_pub.Isr.{
  Codec, key, lease_key, boundary_exempt, is_hit, get, delete_keys, invalidate_prefix, decoded,
}
use krab_pub.Isr.Keys.{IsPlain, covers, hit-covers, starts_with-key_foreign, starts_with-key_lease}

module _ (d : DistributedStore) (codec : Codec) (namespace : Text) (l : IsLawful d) where
  open d use {State}

  abbrev AllRead : Times → State → List Text → Type 0
  AllRead t s [] = Unit {0}
  AllRead t s (k ∷ ks) = (is_some (l.reads s t.call k) ≡ true) × AllRead t s ks

  AllRead-delete :
      (t : Times) (s : State) (k : Text) (ks : List Text)
      → contains k ks ≡ false
      → AllRead t s ks
      → AllRead t (d.delete s t k).0 ks
  AllRead-delete t s k [] h r = tt
  AllRead-delete t s k (j ∷ ks) h r = (
    ground (arith, l.delete_reads s t k j t.call, text_eq_iff j k, text_eq_iff k j),
    AllRead-delete t s k ks (ground arith) r.1,
  )

  module _ (t : Times) (exempt : Bool) (full_prefix : Text) where
    -- The loop deletes the listed keys that are hit, and counts them.
    delete_keys_lem :
        (s : State) (ks : List Text) (removed : ℕ)
        → Unique ks
        → AllRead t s ks
        → let r = delete_keys d codec namespace s t exempt full_prefix ks removed in
          (r.1 ≡ ok (removed + length (filter (is_hit exempt full_prefix) ks)))
          × ((j : Text) (now : ℕ)
              → l.reads r.0 now j
                ≡ (if contains j ks && is_hit exempt full_prefix j then none else l.reads s now j))
    unfolding delete_keys
    delete_keys_lem s [] removed u r = (ap ok (omega arith), λ j now. refl)
    delete_keys_lem s (k ∷ ks) removed u r = elim (Bool-cases (is_hit exempt full_prefix k)) [
      | inl hit ↦
          let (b, answered, found) = l.delete_ok s t k in
          let ih =
            delete_keys_lem (d.delete s t k).0 ks (removed + 1) u.1
              (AllRead-delete t s k ks u.0 r.1) in
          rw (hit, answered, found r.0)
            (
              ih.0 ∙ ap ok (omega arith),
              λ j now. ground (arith, ih.1 j now, l.delete_reads s t k j now, text_eq_iff k j),
            )
      | inr miss ↦
          let ih = delete_keys_lem s ks removed u.1 r.1 in
          rw miss (ih.0, λ j now. ground (arith, ih.1 j now, text_eq_iff k j))
    ]

  AllRead-listed :
      (t : Times) (s : State) (prefix : Text) (ks : List Text)
      → ((k : Text) → contains k ks ≡ true → is_some (l.reads s t.call k) ≡ true)
      → AllRead t s ks
  AllRead-listed t s prefix [] h = tt
  AllRead-listed t s prefix (k ∷ ks) h = (
    h k (ground (arith, text_eq_refl k)),
    AllRead-listed t s prefix ks (λ j m. h j (ground arith)),
  )

  -- Every key reads as before, but those that begin like a key of the prefix and are hit.
  invalidate_prefix-reads :
      (s : State) (t : Times) (prefix k : Text) (now : ℕ)
      → l.Valid s
      → t.call ≤ now
      → let full_prefix = key namespace prefix in
        let r = invalidate_prefix d codec namespace s t prefix in
        ((n : ℕ) × (r.1 ≡ ok n))
        × (l.reads r.0 now k ≡ (
            if starts_with full_prefix k && is_hit (boundary_exempt prefix) full_prefix k
            then none
            else l.reads s now k))
  unfolding invalidate_prefix
  invalidate_prefix-reads s t prefix k now v h =
      let (ks, listed, unique, exact) = l.keys_ok s t (key namespace prefix) v in
      let loop =
        delete_keys_lem t (boundary_exempt prefix) (key namespace prefix) s ks 0 unique
          (AllRead-listed t s (key namespace prefix) ks (λ j m. ground (arith, exact j))) in
      rw listed
        ((_, loop.0), ground (arith, loop.1 k now, exact k, l.reads_expire s t.call now k h))

  pub get-reads :
      (s : State) (t : Times) (path : Text)
      → (get d codec namespace s t path).1
        ≡ ok (decoded codec (l.reads s t.call (key namespace path)))
  unfolding get
  get-reads s t path = rw (l.get_ok s t (key namespace path))

  -- `invalidate_prefix` succeeds. Afterwards a page of the cache is a miss if the prefix is empty or
  -- ends with a slash and the path begins with it, or if the path is the prefix or goes on after it
  -- with a slash; every other page is served as before.
  pub get-invalidate_prefix :
      (s : State) (t t' : Times) (prefix path : Text)
      → l.Valid s
      → t.call ≤ t'.call
      → let r = invalidate_prefix d codec namespace s t prefix in
        ((n : ℕ) × (r.1 ≡ ok n))
        × ((get d codec namespace r.0 t' path).1
            ≡ (if covers prefix path then ok none else (get d codec namespace s t' path).1))
  get-invalidate_prefix s t t' prefix path v h =
      let after = invalidate_prefix d codec namespace s t prefix in
      let (done, read) = invalidate_prefix-reads s t prefix (key namespace path) t'.call v h in
      (
        done,
        ground (
          arith,
          read,
          hit-covers namespace prefix path,
          get-reads after.0 t' path,
          get-reads s t' path,
        ),
      )

  -- It leaves the pages of every other namespace alone, one that begins with this namespace
  -- included, and the render leases of this and every other namespace, as long as no namespace
  -- holds a separator.
  pub invalidate_prefix-foreign :
      (s : State) (t : Times) (prefix other path : Text) (now : ℕ)
      → l.Valid s
      → t.call ≤ now
      → IsPlain namespace
      → IsPlain other
      → let after = (invalidate_prefix d codec namespace s t prefix).0 in
        (namespace ≢ other → l.reads after now (key other path) ≡ l.reads s now (key other path))
        × (l.reads after now (lease_key other path) ≡ l.reads s now (lease_key other path))
  invalidate_prefix-foreign s t prefix other path now v h p q = (
    λ ne. ground (
      arith,
      (invalidate_prefix-reads s t prefix (key other path) now v h).1,
      starts_with-key_foreign namespace other prefix path p q ne,
    ),
    ground (
      arith,
      (invalidate_prefix-reads s t prefix (lease_key other path) now v h).1,
      starts_with-key_lease namespace other prefix path p q,
    ),
  )

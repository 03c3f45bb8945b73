-- ===== src/Store/Interface.antt =====
-- `trait DistributedStore` of store.rs, as far as the page cache uses it, and what its
-- documentation promises of a store that answers.
use krab_pub.Common.{
  ℕ, ◌+◌, ◌≤◌, ◌≡◌, ◌≢◌, ◌⊎◌, Bool, true, false, not, ◌&&◌, ◌||◌, List, [], ◌∷◌, leb, ◌==◌, Option,
  none, some, is_some, if◌then◌else◌, Result, ok,
}
use krab_pub.Common.Text.{Text, text_eq, starts_with}

-- The readings of `Instant::now` in one call: the operation's own, and a later one for upkeep.
pub record Times : Type 0 where
  pub call : ℕ
  pub sweep : ℕ

abbrev pub contains : Text → List Text → Bool
contains k [] = false
contains k (j ∷ js) = text_eq j k || contains k js

-- No text twice.
abbrev pub Unique : List Text → Type 0
Unique [] = Unit {0}
Unique (k ∷ ks) = (contains k ks ≡ false) × Unique ks

-- When what is written at `now` with this ttl expires; a ttl of 0 means never.
abbrev pub deadline : ℕ → ℕ → Option ℕ
deadline now ttl = if ttl == 0 then none else some (now + ttl)

abbrev pub passed : Option ℕ → ℕ → Bool
passed none now = false
passed (some at) now = leb at now

pub record DistributedStore : Type 1 where
  pub State : Type 0
  pub get : State → Times → Text → State × Result (Option Text)
  pub set : State → Times → Text → Text → ℕ → State × Result (Unit {0})
  pub delete : State → Times → Text → State × Result Bool
  pub keys_with_prefix : State → Times → Text → State × Result (List Text)
  pub set_if_absent : State → Times → Text → Text → ℕ → State × Result Bool

module _ (d : DistributedStore) where
  open d use {State, get, set, delete, keys_with_prefix, set_if_absent}

  -- `reads s now k` is the value that the key shows at a time, if nothing is written before.
  pub record IsLawful : Type 1 where
    pub Valid : State → Type 0
    pub reads : State → ℕ → Text → Option Text
    pub reads_expire :
        (s : State) (now later : ℕ) (k : Text)
        → now ≤ later
        → reads s now k ≡ none
        → reads s later k ≡ none
    pub get_ok : (s : State) (t : Times) (k : Text) → (get s t k).1 ≡ ok (reads s t.call k)
    pub get_valid : (s : State) (t : Times) (k : Text) → Valid s → Valid (get s t k).0
    pub get_reads :
        (s : State) (t : Times) (k j : Text) (now : ℕ)
        → t.call ≤ now
        → reads (get s t k).0 now j ≡ reads s now j
    pub set_ok : (s : State) (t : Times) (k v : Text) (ttl : ℕ) → (set s t k v ttl).1 ≡ ok tt
    pub set_valid :
        (s : State) (t : Times) (k v : Text) (ttl : ℕ) → Valid s → Valid (set s t k v ttl).0
    pub set_self :
        (s : State) (t : Times) (k v : Text) (ttl now : ℕ)
        → Valid s
        → t.sweep ≤ now
        → reads (set s t k v ttl).0 now k
          ≡ (if passed (deadline t.call ttl) now then none else some v)
    pub set_other :
        (s : State) (t : Times) (k v j : Text) (ttl now : ℕ)
        → Valid s
        → t.sweep ≤ now
        → k ≢ j
        → (reads (set s t k v ttl).0 now j ≡ reads s now j)
          ⊎ (reads (set s t k v ttl).0 now j ≡ none)
    pub delete_ok :
        (s : State) (t : Times) (k : Text)
        → (b : Bool) × ((delete s t k).1 ≡ ok b) × (is_some (reads s t.call k) ≡ true → b ≡ true)
    pub delete_valid : (s : State) (t : Times) (k : Text) → Valid s → Valid (delete s t k).0
    pub delete_reads :
        (s : State) (t : Times) (k j : Text) (now : ℕ)
        → reads (delete s t k).0 now j ≡ (if text_eq k j then none else reads s now j)
    pub keys_ok :
        (s : State) (t : Times) (p : Text)
        → Valid s
        → (ks : List Text) × (keys_with_prefix s t p ≡ (s, ok ks))
          × Unique ks
          × ((k : Text) → contains k ks ≡ (starts_with p k && is_some (reads s t.call k)))
    pub lease_ok :
        (s : State) (t : Times) (k v : Text) (ttl : ℕ)
        → (set_if_absent s t k v ttl).1 ≡ ok (not (is_some (reads s t.call k)))
    pub lease_refused :
        (s : State) (t : Times) (k v : Text) (ttl : ℕ)
        → is_some (reads s t.call k) ≡ true
        → (set_if_absent s t k v ttl).0 ≡ s
    pub lease_taken :
        (s : State) (t : Times) (k v : Text) (ttl : ℕ)
        → is_some (reads s t.call k) ≡ false
        → (set_if_absent s t k v ttl).0 ≡ (set s t k v ttl).0

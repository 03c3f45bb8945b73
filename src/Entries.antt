-- ===== src/Entries.antt =====
-- `HashMap<String, V>` as far as the modelled code uses it: one entry to a key, in no order that the code
-- relies on.
use krab_pub.Common.{
  suc, ◌+◌, ◌≤◌, ◌≡◌, refl, Bool, false, List, [], ◌∷◌, Option, none, some, is_some, if◌then◌else◌,
  length, arith,
}
use krab_pub.Common.Text.{Text, text_eq, text_eq_iff}

module _ {ℓ} {V : Type ℓ} where
  unfoldable pub lookup : Text → List (Text × V) → Option V
  lookup k [] = none
  lookup k ((j, v) ∷ m) = if text_eq j k then some v else lookup k m

  unfoldable pub insert : Text → V → List (Text × V) → List (Text × V)
  insert k v [] = (k, v) ∷ []
  insert k v ((j, w) ∷ m) = if text_eq j k then (k, v) ∷ m else (j, w) ∷ insert k v m

  unfoldable pub remove : Text → List (Text × V) → List (Text × V)
  remove k [] = []
  remove k ((j, w) ∷ m) = let rest = remove k m in if text_eq j k then rest else (j, w) ∷ rest

  unfoldable pub retain : (V → Bool) → List (Text × V) → List (Text × V)
  retain p [] = []
  retain p ((j, w) ∷ m) = let rest = retain p m in if p w then (j, w) ∷ rest else rest

  abbrev pub contains_key : Text → List (Text × V) → Bool
  contains_key k m = is_some (lookup k m)

  -- No key has two entries.
  abbrev pub Distinct : List (Text × V) → Type 0
  Distinct [] = Unit {0}
  Distinct ((j, v) ∷ m) = (contains_key j m ≡ false) × Distinct m

  pub lookup-insert :
      (k j : Text) (v : V) (m : List (Text × V))
      → lookup j (insert k v m) ≡ (if text_eq k j then some v else lookup j m)
  unfolding lookup insert
  lookup-insert k j v [] = refl
  lookup-insert k j v ((i, w) ∷ m) =
      ground (arith, text_eq_iff k j, text_eq_iff i k, text_eq_iff i j, lookup-insert k j v m)

  pub lookup-remove :
      (k j : Text) (m : List (Text × V))
      → lookup j (remove k m) ≡ (if text_eq k j then none else lookup j m)
  unfolding lookup remove
  lookup-remove k j [] = ground arith
  lookup-remove k j ((i, w) ∷ m) =
      ground (arith, text_eq_iff k j, text_eq_iff i k, text_eq_iff i j, lookup-remove k j m)

  -- The entry, if it passes the test.
  abbrev pub keep_if : (V → Bool) → Option V → Option V
  keep_if p none = none
  keep_if p (some v) = if p v then some v else none

  pub lookup-retain :
      (p : V → Bool) (j : Text) (m : List (Text × V))
      → Distinct m
      → lookup j (retain p m) ≡ keep_if p (lookup j m)
  unfolding lookup retain
  lookup-retain p j [] d = refl
  lookup-retain p j ((i, w) ∷ m) d = ground (arith, text_eq_iff i j, lookup-retain p j m d.1)

  pub Distinct-insert :
      (k : Text) (v : V) (m : List (Text × V)) → Distinct m → Distinct (insert k v m)
  unfolding insert lookup
  Distinct-insert k v [] d = (refl, tt)
  Distinct-insert k v ((j, w) ∷ m) d =
      ground
        (arith, text_eq_iff j k, text_eq_iff k j, lookup-insert k j v m, Distinct-insert k v m d.1)

  pub Distinct-remove : (k : Text) (m : List (Text × V)) → Distinct m → Distinct (remove k m)
  unfolding remove
  Distinct-remove k [] d = tt
  Distinct-remove k ((j, w) ∷ m) d = ground (arith, lookup-remove k j m, Distinct-remove k m d.1)

  pub Distinct-retain : (p : V → Bool) (m : List (Text × V)) → Distinct m → Distinct (retain p m)
  unfolding retain
  Distinct-retain p [] d = tt
  Distinct-retain p ((j, w) ∷ m) d =
      ground (arith, lookup-retain p j m d.1, Distinct-retain p m d.1)

  pub length-insert :
      (k : Text) (v : V) (m : List (Text × V))
      → length (insert k v m) ≡ (if contains_key k m then length m else suc (length m))
  unfolding insert lookup
  length-insert k v [] = refl
  length-insert k v ((j, w) ∷ m) = ground (arith, length-insert k v m)

  pub length-remove-le : (k : Text) (m : List (Text × V)) → length (remove k m) ≤ length m
  unfolding remove
  length-remove-le k [] = omega arith
  length-remove-le k ((j, w) ∷ m) = ground (arith, length-remove-le k m)

  pub remove_absent : (k : Text) (m : List (Text × V)) → lookup k m ≡ none → remove k m ≡ m
  unfolding remove lookup
  remove_absent k [] h = refl
  remove_absent k ((j, w) ∷ m) h = ground (arith, remove_absent k m)

  pub length-remove :
      (k : Text) (v : V) (m : List (Text × V))
      → Distinct m
      → lookup k m ≡ some v
      → length (remove k m) + 1 ≡ length m
  unfolding remove lookup
  length-remove k v [] d h = ground arith
  length-remove k v ((j, w) ∷ m) d h =
      ground (arith, text_eq_iff j k, remove_absent k m, length-remove k v m d.1)

  pub length-retain-le : (p : V → Bool) (m : List (Text × V)) → length (retain p m) ≤ length m
  unfolding retain
  length-retain-le p [] = omega arith
  length-retain-le p ((j, w) ∷ m) = ground (arith, length-retain-le p m)

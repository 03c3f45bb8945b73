-- ===== src/Isr/Keys.antt =====
-- Which stored keys belong to a path, a path prefix or a namespace.
use krab_pub.Common.{
  ◌≡◌, ◌≢◌, refl, inl, inr, Bool, false, ◌&&◌, ◌||◌, [], ◌∷◌, ◌++◌, ◌==◌, if◌then◌else◌, Bool-cases,
  arith,
}
use krab_pub.Common.Text.{Text, text_eq, starts_with, strip_prefix}
use krab_pub.Isr.{key, lease_key, key_separator, lease_separator, boundary_exempt, is_hit}

-- A namespace holds none of the separators.
abbrev pub IsPlain : Text → Type 0
IsPlain [] = Unit {0}
IsPlain (c ∷ n) = (c ≢ key_separator) × (c ≢ lease_separator) × IsPlain n

-- A prefix closed by a slash; the empty one, which begins every path, as it is.
abbrev closed : Text → Text
closed [] = []
closed (c ∷ []) = if c == b'/' then c ∷ [] else c ∷ b'/' ∷ []
closed (c ∷ d ∷ rest) = c ∷ closed (d ∷ rest)

-- What `invalidate_prefix` promises of a path: the prefix itself and what continues it after a slash,
-- its own last one or another.
abbrev pub covers : Text → Text → Bool
covers prefix path = text_eq path prefix || starts_with (closed prefix) path

closed-exempt :
    (prefix : Text)
    → closed prefix ≡ (if boundary_exempt prefix then prefix else prefix ++ b'/' ∷ [])
unfolding boundary_exempt
closed-exempt [] = refl
closed-exempt (c ∷ []) = ground arith
closed-exempt (c ∷ d ∷ rest) = ground (arith, closed-exempt (d ∷ rest))

starts_with_self :
    (prefix path : Text)
    → (text_eq path prefix || starts_with prefix path) ≡ starts_with prefix path
unfolding starts_with text_eq
starts_with_self [] [] = refl
starts_with_self [] (d ∷ path) = refl
starts_with_self (c ∷ prefix) [] = refl
starts_with_self (c ∷ prefix) (d ∷ path) = ground (arith, starts_with_self prefix path)

starts_with-key :
    (namespace prefix path : Text)
    → starts_with (key namespace prefix) (key namespace path) ≡ starts_with prefix path
unfolding key starts_with
starts_with-key [] prefix path = ground arith
starts_with-key (c ∷ n) prefix path = ground (arith, starts_with-key n prefix path)

strip_prefix-key :
    (namespace prefix path : Text)
    → strip_prefix (key namespace prefix) (key namespace path) ≡ strip_prefix prefix path
unfolding key strip_prefix
strip_prefix-key [] prefix path = ground arith
strip_prefix-key (c ∷ n) prefix path = ground (arith, strip_prefix-key n prefix path)

-- Plain-prefix plus boundary, as one test.
starts-boundary :
    (prefix path : Text)
    → (starts_with prefix path && is_hit false prefix path)
      ≡ (text_eq path prefix || starts_with (prefix ++ b'/' ∷ []) path)
unfolding starts_with is_hit strip_prefix text_eq
starts-boundary [] [] = ground arith
starts-boundary [] (d ∷ path) = ground arith
starts-boundary (c ∷ prefix) [] = ground arith
starts-boundary (c ∷ prefix) (d ∷ path) = ground (arith, starts-boundary prefix path)

-- A listed key of the namespace is deleted exactly if its path is covered.
pub hit-covers :
    (namespace prefix path : Text)
    → (starts_with (key namespace prefix) (key namespace path)
        && is_hit (boundary_exempt prefix) (key namespace prefix) (key namespace path))
      ≡ covers prefix path
unfolding is_hit
hit-covers namespace prefix path = ground (
  arith,
  starts_with-key namespace prefix path,
  strip_prefix-key namespace prefix path,
  starts-boundary prefix path,
  closed-exempt prefix,
  starts_with_self prefix path,
)

-- No key of another plain namespace, and no lease key, begins like a key of this one.
pub starts_with-key_foreign :
    (namespace other prefix path : Text)
    → IsPlain namespace
    → IsPlain other
    → namespace ≢ other
    → starts_with (key namespace prefix) (key other path) ≡ false
unfolding key starts_with
starts_with-key_foreign [] [] prefix path p q ne = absurd (ne refl)
starts_with-key_foreign [] (d ∷ m) prefix path p q ne = ground arith
starts_with-key_foreign (c ∷ n) [] prefix path p q ne = ground arith
starts_with-key_foreign (c ∷ n) (d ∷ m) prefix path p q ne = elim (Bool-cases (c == d)) [
  | inl same ↦
      ground (arith, starts_with-key_foreign n m prefix path p.2 q.2 (λ e. ne (ground arith)))
  | inr other ↦ ground arith
]

pub starts_with-key_lease :
    (namespace other prefix path : Text)
    → IsPlain namespace
    → IsPlain other
    → starts_with (key namespace prefix) (lease_key other path) ≡ false
unfolding key lease_key starts_with
starts_with-key_lease [] [] prefix path p q = ground arith
starts_with-key_lease [] (d ∷ m) prefix path p q = ground arith
starts_with-key_lease (c ∷ n) [] prefix path p q = ground arith
starts_with-key_lease (c ∷ n) (d ∷ m) prefix path p q =
    ground (arith, starts_with-key_lease n m prefix path p.2 q.2)

-- ===== src/Orchestrator/Shutdown/Sequence.antt =====
-- The sequence in which `shutdown_children` stops services.
use krab_pub.Common.{
  ℕ, ◌*◌, ◌≡◌, refl, sym, ap, ◌∙◌, ◌⊎◌, map, Option-cases, none, some, Bool, true, false, not, ◌&&◌,
  ◌||◌, List, [], ◌∷◌, ◌++◌, filter, arith, Bool-cases, inl, inr,
}
use krab_pub.Common.Text.{Text, text_eq_refl, text_eq_iff}
use krab_pub.Store.Interface.{contains, Unique}
use krab_pub.Entries.{lookup, contains_key, Distinct}
use krab_pub.Orchestrator.Configuration.{ServiceDefinition, Services, default_shutdown_timeout_ms}
use krab_pub.Orchestrator.Startup.Order.{
  contains-snoc, contains-sort_in, contains-sort, IsStartupOrder,
}
use krab_pub.Orchestrator.Startup.Errors.{DependsOn}
use krab_pub.Orchestrator.Supervision.{Supervisor, child_names}
use krab_pub.Orchestrator.Supervision.Spawned.{contains-filter, Unique-filter}
use krab_pub.Orchestrator.Supervision.Reaped.{contains-child_names}
use krab_pub.Orchestrator.Shutdown.{
  timeout_of, shutdown_timeout_for, reverse_onto, orphans, shutdown_names, shutdown_children,
}
use krab_pub.Orchestrator.Startup.{sort_in, sort}
use mathlib.Core.List.{append_assoc}

contains-append :
    (k : Text) (xs ys : List Text) → contains k (xs ++ ys) ≡ (contains k xs || contains k ys)
contains-append k [] ys = refl
contains-append k (x ∷ xs) ys = ground (arith, contains-append k xs ys)

contains-reverse_onto :
    (k : Text) (acc names : List Text)
    → contains k (reverse_onto acc names) ≡ (contains k acc || contains k names)
unfolding reverse_onto
contains-reverse_onto k acc [] = ground arith
contains-reverse_onto k acc (name ∷ names) =
    ground (arith, contains-reverse_onto k (name ∷ acc) names)

Unique-reverse_onto :
    (acc names : List Text)
    → Unique acc
    → Unique names
    → ((k : Text) → contains k names ≡ true → contains k acc ≡ false)
    → Unique (reverse_onto acc names)
unfolding reverse_onto
Unique-reverse_onto acc [] u v apart = u
Unique-reverse_onto acc (name ∷ names) u v apart =
    Unique-reverse_onto (name ∷ acc) names (apart name (ground (arith, text_eq_refl name)), u) v.1
      (λ k i. ground (arith, apart k, text_eq_iff name k, v.0))

Unique-append :
    (xs ys : List Text)
    → Unique xs
    → Unique ys
    → ((k : Text) → contains k xs ≡ true → contains k ys ≡ false)
    → Unique (xs ++ ys)
Unique-append [] ys u v apart = v
Unique-append (x ∷ xs) ys u v apart = (
  ground (arith, contains-append x xs ys, u.0, apart x, text_eq_refl x),
  Unique-append xs ys u.1 v (λ k i. apart k (ground arith)),
)

Unique-sort_in :
    (k : Text) (js : List Text) → contains k js ≡ false → Unique js → Unique (sort_in k js)
unfolding sort_in
Unique-sort_in k [] n u = ground arith
Unique-sort_in k (j ∷ js) n u =
    ground (arith, Unique-sort_in k js, contains-sort_in j k js, text_eq_iff k j, text_eq_iff j k)

Unique-sort : (ks : List Text) → Unique ks → Unique (sort ks)
unfolding sort
Unique-sort [] u = tt
Unique-sort (k ∷ ks) u = Unique-sort_in k (sort ks) (contains-sort k ks ∙ u.0) (Unique-sort ks u.1)

module _ (services : Services) (running : Text → Bool) where
  -- Each service of the sequence is followed by all that runs of what it depends on.
  abbrev pub IsOutlived : List Text → Type 0
  IsOutlived [] = Unit {0}
  IsOutlived (k ∷ names) =
      ((dep : Text) → DependsOn services k dep → running dep ≡ true → contains dep names ≡ true)
      × IsOutlived names

  reverse_onto-IsOutlived :
      (order xs acc names : List Text)
      → IsStartupOrder services order
      → order ≡ xs ++ names
      → ((k : Text) → contains k xs ≡ contains k acc)
      → IsOutlived (filter running acc)
      → IsOutlived (filter running (reverse_onto acc names))
  unfolding reverse_onto
  reverse_onto-IsOutlived order xs acc [] o e same v = v
  reverse_onto-IsOutlived order xs acc (k ∷ names) o e same v =
      reverse_onto-IsOutlived order (xs ++ k ∷ []) (k ∷ acc) names o
        (e ∙ sym (append_assoc xs (k ∷ []) names))
        (λ j. ground (arith, contains-snoc j k xs, same j))
        (elim (Bool-cases (running k)) [
          | inl up ↦ rw up (
            (λ dep d r. ground (
              arith,
              contains-filter running dep acc,
              same dep,
              o.2 xs names k e d.0 dep d.1 d.2,
            )),
            v,
          )
          | inr down ↦ rw down v
        ])

  append-IsOutlived :
      (names rest : List Text) → IsOutlived names → IsOutlived rest → IsOutlived (names ++ rest)
  append-IsOutlived [] rest v w = w
  append-IsOutlived (k ∷ names) rest v w = (
    (λ dep d r. ground (arith, v.0 dep d r, contains-append dep names rest)),
    append-IsOutlived names rest v.1 w,
  )

  unknown-IsOutlived :
      (names : List Text)
      → ((k : Text) → contains k names ≡ true → contains_key k services ≡ false)
      → IsOutlived names
  unknown-IsOutlived [] h = tt
  unknown-IsOutlived (k ∷ names) h = (
    (λ dep d r. absurd (ground (arith, d.1, h k, text_eq_refl k))),
    unknown-IsOutlived names (λ j i. h j (ground arith)),
  )

module _ {Child : Type 0} where
  contains-orphans :
      (k : Text) (order : List Text) (children : List (Text × Child))
      → contains k (orphans order children) ≡ (contains_key k children && not (contains k order))
  unfolding orphans
  contains-orphans k order children = ground (
    arith,
    contains-sort k (filter (λ name. not (contains name order)) (child_names children)),
    contains-filter (λ name. not (contains name order)) k (child_names children),
    contains-child_names k children,
  )

  shutdown_names-IsOutlived :
      (services : Services) (order : List Text) (children : List (Text × Child))
      → IsStartupOrder services order
      → IsOutlived services (λ name. contains_key name children) (shutdown_names order children)
        × ((k : Text) → contains k (shutdown_names order children) ≡ contains_key k children)
  unfolding shutdown_names
  shutdown_names-IsOutlived services order children o = (
    append-IsOutlived services running _ (orphans order children)
        (reverse_onto-IsOutlived services running order [] [] order o refl (λ k. refl) tt)
        (unknown-IsOutlived services running (orphans order children)
          (λ k i. ground (arith, contains-orphans k order children, o.1 k))),
    λ k. ground (
      arith,
      contains-append k (filter running (reverse_onto [] order)) (orphans order children),
      contains-filter running k (reverse_onto [] order),
      contains-reverse_onto k [] order,
      contains-orphans k order children,
    ),
  )
    where
      running : Text → Bool
      running name = contains_key name children

  Unique-child_names :
      (children : List (Text × Child)) → Distinct children → Unique (child_names children)
  Unique-child_names [] d = tt
  Unique-child_names ((k, child) ∷ children) d =
      (contains-child_names k children ∙ d.0, Unique-child_names children d.1)

  -- No service is stopped twice.
  Unique-shutdown_names :
      (order : List Text) (children : List (Text × Child))
      → Unique order
      → Distinct children
      → Unique (shutdown_names order children)
  unfolding shutdown_names orphans
  Unique-shutdown_names order children u d =
      Unique-append _ _
        (Unique-filter (λ name. contains_key name children) (reverse_onto [] order)
          (Unique-reverse_onto [] order tt u (λ k i. refl)))
        (Unique-sort _ (
          Unique-filter (λ name. not (contains name order)) (child_names children)
            (Unique-child_names children d)))
        (λ k i. ground (
          arith,
          contains-filter (λ name. contains_key name children) k (reverse_onto [] order),
          contains-reverse_onto k [] order,
          contains-sort k (filter (λ name. not (contains name order)) (child_names children)),
          contains-filter (λ name. not (contains name order)) k (child_names children),
        ))

-- The time that a service is given to stop: its own, or 5 s if the configuration does not know it.
abbrev pub IsTimed : Services → Text → ℕ → Type 0
IsTimed services k timeout =
    ((service : ServiceDefinition) × (lookup k services ≡ some service)
      × (timeout ≡ service.shutdown_timeout_ms * 1_000_000))
    ⊎ ((lookup k services ≡ none) × (timeout ≡ default_shutdown_timeout_ms * 1_000_000))

abbrev pub AllTimed : Services → List (Text × ℕ) → Type 0
AllTimed services [] = Unit {0}
AllTimed services ((k, timeout) ∷ stops) = IsTimed services k timeout × AllTimed services stops

shutdown_timeout_for-IsTimed :
    (services : Services) (k : Text) → IsTimed services k (shutdown_timeout_for services k)
unfolding shutdown_timeout_for
shutdown_timeout_for-IsTimed services k = elim (Option-cases (lookup k services)) [
  | inl unknown ↦ inr (unknown, ap timeout_of unknown)
  | inr (service, e) ↦ inl (service, e, ap timeout_of e)
]

abbrev timed : Services → List Text → List (Text × ℕ)
timed services names = map (λ name. (name, shutdown_timeout_for services name)) names

AllTimed-timed :
    (services : Services) (names : List Text) → AllTimed services (timed services names)
AllTimed-timed services [] = tt
AllTimed-timed services (k ∷ names) =
    (shutdown_timeout_for-IsTimed services k, AllTimed-timed services names)

names-timed :
    (services : Services) (names : List Text) → map (λ stop. stop.0) (timed services names) ≡ names
names-timed services [] = refl
names-timed services (k ∷ names) = ap (◌∷◌ k) (names-timed services names)

-- When the order is a startup order of the configuration and no two children have the same name, a
-- shutdown terminates each service that runs exactly once and no other, those that the order does
-- not mention included; each is followed by everything that runs and that it depends on; each has
-- the time that its configuration gives it, or the default if the configuration does not know it;
-- and no child is left.
pub shutdown_children-IsOutlived :
    {Child : Type 0} (services : Services) (order : List Text) (s : Supervisor Child)
    → IsStartupOrder services order
    → Distinct s.children
    → let (s', stops) = shutdown_children services order s in
      let names = map (λ stop. stop.0) stops in
      (s'.children ≡ [])
      × IsOutlived services (λ name. contains_key name s.children) names
      × ((k : Text) → contains k names ≡ contains_key k s.children)
      × Unique names
      × AllTimed services stops
unfolding shutdown_children
shutdown_children-IsOutlived services order s o d =
    let (outlived, exact) = shutdown_names-IsOutlived services order s.children o in
    rw (names-timed services (shutdown_names order s.children)) (
      refl,
      outlived,
      exact,
      Unique-shutdown_names order s.children o.0 d,
      AllTimed-timed services (shutdown_names order s.children),
    )

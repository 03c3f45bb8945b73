-- ===== src/Orchestrator/Startup/Order.antt =====
-- The order that `resolve_startup_order` gives: every service once, after its dependencies.
use krab_pub.Common.{
  ℕ, zero, suc, ◌+◌, ◌≡◌, refl, sym, Bool, true, false, ◌||◌, List, [], ◌∷◌, ◌++◌, some, inl, inr,
  length, arith, Bool-cases, Option-cases,
}
use krab_pub.Common.Text.{Text, text_eq, text_eq_iff, text_eq_refl}
use krab_pub.Store.Interface.{contains, Unique}
use krab_pub.Entries.{lookup, contains_key, lookup-insert}
use krab_pub.Orchestrator.Configuration.{ServiceDefinition, Services, dependencies}
use krab_pub.Orchestrator.Startup.{
  Visit, Outcome, visited, refused, unfinished, and_then, is_marked, finish, visit_each,
  visit_service, visit, sort_in, sort, visit_names, names_of, resolve_startup_order, order_of,
  nothing_visited,
}

pub contains-snoc :
    (k j : Text) (ks : List Text) → contains k (ks ++ j ∷ []) ≡ (contains k ks || text_eq j k)
contains-snoc k j [] = ground arith
contains-snoc k j (i ∷ ks) = ground (arith, contains-snoc k j ks)

Unique-snoc :
    (j : Text) (ks : List Text) → Unique ks → contains j ks ≡ false → Unique (ks ++ j ∷ [])
Unique-snoc j [] u n = ground arith
Unique-snoc j (i ∷ ks) u n =
    ground (arith, Unique-snoc j ks, contains-snoc i j ks, text_eq_iff i j, text_eq_iff j i)

pub contains-sort_in :
    (k j : Text) (js : List Text) → contains k (sort_in j js) ≡ (text_eq j k || contains k js)
unfolding sort_in
contains-sort_in k j [] = ground arith
contains-sort_in k j (i ∷ js) = ground (arith, contains-sort_in k j js)

pub contains-sort : (k : Text) (ks : List Text) → contains k (sort ks) ≡ contains k ks
unfolding sort
contains-sort k [] = refl
contains-sort k (j ∷ ks) = ground (arith, contains-sort k ks, contains-sort_in k j (sort ks))

pub contains-names_of :
    (k : Text) (services : Services) → contains k (names_of services) ≡ contains_key k services
unfolding lookup
contains-names_of k [] = refl
contains-names_of k ((j, service) ∷ services) = ground (arith, contains-names_of k services)

module _ (services : Services) where
  -- Every dependency of the service passes the test.
  abbrev pub Ready : (Text → Bool) → Text → Type 0
  Ready started k =
      (service : ServiceDefinition) (dep : Text)
      → lookup k services ≡ some service
      → contains dep (dependencies service) ≡ true
      → started dep ≡ true

  -- Started one after the other, after those of the first list, no service lacks a dependency.
  abbrev Launchable : List Text → List Text → Type 0
  Launchable seen [] = Unit {0}
  Launchable seen (k ∷ order) = Ready (λ dep. contains dep seen) k × Launchable (k ∷ seen) order

  Launchable-snoc :
      (seen order : List Text) (k : Text)
      → Launchable seen order
      → Ready (λ dep. contains dep seen || contains dep order) k
      → Launchable seen (order ++ k ∷ [])
  Launchable-snoc seen [] k l r = ((λ service dep f d. ground (arith, r service dep f d)), tt)
  Launchable-snoc seen (j ∷ order) k l r = (
    l.0,
    Launchable-snoc (j ∷ seen) order k l.1 (λ service dep f d. ground (arith, r service dep f d)),
  )

  Launchable-split :
      (seen xs ys : List Text) (k : Text)
      → Launchable seen (xs ++ k ∷ ys)
      → Ready (λ dep. contains dep seen || contains dep xs) k
  Launchable-split seen [] ys k l service dep f d = ground (arith, l.0 service dep f d)
  Launchable-split seen (j ∷ xs) ys k l service dep f d =
      ground (arith, Launchable-split (j ∷ seen) xs ys k l.1 service dep f d)

  record IsOrdered (s : Visit) : Type 0 where
    marked : (k : Text) → is_marked (lookup k s.permanent) ≡ true → contains k s.order ≡ true
    unique : Unique s.order
    known : (k : Text) → contains k s.order ≡ true → contains_key k services ≡ true
    launch : Launchable [] s.order

  -- What a walk leaves: an ordered state that has what was there and the nodes walked.
  abbrev After : Visit → List Text → Outcome Visit → Type 0
  After s nodes (visited s') =
      IsOrdered s'
      × ((k : Text) → contains k s.order ≡ true → contains k s'.order ≡ true)
      × ((k : Text) → contains k nodes ≡ true → contains k s'.order ≡ true)
  After s nodes (refused e) = Unit {0}
  After s nodes unfinished = Unit {0}

  and_then-After :
      (s : Visit) (node : Text) (nodes : List Text) (o : Outcome Visit)
      (next : Visit → Outcome Visit)
      → After s (node ∷ []) o
      → ((s' : Visit) → IsOrdered s' → After s' nodes (next s'))
      → After s (node ∷ nodes) (and_then o next)
  unfolding and_then
  and_then-After s node nodes (refused e) next a h = tt
  and_then-After s node nodes unfinished next a h = tt
  and_then-After s node nodes (visited s') next a h = go (next s') (h s' a.0)
    where
      go : (o : Outcome Visit) → After s' nodes o → After s (node ∷ nodes) o
      go (refused e) b = tt
      go unfinished b = tt
      go (visited s'') b =
          (b.0, (λ k i. b.1 k (a.1 k i)), λ k i. ground (arith, b.1 k, b.2 k, a.2 k))

  finish-IsOrdered :
      (s : Visit) (node : Text)
      → IsOrdered s
      → contains_key node services ≡ true
      → Ready (λ dep. contains dep s.order) node
      → IsOrdered (finish node s)
  unfolding finish is_marked
  finish-IsOrdered s node v n r = elim (Bool-cases (contains node s.order)) [
    | inl old ↦ record {
      marked = λ k m.
          ground (arith, v.marked k, lookup-insert node k true s.permanent, text_eq_iff node k);
      unique = rw old v.unique;
      known = λ k i. ground (arith, v.known k);
      launch = rw old v.launch;
    }
    | inr new ↦ record {
      marked = λ k m.
          ground (
            arith,
            v.marked k,
            lookup-insert node k true s.permanent,
            contains-snoc k node s.order,
          );
      unique = rw new (Unique-snoc node s.order v.unique new);
      known = λ k i. ground (arith, v.known k, contains-snoc k node s.order, text_eq_iff node k);
      launch = rw new (Launchable-snoc [] s.order node v.launch r);
    }
  ]

  finish-has :
      (s : Visit) (node k : Text)
      → contains k (finish node s).order ≡ (contains k s.order || text_eq node k)
  unfolding finish
  finish-has s node k = ground (arith, contains-snoc k node s.order, text_eq_iff node k)

  -- The recursive call does what a walk does, from every ordered state.
  abbrev Walks : (Text → Visit → Outcome Visit) → Type 0
  Walks go =
      (dep : Text) (s : Visit)
      → contains_key dep services ≡ true
      → IsOrdered s
      → After s (dep ∷ []) (go dep s)

  visit_each-After :
      (go : Text → Visit → Outcome Visit) (node : Text) (deps : List Text) (s : Visit)
      → Walks go
      → IsOrdered s
      → After s deps (visit_each go services node deps s)
  unfolding visit_each
  visit_each-After go node [] s w v = (v, (λ k i. i), λ k i. ground arith)
  visit_each-After go node (dep ∷ deps) s w v = elim (Bool-cases (contains_key dep services)) [
    | inl known ↦ rw known (
        and_then-After s dep deps (go dep s) _ (w dep s known v)
          (λ s' v'. visit_each-After go node deps s' w v'))
    | inr unknown ↦ rw unknown tt
  ]

  finish-After :
      (s : Visit) (node : Text) (service : ServiceDefinition) (o : Outcome Visit)
      → lookup node services ≡ some service
      → After s (dependencies service) o
      → After s (node ∷ []) (and_then o (λ s'. visited (finish node s')))
  unfolding and_then
  finish-After s node service (refused e) found a = tt
  finish-After s node service unfinished found a = tt
  finish-After s node service (visited s') found a = (
    finish-IsOrdered s' node a.0 (ground arith) (λ service' dep f d. a.2 dep (ground arith)),
    (λ k i. ground (arith, finish-has s' node k, a.1 k)),
    λ k i. ground (arith, finish-has s' node k),
  )

  visit_service-After :
      (go : Text → Visit → Outcome Visit) (node : Text) (s : Visit)
      → Walks go
      → IsOrdered s
      → After s (node ∷ []) (visit_service go services node s (lookup node services))
  unfolding visit_service
  visit_service-After go node s w v = elim (Option-cases (lookup node services)) [
    | inl missing ↦ rw missing tt
    | inr (service, found) ↦ rw found (
        finish-After s node service _ found (visit_each-After go node (dependencies service) s w v))
  ]

  visit-Walks : (fuel : ℕ) → Walks (visit fuel services)
  unfolding visit
  visit-Walks zero node s known v = tt
  visit-Walks (suc fuel) node s known v = elim (Bool-cases (is_marked (lookup node s.permanent))) [
    | inl done ↦ rw done (v, (λ k i. i), λ k i. ground (arith, v.marked node, text_eq_iff node k))
    | inr fresh ↦ elim (Bool-cases (is_marked (lookup node s.temporary))) [
      | inl entered ↦ rw (fresh, entered) tt
      | inr new ↦
          rw (fresh, new)
            (visit_service-After (visit fuel services) node _ (visit-Walks fuel)
              (record { marked = v.marked; unique = v.unique; known = v.known; launch = v.launch }))
    ]
  ]

  visit_names-After :
      (fuel : ℕ) (names : List Text) (s : Visit)
      → ((k : Text) → contains k names ≡ true → contains_key k services ≡ true)
      → IsOrdered s
      → After s names (visit_names fuel services names s)
  unfolding visit_names
  visit_names-After fuel [] s known v = (v, (λ k i. i), λ k i. ground arith)
  visit_names-After fuel (name ∷ names) s known v =
      and_then-After s name names (visit fuel services name s) _
        (visit-Walks fuel name s (known name (ground (arith, text_eq_refl name))) v)
        (λ s' v'. visit_names-After fuel names s' (λ k i. known k (ground arith)) v')

  start-IsOrdered : IsOrdered nothing_visited
  unfolding is_marked lookup
  start-IsOrdered = record {
    marked = λ k m. ground arith;
    unique = tt;
    known = λ k i. ground arith;
    launch = tt;
  }

-- Each service of the manifest once and nothing else, each after all that it depends on.
abbrev pub IsStartupOrder : Services → List Text → Type 0
IsStartupOrder services order =
    Unique order
    × ((k : Text) → contains k order ≡ contains_key k services)
    × ((xs ys : List Text) (k : Text)
        → order ≡ xs ++ k ∷ ys
        → Ready services (λ dep. contains dep xs) k)

order_of-After :
    (services : Services) (order : List Text) (o : Outcome Visit)
    → After services nothing_visited (sort (names_of services)) o
    → order_of o ≡ visited order
    → IsStartupOrder services order
unfolding order_of
order_of-After services order (refused e) a h = ground arith
order_of-After services order unfinished a h = ground arith
order_of-After services order (visited s) a h = (
  ground arith,
  (λ k. ground (
    arith,
    a.0.known k,
    a.2 k,
    contains-sort k (names_of services),
    contains-names_of k services,
  )),
  λ xs ys k e.
      let e' : s.order ≡ xs ++ k ∷ ys = ground arith in
      Launchable-split services [] xs ys k (rw (sym e') a.0.launch),
)

-- The startup order, when there is one, has each service of the manifest once and nothing else, and
-- starts a service after everything that it names in `depends_on` or `startup_dependencies`.
pub resolve_startup_order-dependencies_first :
    (services : Services) (order : List Text)
    → resolve_startup_order services ≡ visited order
    → IsStartupOrder services order
unfolding resolve_startup_order
resolve_startup_order-dependencies_first services order h =
    order_of-After services order _
      (visit_names-After services (length services + 1) (sort (names_of services)) nothing_visited
        (λ k i. ground (arith, contains-sort k (names_of services), contains-names_of k services))
        (start-IsOrdered services))
      h

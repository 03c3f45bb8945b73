-- ===== src/Orchestrator/Startup/Errors.antt =====
-- When `resolve_startup_order` refuses a manifest, and that it never runs out of fuel.
use krab_pub.Common.{
  ℕ, zero, suc, ◌+◌, ◌≤◌, ◌≡◌, ◌≢◌, ◌∙◌, refl, sym, true, false, List, [], ◌∷◌, some, ◌⊎◌, inl, inr,
  length, arith, Bool-cases, Option-cases,
}
use krab_pub.Common.Text.{Text, text_eq, text_eq_iff, text_eq_refl}
use krab_pub.Store.Interface.{contains}
use krab_pub.Entries.{lookup, insert, contains_key}
use krab_pub.Orchestrator.Configuration.{ServiceDefinition, Services, dependencies}
use krab_pub.Orchestrator.Startup.{
  StartupError, dependency_cycle, not_found, unknown_dependency, Visit, Outcome, visited, refused,
  unfinished, and_then, is_marked, finish, visit_each, visit_service, visit, sort, visit_names,
  names_of, resolve_startup_order, nothing_visited, order_of,
}
use krab_pub.Orchestrator.Startup.Marks.{
  mark, unmarked, mark-insert, unmarked-le, unmarked-congr, unmarked-insert-lt,
}
use krab_pub.Orchestrator.Startup.Order.{
  contains-sort, contains-names_of, IsStartupOrder, resolve_startup_order-dependencies_first,
}

module _ (services : Services) where
  abbrev pub DependsOn : Text → Text → Type 0
  DependsOn k dep =
      (service : ServiceDefinition) × (lookup k services ≡ some service)
      × (contains dep (dependencies service) ≡ true)

  -- A chain of dependencies leads from the first to the second.
  pub data Reaches (k : Text) : Text → Type 0 where
    direct : {dep : Text} → DependsOn k dep → Reaches k dep
    onward : {node dep : Text} → Reaches k node → DependsOn node dep → Reaches k dep

  -- What is wrong with the manifest, in the words of the error.
  abbrev pub Explained : StartupError → Type 0
  Explained (dependency_cycle k) = Reaches k k
  Explained (not_found k) = ⊥
  Explained (unknown_dependency k dep) = DependsOn k dep × (contains_key dep services ≡ false)

  -- What a walk with so much fuel leaves: the marks it found, or a reason to stop.
  abbrev Report : ℕ → Visit → Outcome Visit → Type 0
  Report fuel s (visited s') = (k : Text) → mark s'.temporary k ≡ mark s.temporary k
  Report fuel s (refused e) = Explained e
  Report fuel s unfinished = fuel ≤ unmarked services s.temporary

  -- Every service that is being visited leads to the node.
  abbrev LeadsTo : Visit → Text → Type 0
  LeadsTo s node = (k : Text) → mark s.temporary k ≡ true → Reaches k node

  abbrev Reports : ℕ → (Text → Visit → Outcome Visit) → Type 0
  Reports fuel go =
      (dep : Text) (s : Visit)
      → contains_key dep services ≡ true
      → LeadsTo s dep
      → Report fuel s (go dep s)

  and_then-Report :
      (fuel : ℕ) (s : Visit) (o : Outcome Visit) (next : Visit → Outcome Visit)
      → Report fuel s o
      → ((s' : Visit)
          → ((k : Text) → mark s'.temporary k ≡ mark s.temporary k)
          → Report fuel s' (next s'))
      → Report fuel s (and_then o next)
  unfolding and_then
  and_then-Report fuel s (refused e) next r h = r
  and_then-Report fuel s unfinished next r h = r
  and_then-Report fuel s (visited s') next r h = go (next s') (h s' r)
    where
      go : (o : Outcome Visit) → Report fuel s' o → Report fuel s o
      go (refused e) b = b
      go unfinished b = ground (arith, unmarked-congr services s'.temporary s.temporary r)
      go (visited s'') b = λ k. b k ∙ r k

  visit_each-Report :
      (fuel : ℕ) (go : Text → Visit → Outcome Visit) (node : Text) (deps : List Text) (s : Visit)
      → Reports fuel go
      → ((dep : Text) → contains dep deps ≡ true → DependsOn node dep)
      → ((dep : Text) → contains dep deps ≡ true → LeadsTo s dep)
      → Report fuel s (visit_each go services node deps s)
  unfolding visit_each
  visit_each-Report fuel go node [] s w d l = λ k. refl
  visit_each-Report fuel go node (dep ∷ deps) s w d l =
      elim (Bool-cases (contains_key dep services)) [
        | inl known ↦ rw known (
            and_then-Report fuel s (go dep s) _ (w dep s known (l dep (first dep))) (λ s' r.
              visit_each-Report fuel go node deps s' w (λ k i. d k (later k i))
                (λ k i j m. l k (later k i) j (sym (r j) ∙ m))))
        | inr unknown ↦ rw unknown (d dep (first dep), unknown)
      ]
    where
      first : (k : Text) → contains k (k ∷ deps) ≡ true
      first k = ground (arith, text_eq_refl k)

      later : (k : Text) → contains k deps ≡ true → contains k (dep ∷ deps) ≡ true
      later k i = ground arith

  abbrev entered : Text → Visit → Visit
  entered node s = record s { temporary = insert node true s.temporary }

  finish-Report :
      (fuel : ℕ) (node : Text) (s : Visit) (o : Outcome Visit)
      → contains_key node services ≡ true
      → mark s.temporary node ≡ false
      → Report fuel (entered node s) o
      → Report (suc fuel) s (and_then o (λ s'. visited (finish node s')))
  unfolding and_then finish
  finish-Report fuel node s (refused e) known free r = r
  finish-Report fuel node s unfinished known free r =
      ground (arith, unmarked-insert-lt services s.temporary node known free)
  finish-Report fuel node s (visited s') known free r = λ k. ground (
    arith,
    mark-insert node k false s'.temporary,
    mark-insert node k true s.temporary,
    text_eq_iff node k,
    r k,
  )

  visit_service-Report :
      (fuel : ℕ) (go : Text → Visit → Outcome Visit) (node : Text) (s : Visit)
      → Reports fuel go
      → contains_key node services ≡ true
      → mark s.temporary node ≡ false
      → LeadsTo s node
      → Report (suc fuel) s (visit_service go services node (entered node s) (lookup node services))
  unfolding visit_service
  visit_service-Report fuel go node s w known free l = elim (Option-cases (lookup node services)) [
    | inl missing ↦ ground arith
    | inr (service, found) ↦ rw found (
        finish-Report fuel node s _ known free (
          visit_each-Report fuel go node (dependencies service) (entered node s) w
            (λ dep i. (service, found, i))
            (λ dep i k m. chain service found dep i k (Bool-cases (text_eq node k)) m)))
  ]
    where
      chain :
          (service : ServiceDefinition)
          → lookup node services ≡ some service
          → (dep : Text) → contains dep (dependencies service) ≡ true
          → (k : Text) → (text_eq node k ≡ true) ⊎ (text_eq node k ≡ false)
          → mark (insert node true s.temporary) k ≡ true
          → Reaches k dep
      chain service found dep i k (inl same) m =
          let e : node ≡ k = (text_eq_iff node k).0 same in rw (sym e) (direct (service, found, i))
      chain service found dep i k (inr other) m =
          onward (l k (ground (arith, mark-insert node k true s.temporary))) (service, found, i)

  visit-Reports : (fuel : ℕ) → Reports fuel (visit fuel services)
  unfolding visit
  visit-Reports zero node s known l = omega arith
  visit-Reports (suc fuel) node s known l =
      elim (Bool-cases (is_marked (lookup node s.permanent))) [
        | inl done ↦ rw done (λ k. refl)
        | inr fresh ↦ elim (Bool-cases (mark s.temporary node)) [
          | inl twice ↦ rw (fresh, twice) (l node twice)
          | inr free ↦
              rw (fresh, free)
                (visit_service-Report fuel (visit fuel services) node s (visit-Reports fuel) known
                  free l)
        ]
      ]

  visit_names-Report :
      (fuel : ℕ) (names : List Text) (s : Visit)
      → ((k : Text) → contains k names ≡ true → contains_key k services ≡ true)
      → ((k : Text) → mark s.temporary k ≡ false)
      → Report fuel s (visit_names fuel services names s)
  unfolding visit_names
  visit_names-Report fuel [] s known free = λ k. refl
  visit_names-Report fuel (name ∷ names) s known free =
      and_then-Report fuel s (visit fuel services name s) _
        (visit-Reports fuel name s (known name (ground (arith, text_eq_refl name)))
          (λ k m. ground (arith, free k)))
        (λ s' r.
          visit_names-Report fuel names s' (λ k i. known k (ground arith)) (λ k. r k ∙ free k))

  -- No walk is left unfinished, and a refusal is explained.
  abbrev Settled : Outcome (List Text) → Type 0
  Settled (visited order) = Unit {0}
  Settled (refused e) = Explained e
  Settled unfinished = ⊥

  order_of-Settled :
      (o : Outcome Visit) → Report (length services + 1) nothing_visited o → Settled (order_of o)
  unfolding order_of
  order_of-Settled (visited s) r = tt
  order_of-Settled (refused e) r = r
  order_of-Settled unfinished r = ground (arith, unmarked-le services [])

  resolve-Settled : Settled (resolve_startup_order services)
  unfolding resolve_startup_order is_marked lookup
  resolve-Settled = order_of-Settled _ (
      visit_names-Report (length services + 1) (sort (names_of services)) nothing_visited
        (λ k i. ground (arith, contains-sort k (names_of services), contains-names_of k services))
        (λ k. refl))

-- The walk always comes to an end: the fuel, one more than the number of services, is enough for
-- every manifest, cyclic ones included.
pub resolve_startup_order-finishes :
    (services : Services) → resolve_startup_order services ≢ unfinished
resolve_startup_order-finishes services h = ground (arith, resolve-Settled services)

-- A refusal names what is wrong: a service from which a chain of dependencies leads back to itself,
-- or a service with a dependency that the manifest does not have. "Not found" is never reported.
pub resolve_startup_order-refused :
    (services : Services) (e : StartupError)
    → resolve_startup_order services ≡ refused e
    → Explained services e
resolve_startup_order-refused services e h = ground (arith, resolve-Settled services)

acyclic-visited :
    (services : Services) (o : Outcome (List Text))
    → ((k : Text) → ¬ Reaches services k k)
    → ((k dep : Text) → DependsOn services k dep → contains_key dep services ≡ true)
    → Settled services o
    → (order : List Text) × (o ≡ visited order)
acyclic-visited services (visited order) acyclic closed h = (order, refl)
acyclic-visited services unfinished acyclic closed h = absurd h
acyclic-visited services (refused (dependency_cycle k)) acyclic closed h = absurd (acyclic k h)
acyclic-visited services (refused (not_found k)) acyclic closed h = absurd h
acyclic-visited services (refused (unknown_dependency k dep)) acyclic closed h =
    absurd (ground (arith, closed k dep h.0))

-- A manifest whose dependencies are all services of it, with no service that leads back to itself,
-- gets a startup order, and one with every service once and after its dependencies.
pub resolve_startup_order-acyclic :
    (services : Services)
    → ((k : Text) → ¬ Reaches services k k)
    → ((k dep : Text) → DependsOn services k dep → contains_key dep services ≡ true)
    → (order : List Text) × (resolve_startup_order services ≡ visited order)
      × IsStartupOrder services order
resolve_startup_order-acyclic services acyclic closed =
    let (order, found) = acyclic-visited services _ acyclic closed (resolve-Settled services) in
    (order, found, resolve_startup_order-dependencies_first services order found)

-- ===== src/Orchestrator/Supervision/Restarts.antt =====
-- The restart budget over a run of ticks.
use krab_pub.Common.{
  ◌+◌, ◌^◌, ◌≤◌, ◌<◌, ◌≡◌, refl, ap, ◌∙◌, List, [], ◌∷◌, none, some, if◌then◌else◌, arith,
}
use krab_pub.Common.Text.{Text}
use krab_pub.Store.Interface.{contains, Unique}
use krab_pub.Entries.{lookup}
use krab_pub.Orchestrator.Configuration.{
  ServiceDefinition, Services, effective_max_restart_attempts,
}
use krab_pub.Orchestrator.Supervision.{
  Supervisor, Reaping, Spawning, supervise_children, run, restarts, is_restarted,
}
use krab_pub.Orchestrator.Supervision.View.{ServiceView, view, tick_view}
use krab_pub.Orchestrator.Supervision.Tick.{supervise_children-view, is_restarted-view}
use krab_pub.Orchestrator.Supervision.Budget.{
  attempts_of, InBudget, DiesYoung, tick_view-InBudget, tick_view-attempts,
}

module _ {Child : Type 0} (services : Services) (order : List Text) (k : Text)
    (service : ServiceDefinition) where
  -- At every tick of the run that finds the service dead, it had not lived for a stability window.
  abbrev pub AllDieYoung : List (Reaping × Spawning Child) → Supervisor Child → Type 0
  AllDieYoung [] s = Unit {0}
  AllDieYoung (t ∷ ts) s =
      DiesYoung service t.0 k (view k s) × AllDieYoung ts (supervise_children services order t s)

  tick-InBudget :
      (t : Reaping × Spawning Child) (s : Supervisor Child)
      → Unique order
      → lookup k services ≡ some service
      → effective_max_restart_attempts service < 2 ^ 32
      → InBudget service (view k s)
      → InBudget service (view k (supervise_children services order t s))
  tick-InBudget t s u found m b =
      rw (supervise_children-view services order t k s u, found)
        (tick_view-InBudget service (contains k order) t k (view k s) m b)

  -- The supervision of a service stays within its restart budget in every run of ticks: never more
  -- attempts than `max_attempts`, a restart planned only while some are left, and none for a service
  -- that is up. It is kept when the startup order has no service twice and `max_attempts` fits a u32.
  pub run-InBudget :
      (ts : List (Reaping × Spawning Child)) (s : Supervisor Child)
      → Unique order
      → lookup k services ≡ some service
      → effective_max_restart_attempts service < 2 ^ 32
      → InBudget service (view k s)
      → InBudget service (view k (run services order ts s))
  unfolding run
  run-InBudget [] s u found m b = b
  run-InBudget (t ∷ ts) s u found m b =
      run-InBudget ts (supervise_children services order t s) u found m
        (tick-InBudget t s u found m b)

  tick-attempts :
      (t : Reaping × Spawning Child) (s : Supervisor Child)
      → Unique order
      → lookup k services ≡ some service
      → effective_max_restart_attempts service < 2 ^ 32
      → InBudget service (view k s)
      → DiesYoung service t.0 k (view k s)
      → attempts_of (view k (supervise_children services order t s)).1
        ≡ attempts_of (view k s).1 + (if is_restarted services order t k s then 1 else 0)
  tick-attempts t s u found m b y =
      let seen : view k (supervise_children services order t s)
          ≡ tick_view (some service) (contains k order) t k (view k s) =
        supervise_children-view services order t k s u ∙ rw found refl in
      ap (λ v. attempts_of v.1) seen
      ∙ tick_view-attempts service (contains k order) t k (view k s) m b y
      ∙ rw (is_restarted-view services order t k s, found) refl

  run-attempts :
      (ts : List (Reaping × Spawning Child)) (s : Supervisor Child)
      → Unique order
      → lookup k services ≡ some service
      → effective_max_restart_attempts service < 2 ^ 32
      → InBudget service (view k s)
      → AllDieYoung ts s
      → attempts_of (view k s).1 + restarts services order ts k s
        ≡ attempts_of (view k (run services order ts s)).1
  unfolding run restarts
  run-attempts [] s u found m b y = ground arith
  run-attempts (t ∷ ts) s u found m b y =
      let rest =
        run-attempts ts (supervise_children services order t s) u found m
          (tick-InBudget t s u found m b) y.1 in
      ground (arith, rest, tick-attempts t s u found m b y.0)

  attempts-le :
      (v : ServiceView Child)
      → InBudget service v
      → attempts_of v.1 ≤ effective_max_restart_attempts service
  attempts-le (child, none) b = omega arith
  attempts-le (child, some entry) b = b.0

  -- A crash loop ends: over a run in which the service never lives for a stability window before it
  -- dies, the attempts made before and the restarts of the run together are at most `max_attempts`,
  -- however many ticks there are and whichever spawns succeed.
  pub restarts-bounded :
      (ts : List (Reaping × Spawning Child)) (s : Supervisor Child)
      → Unique order
      → lookup k services ≡ some service
      → effective_max_restart_attempts service < 2 ^ 32
      → InBudget service (view k s)
      → AllDieYoung ts s
      → attempts_of (lookup k s.supervision) + restarts services order ts k s
        ≤ effective_max_restart_attempts service
  restarts-bounded ts s u found m b y =
      rw (run-attempts ts s u found m b y)
        (attempts-le (view k (run services order ts s)) (run-InBudget ts s u found m b))

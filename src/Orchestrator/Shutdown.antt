-- ===== src/Orchestrator/Shutdown.antt =====
-- `shutdown_children` of process_runtime.rs: which services are stopped, in which order and with how
-- much time. `terminate_child` is the operating system's.
pub mod Sequence
use krab_pub.Common.{ℕ, Bool, not, List, [], ◌∷◌, ◌++◌, map, Option, none, some, filter}
use krab_pub.Common.Text.{Text}
use krab_pub.Store.Interface.{contains}
use krab_pub.Entries.{lookup, contains_key}
use krab_pub.Orchestrator.Configuration.{
  ServiceDefinition, Services, from_millis, default_shutdown_timeout_ms,
}
use krab_pub.Orchestrator.Startup.{sort}
use krab_pub.Orchestrator.Supervision.{Supervisor, child_names}

abbrev pub timeout_of : Option ServiceDefinition → ℕ
timeout_of none = from_millis default_shutdown_timeout_ms
timeout_of (some service) = from_millis service.shutdown_timeout_ms

unfoldable pub shutdown_timeout_for : Services → Text → ℕ
shutdown_timeout_for services name = timeout_of (lookup name services)

-- `iter().rev()`, onto what is reversed already.
unfoldable pub reverse_onto : List Text → List Text → List Text
reverse_onto acc [] = acc
reverse_onto acc (name ∷ names) = reverse_onto (name ∷ acc) names

module _ {Child : Type 0} where
  -- What runs and the startup order does not mention.
  unfoldable pub orphans : List Text → List (Text × Child) → List Text
  unfolding sort
  orphans startup_order children =
      sort (filter (λ name. not (contains name startup_order)) (child_names children))

  unfoldable pub shutdown_names : List Text → List (Text × Child) → List Text
  unfolding reverse_onto orphans
  shutdown_names startup_order children =
      filter (λ name. contains_key name children) (reverse_onto [] startup_order)
      ++ orphans startup_order children

  -- The children terminated, each with its timeout; none is left.
  unfoldable pub shutdown_children :
      Services → List Text → Supervisor Child → Supervisor Child × List (Text × ℕ)
  unfolding shutdown_names shutdown_timeout_for
  shutdown_children services startup_order s = (
    record s { children = [] },
    map (λ name. (name, shutdown_timeout_for services name))
        (shutdown_names startup_order s.children),
  )

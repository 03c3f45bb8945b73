-- ===== src/Tests/Orchestrator.antt =====
-- The orchestrator at fixed manifests.
use krab_pub.Common.{ℕ, ◌≡◌, ◌≢◌, refl, sym, ◌∙◌, true, false, List, [], ◌∷◌, none, map, arith}
use krab_pub.Common.Text.{Text, codes, text_eq, text_eq_iff}
use krab_pub.Entries.{lookup, contains_key, Distinct}
use krab_pub.Orchestrator.Configuration.{ServiceDefinition, Services}
use krab_pub.Orchestrator.Startup.{
  visited, refused, unfinished, dependency_cycle, unknown_dependency, resolve_startup_order,
}
use krab_pub.Orchestrator.Startup.Order.{IsStartupOrder, resolve_startup_order-dependencies_first}
use krab_pub.Orchestrator.Startup.Errors.{
  DependsOn, Reaches, direct, onward, resolve_startup_order-finishes, resolve_startup_order-refused,
  resolve_startup_order-acyclic,
}
use krab_pub.Orchestrator.Shutdown.{shutdown_children}
use krab_pub.Orchestrator.Shutdown.Sequence.{IsOutlived, AllTimed, shutdown_children-IsOutlived}
use krab_pub.Orchestrator.Supervision.{Supervisor}
use krab_pub.Store.Interface.{contains, Unique}

abbrev web : Text
web = codes "web"

abbrev auth : Text
auth = codes "auth"

abbrev users : Text
users = codes "users"

abbrev service_after : List Text → List Text → ServiceDefinition
service_after depends_on startup_dependencies = record {
  command = codes "cargo";
  args = [];
  port = none;
  service_name = none;
  env = [];
  cwd = none;
  watch = false;
  restart_on_exit = true;
  restart_backoff_ms = 500;
  max_restart_attempts = 2;
  healthcheck_url = none;
  healthcheck_timeout_ms = 1200;
  shutdown_timeout_ms = 5000;
  depends_on = depends_on;
  startup_dependencies = startup_dependencies;
  restart_policy = none;
  healthcheck = none;
}

abbrev three : Services
three =
    (web, service_after (auth ∷ []) (users ∷ []))
    ∷ (users, service_after (auth ∷ []) [])
    ∷ (auth, service_after [] [])
    ∷ []

abbrev looped : Services
looped = (web, service_after (auth ∷ []) []) ∷ (auth, service_after [] (web ∷ [])) ∷ []

abbrev dangling : Services
dangling = (web, service_after (auth ∷ []) []) ∷ []

three_order : resolve_startup_order three ≡ visited (auth ∷ users ∷ web ∷ [])
unfolding resolve_startup_order lookup text_eq krab_pub.Entries.insert
three_order = refl

looped_refused : resolve_startup_order looped ≡ refused (dependency_cycle auth)
unfolding resolve_startup_order lookup text_eq krab_pub.Entries.insert
looped_refused = refl

dangling_refused : resolve_startup_order dangling ≡ refused (unknown_dependency web auth)
unfolding resolve_startup_order lookup text_eq
dangling_refused = refl

resolve_startup_order-dependencies_first_example : IsStartupOrder three (auth ∷ users ∷ web ∷ [])
resolve_startup_order-dependencies_first_example =
    resolve_startup_order-dependencies_first three (auth ∷ users ∷ web ∷ []) three_order

resolve_startup_order-finishes_example : resolve_startup_order looped ≢ unfinished
resolve_startup_order-finishes_example = resolve_startup_order-finishes looped

resolve_startup_order-refused_example : Reaches looped auth auth
resolve_startup_order-refused_example =
    resolve_startup_order-refused looped (dependency_cycle auth) looped_refused

abbrev two : Services
two = (web, service_after (auth ∷ []) []) ∷ (auth, service_after [] []) ∷ []

two-edges : (k dep : Text) → DependsOn two k dep → (web ≡ k) × (auth ≡ dep)
unfolding lookup
two-edges k dep (service, found, i) =
    ground (arith, text_eq_iff web k, text_eq_iff auth k, text_eq_iff auth dep)

Reaches-edges : (k j : Text) → Reaches two k j → (web ≡ k) × (auth ≡ j)
Reaches-edges k j (direct d) = two-edges k j d
Reaches-edges k j (onward {node} r d) = ((Reaches-edges k node r).0, (two-edges node j d).1)

two-acyclic : (k : Text) → ¬ Reaches two k k
two-acyclic k r = let (a, b) = Reaches-edges k k r in ground (arith, a ∙ sym b)

two-closed : (k dep : Text) → DependsOn two k dep → contains_key dep two ≡ true
unfolding lookup text_eq
two-closed k dep d = let (a, b) = two-edges k dep d in rw (sym b) refl

resolve_startup_order-acyclic_example :
    (order : List Text) × (resolve_startup_order two ≡ visited order) × IsStartupOrder two order
resolve_startup_order-acyclic_example = resolve_startup_order-acyclic two two-acyclic two-closed

abbrev children : List (Text × ℕ)
children = (codes "old", 4) ∷ (auth, 1) ∷ (web, 2) ∷ []

abbrev running : Supervisor ℕ
running = record { children = children; supervision = [] }

abbrev stopped : List (Text × ℕ)
stopped = (shutdown_children three (auth ∷ users ∷ web ∷ []) running).1

children-Distinct : Distinct children
unfolding lookup text_eq
children-Distinct = (refl, (refl, (refl, tt)))

shutdown_test : shutdown_children three (auth ∷ users ∷ web ∷ []) running ≡ (
  record running { children = [] },
  (web, 5_000_000_000) ∷ (auth, 5_000_000_000) ∷ (codes "old", 5_000_000_000) ∷ [],
)
unfolding shutdown_children lookup text_eq
shutdown_test = refl

shutdown_children-IsOutlived_example :
    ((shutdown_children three (auth ∷ users ∷ web ∷ []) running).0.children ≡ [])
    × IsOutlived three (λ name. contains_key name children) (map (λ stop. stop.0) stopped)
    × ((k : Text) → contains k (map (λ stop. stop.0) stopped) ≡ contains_key k children)
    × Unique (map (λ stop. stop.0) stopped)
    × AllTimed three stopped
shutdown_children-IsOutlived_example =
    shutdown_children-IsOutlived three (auth ∷ users ∷ web ∷ []) running
      resolve_startup_order-dependencies_first_example children-Distinct

-- ===== src/Tests/Supervision.antt =====
-- Supervision at fixed runs. A child is a number.
use krab_pub.Common.{
  ℕ, ◌*◌, ◌+◌, ◌≡◌, ◌≤◌, refl, true, false, List, [], ◌∷◌, Option, none, some, arith, inr,
}
use krab_pub.Common.Text.{Text, codes, text_eq}
use krab_pub.Entries
use krab_pub.Entries.{lookup}
use krab_pub.Orchestrator.Configuration.{ServiceDefinition, Services}
use krab_pub.Orchestrator.Supervision.{
  ServiceSupervision, started_now, Poll, running, exited, budget_reset, Supervisor, Reaping,
  Spawning, supervise_children, run, restarts, is_restarted,
}
use krab_pub.Orchestrator.Supervision.View.{view, tick_view}
use krab_pub.Orchestrator.Supervision.Tick.{supervise_children-view}
use krab_pub.Orchestrator.Supervision.Budget.{InBudget}
use krab_pub.Orchestrator.Supervision.Restarts.{run-InBudget, restarts-bounded}
use krab_pub.Orchestrator.Supervision.Backoff.{given_up, restarted_after_backoff}

abbrev web : Text
web = codes "web"

abbrev auth : Text
auth = codes "auth"

-- Two restarts, half a second apart.
abbrev service : ServiceDefinition
service = record {
  command = codes "cargo";
  args = [];
  port = none;
  service_name = none;
  env = [];
  cwd = none;
  watch = false;
  restart_on_exit = true;
  restart_backoff_ms = 500;
  max_restart_attempts = 2;
  healthcheck_url = none;
  healthcheck_timeout_ms = 1200;
  shutdown_timeout_ms = 5000;
  depends_on = [];
  startup_dependencies = [];
  restart_policy = none;
  healthcheck = none;
}

abbrev services : Services
services = (auth, service) ∷ (web, service) ∷ []

abbrev order : List Text
order = auth ∷ web ∷ []

abbrev ms : ℕ → ℕ
ms n = n * 1_000_000

abbrev tick : ℕ → Poll → Option ℕ → Reaping × Spawning ℕ
tick now poll child = (
  record { now = ms now; poll = λ _. poll; entered = λ _. ms now },
  record { now = ms now; child = λ _. child; later = λ _. ms now },
)

abbrev up : Supervisor ℕ
up = record {
  children = (auth, 1) ∷ (web, 2) ∷ [];
  supervision = (auth, started_now 0) ∷ (web, started_now 0) ∷ [];
}

abbrev spent : ServiceSupervision
spent = record { attempts = 2; started_at = 0; retry_at = none }

abbrev worn : Supervisor ℕ
worn = record { children = (web, 2) ∷ []; supervision = (web, spent) ∷ [] }

abbrev crashes : List (Reaping × Spawning ℕ)
crashes = tick 1000 exited (some 3) ∷ tick 1500 exited (some 4) ∷ tick 1800 exited none ∷ []

restarts-crashes : restarts services order crashes web up ≡ 1
unfolding restarts lookup text_eq Entries.insert Entries.remove
restarts-crashes = refl

supervise_children-view_example :
    view web (supervise_children services order (tick 1000 exited (some 3)) up)
    ≡ tick_view (some service) true (tick 1000 exited (some 3)) web (some 2, some (started_now 0))
unfolding lookup text_eq
supervise_children-view_example =
    supervise_children-view services order (tick 1000 exited (some 3)) web up (refl, (refl, tt))

run-InBudget_example : InBudget service (view web (run services order crashes up))
unfolding lookup text_eq
run-InBudget_example =
    run-InBudget services order web service crashes up (refl, (refl, tt)) refl (omega arith)
      (omega arith, (λ h. ground arith), λ _. refl)

restarts-bounded_example : 0 + restarts services order (tick 1000 exited (some 3) ∷ []) web up ≤ 2
unfolding lookup text_eq
restarts-bounded_example =
    restarts-bounded services order web service (tick 1000 exited (some 3) ∷ []) up
      (refl, (refl, tt)) refl (omega arith) (omega arith, (λ h. ground arith), λ _. refl)
      ((λ _ _. omega arith), tt)

given_up_example :
    (lookup web
        (run services order (tick 1000 exited none ∷ tick 9000 running none ∷ []) worn).children
      ≡ none)
    × (restarts services order (tick 1000 exited none ∷ tick 9000 running none ∷ []) web worn ≡ 0)
unfolding lookup text_eq
given_up_example =
    given_up services order web service (tick 1000 exited none) (tick 9000 running none ∷ []) worn 2
      spent (refl, (refl, tt)) refl refl refl refl (inr (omega arith, omega arith))

abbrev before : List (Reaping × Spawning ℕ)
before = tick 1000 exited (some 3) ∷ tick 1400 running (some 3) ∷ []

restarted_after_backoff_example :
    (restarts services order before web up ≡ 0)
    × (is_restarted services order (tick 1500 running (some 4)) web (run services order before up)
        ≡ true)
    × (lookup web
          (supervise_children services order
            (tick 1500 running (some 4))
            (run services order before up)).children
        ≡ some 4)
unfolding lookup text_eq budget_reset
restarted_after_backoff_example =
    restarted_after_backoff services order web service (tick 1000 exited (some 3))
      (tick 1500 running (some 4)) (tick 1400 running (some 3) ∷ []) up 2 (started_now 0)
      (refl, (refl, tt)) refl refl refl refl refl refl (omega arith)
      (omega arith, (omega arith, tt)) (omega arith)

-- ===== src/Orchestrator/Configuration.antt =====
-- The manifest of configuration.rs, parsed: the toml reader is not modelled.
use krab_pub.Common.{max, ℕ, ◌*◌, Bool, List, Option, none, some, ◌++◌}
use krab_pub.Common.Text.{Text}

pub record RestartPolicyConfig : Type 0 where
  pub on_exit : Bool
  pub backoff_ms : ℕ
  pub max_attempts : ℕ
  pub stability_window_ms : ℕ

pub record HealthProbeConfig : Type 0 where
  pub url : Text
  pub timeout_ms : ℕ
  pub retries : ℕ
  pub interval_ms : ℕ

pub record ServiceDefinition : Type 0 where
  pub command : Text
  pub args : List Text
  pub port : Option ℕ
  pub service_name : Option Text
  pub env : List (Text × Text)
  pub cwd : Option Text
  pub watch : Bool
  pub restart_on_exit : Bool
  pub restart_backoff_ms : ℕ
  pub max_restart_attempts : ℕ
  pub healthcheck_url : Option Text
  pub healthcheck_timeout_ms : ℕ
  pub shutdown_timeout_ms : ℕ
  pub depends_on : List Text
  pub startup_dependencies : List Text
  pub restart_policy : Option RestartPolicyConfig
  pub healthcheck : Option HealthProbeConfig

abbrev pub Services : Type 0
Services = List (Text × ServiceDefinition)

abbrev pub default_restart_stability_window_ms : ℕ
default_restart_stability_window_ms = 60_000

abbrev pub default_shutdown_timeout_ms : ℕ
default_shutdown_timeout_ms = 5000

-- An `Instant` counts nanoseconds, and so does a `Duration`.
abbrev pub from_millis : ℕ → ℕ
from_millis ms = ms * 1_000_000

abbrev pub effective_restart_on_exit : ServiceDefinition → Bool
effective_restart_on_exit service = elim service.restart_policy [
  | none ↦ service.restart_on_exit
  | some p ↦ p.on_exit
]

abbrev pub effective_restart_backoff_ms : ServiceDefinition → ℕ
effective_restart_backoff_ms service = elim service.restart_policy [
  | none ↦ service.restart_backoff_ms
  | some p ↦ p.backoff_ms
]

abbrev pub effective_max_restart_attempts : ServiceDefinition → ℕ
effective_max_restart_attempts service = elim service.restart_policy [
  | none ↦ service.max_restart_attempts
  | some p ↦ p.max_attempts
]

abbrev pub effective_restart_stability_window : ServiceDefinition → ℕ
effective_restart_stability_window service = from_millis (elim service.restart_policy [
  | none ↦ default_restart_stability_window_ms
  | some p ↦ p.stability_window_ms
])

-- `depends_on` chained with `startup_dependencies`.
abbrev pub dependencies : ServiceDefinition → List Text
dependencies service = service.depends_on ++ service.startup_dependencies

abbrev pub default_healthcheck_retries : ℕ
default_healthcheck_retries = 10

abbrev pub default_healthcheck_interval_ms : ℕ
default_healthcheck_interval_ms = 250

abbrev pub effective_healthcheck_url : ServiceDefinition → Option Text
effective_healthcheck_url service = elim service.healthcheck [
  | none ↦ service.healthcheck_url
  | some h ↦ some h.url
]

abbrev pub effective_healthcheck_timeout_ms : ServiceDefinition → ℕ
effective_healthcheck_timeout_ms service = elim service.healthcheck [
  | none ↦ service.healthcheck_timeout_ms
  | some h ↦ h.timeout_ms
]

abbrev pub effective_healthcheck_retries : ServiceDefinition → ℕ
effective_healthcheck_retries service =
    max (elim service.healthcheck [ none ↦ default_healthcheck_retries | some h ↦ h.retries ]) 1

abbrev pub effective_healthcheck_interval_ms : ServiceDefinition → ℕ
effective_healthcheck_interval_ms service = elim service.healthcheck [
  | none ↦ default_healthcheck_interval_ms
  | some h ↦ h.interval_ms
]

abbrev pub min_poll_ms : ℕ
min_poll_ms = 50

abbrev pub min_settle_ms : ℕ
min_settle_ms = 50

pub record WatchConfig : Type 0 where
  pub enabled : Bool
  pub poll_ms : ℕ
  pub settle_ms : ℕ
  pub paths : List Text

abbrev pub effective_poll_interval : WatchConfig → ℕ
effective_poll_interval c = from_millis (max c.poll_ms min_poll_ms)

abbrev pub effective_settle : WatchConfig → ℕ
effective_settle c = from_millis (max c.settle_ms min_settle_ms)

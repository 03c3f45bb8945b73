-- ===== src/Tests/Identity.antt =====
-- The identity check and the environment at fixed manifests.
use krab_pub.Common.{
  ℕ, ◌≡◌, ◌≢◌, refl, Bool, true, false, List, [], ◌∷◌, Option, none, some, ok, err, arith,
}
use krab_pub.Common.Text.{Text, codes, text_eq}
use krab_pub.Common.Text.Decimal.{parse_u64}
use krab_pub.Entries.{lookup}
use krab_pub.Orchestrator.Configuration.{ServiceDefinition, Services}
use krab_pub.Orchestrator.Identity.{
  port_env_key, service_name_env_key, effective_service_name, resolved_env, effective_port,
  same_port, Seen, Checked, accepted, rejected, validate_service_identity,
}
use krab_pub.Orchestrator.Identity.Distinctness.{validate_service_identity-distinct}
use krab_pub.Orchestrator.Identity.Environment.{or_else, injected, lookup-resolved_env}

abbrev web : Text
web = codes "web"

abbrev auth : Text
auth = codes "auth"

abbrev service_on : Option ℕ → List (Text × Text) → ServiceDefinition
service_on port env = record {
  command = codes "cargo";
  args = [];
  port = port;
  service_name = none;
  env = env;
  cwd = none;
  watch = false;
  restart_on_exit = true;
  restart_backoff_ms = 500;
  max_restart_attempts = 5;
  healthcheck_url = none;
  healthcheck_timeout_ms = 1200;
  shutdown_timeout_ms = 5000;
  depends_on = [];
  startup_dependencies = [];
  restart_policy = none;
  healthcheck = none;
}

abbrev pinned : List (Text × Text)
pinned = (port_env_key, codes " 3001 ") ∷ []

abbrev fine : Services
fine = (web, service_on (some 3000) []) ∷ (auth, service_on (some 3000) pinned) ∷ []

abbrev clash : Services
clash = (web, service_on (some 3001) []) ∷ (auth, service_on (some 3000) pinned) ∷ []

abbrev fine_seen : Seen
fine_seen = record {
  ports_seen = (3000, web) ∷ (3001, auth) ∷ [];
  identities_seen = (web, web) ∷ (auth, auth) ∷ [];
}

validate-fine : validate_service_identity fine ≡ accepted fine_seen
unfolding validate_service_identity lookup text_eq parse_u64
validate-fine = refl

validate-clash : validate_service_identity clash ≡ rejected (same_port auth web 3001)
unfolding validate_service_identity lookup text_eq parse_u64
validate-clash = refl

validate_service_identity-distinct_example :
    (effective_service_name (service_on (some 3000) []) web
      ≢ effective_service_name (service_on (some 3000) pinned) auth)
    × (effective_port (service_on (some 3000) []) ≢ err)
    × ((p : ℕ)
        → effective_port (service_on (some 3000) []) ≡ ok (some p)
        → (p ≢ 0) × (effective_port (service_on (some 3000) pinned) ≢ ok (some p)))
unfolding lookup text_eq
validate_service_identity-distinct_example =
    validate_service_identity-distinct fine fine_seen web auth (service_on (some 3000) [])
      (service_on (some 3000) pinned) validate-fine refl refl (λ e. ground arith)

lookup-resolved_env_example :
    lookup port_env_key (resolved_env (service_on (some 3000) pinned) auth)
    ≡ or_else
        (lookup port_env_key pinned)
        (injected (service_on (some 3000) pinned) auth port_env_key)
unfolding lookup text_eq
lookup-resolved_env_example =
    lookup-resolved_env (service_on (some 3000) pinned) auth port_env_key (refl, tt)

-- Two services that set the same name in `env` pass the check, and both are given that name.
abbrev renamed : Services
renamed =
    (web, service_on none ((service_name_env_key, codes "api") ∷ []))
    ∷ (auth, service_on none ((service_name_env_key, codes "api") ∷ []))
    ∷ []

is_accepted : Checked → Bool
is_accepted (accepted seen) = true
is_accepted (rejected e) = false

validate-renamed :
    (is_accepted (validate_service_identity renamed) ≡ true)
    × (lookup service_name_env_key
          (resolved_env (service_on none ((service_name_env_key, codes "api") ∷ [])) web)
        ≡ some (codes "api"))
    × (lookup service_name_env_key
          (resolved_env (service_on none ((service_name_env_key, codes "api") ∷ [])) auth)
        ≡ some (codes "api"))
unfolding is_accepted validate_service_identity lookup text_eq parse_u64 resolved_env
    krab_pub.Entries.insert
validate-renamed = (refl, refl, refl)

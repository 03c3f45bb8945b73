-- ===== src/Orchestrator/Identity/Environment.antt =====
-- The environment that the orchestrator gives a service.
use krab_pub.Common.{ℕ, ◌≡◌, refl, ap, ◌∙◌, List, [], ◌∷◌, Option, none, some, if◌then◌else◌, arith}
use krab_pub.Common.Text.{Text, text_eq, text_eq_iff}
use krab_pub.Common.Text.Decimal.{to_string}
use krab_pub.Entries.{lookup, insert, lookup-insert, Distinct}
use krab_pub.Orchestrator.Configuration.{ServiceDefinition}
use krab_pub.Orchestrator.Identity.{
  port_env_key, service_name_env_key, effective_service_name, insert_all, injected_port,
  resolved_env,
}

abbrev pub or_else : Option Text → Option Text → Option Text
or_else none o = o
or_else (some v) o = some v

lookup-insert_all :
    (n : Text) (entries env : List (Text × Text))
    → Distinct entries
    → lookup n (insert_all entries env) ≡ or_else (lookup n entries) (lookup n env)
unfolding insert_all lookup
lookup-insert_all n [] env d = refl
lookup-insert_all n ((name, value) ∷ entries) env d = ground (
  arith,
  lookup-insert_all n entries (insert name value env) d.1,
  lookup-insert name n value env,
  text_eq_iff name n,
)

-- What the orchestrator itself injects under a name.
abbrev pub injected : ServiceDefinition → Text → Text → Option Text
injected service key n =
    if text_eq port_env_key n
    then (elim service.port as (λ _. Option Text) [
      | none ↦ none
      | some port ↦ some (to_string port)
    ])
    else if text_eq service_name_env_key n
    then some (effective_service_name service key)
    else none

lookup-injected_port :
    (n name : Text) (port : Option ℕ)
    → lookup n (injected_port port (insert service_name_env_key name [])) ≡ (
        if text_eq port_env_key n
        then (elim port as (λ _. Option Text) [ none ↦ none | some p ↦ some (to_string p) ])
        else if text_eq service_name_env_key n
        then some name
        else none)
unfolding injected_port insert lookup text_eq
lookup-injected_port n name none =
    ground (arith, text_eq_iff port_env_key n, text_eq_iff service_name_env_key n)
lookup-injected_port n name (some p) =
    ground (arith, text_eq_iff port_env_key n, text_eq_iff service_name_env_key n)

-- A service sees the value that the manifest's `env` gives to a name, if it gives one; otherwise its
-- port under KRAB_PORT, if it declares one, its effective name under KRAB_SERVICE_NAME, and nothing
-- else from the orchestrator.
pub lookup-resolved_env :
    (service : ServiceDefinition) (key n : Text)
    → Distinct service.env
    → lookup n (resolved_env service key) ≡ or_else (lookup n service.env) (injected service key n)
unfolding resolved_env
lookup-resolved_env service key n d =
    lookup-insert_all n service.env _ d
    ∙ ap (or_else (lookup n service.env))
        (lookup-injected_port n (effective_service_name service key) service.port)

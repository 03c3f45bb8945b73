-- ===== src/Orchestrator/Identity.antt =====
-- `validate_service_identity` of configuration.rs, and the environment that a service is given.
pub mod Distinctness
pub mod Environment
use krab_pub.Common.{
  not, is_some, ℕ, Bool, true, false, ◌&&◌, ◌||◌, List, [], ◌∷◌, Option, none, some, leb, ◌==◌,
  if◌then◌else◌, Result, ok, err,
}
use krab_pub.Common.Text.{Text, codes}
use krab_pub.Common.Text.Decimal.{to_string, parse_u64}
use krab_pub.Entries.{lookup, insert, contains_key}
use krab_pub.Orchestrator.Configuration.{ServiceDefinition, Services}
use krab_pub.Orchestrator.Startup.{names_of, sort}

abbrev pub port_env_key : Text
port_env_key = codes "KRAB_PORT"

abbrev pub service_name_env_key : Text
service_name_env_key = codes "KRAB_SERVICE_NAME"

-- `char::is_whitespace`: the Unicode property White_Space.
unfoldable pub is_whitespace : ℕ → Bool
is_whitespace c =
    (leb 9 c && leb c 13)
    || c == 32
    || c == 133
    || c == 160
    || c == 5760
    || (leb 8192 c && leb c 8202)
    || c == 8232
    || c == 8233
    || c == 8239
    || c == 8287
    || c == 12288

unfoldable pub trim_start : Text → Text
unfolding is_whitespace
trim_start [] = []
trim_start (c ∷ s) = let rest = trim_start s in if is_whitespace c then rest else c ∷ s

abbrev pub is_nil : Text → Bool
is_nil [] = true
is_nil (c ∷ s) = false

unfoldable pub trim_end : Text → Text
unfolding is_whitespace
trim_end [] = []
trim_end (c ∷ s) = let rest = trim_end s in if is_nil rest && is_whitespace c then [] else c ∷ rest

unfoldable pub trim : Text → Text
unfolding trim_start trim_end
trim s = trim_start (trim_end s)

-- `str::parse::<u16>`.
unfoldable pub parse_u16 : Text → Option ℕ
parse_u16 s = elim (parse_u64 s) [ none ↦ none | some n ↦ if leb n 65535 then some n else none ]

unfoldable pub effective_service_name : ServiceDefinition → Text → Text
unfolding trim
effective_service_name service key = elim service.service_name [
  | none ↦ key
  | some name ↦ if is_nil (trim name) then key else trim name
]

-- The entries of the manifest's `env`, inserted one after the other.
unfoldable pub insert_all : List (Text × Text) → List (Text × Text) → List (Text × Text)
insert_all [] env = env
insert_all ((name, value) ∷ entries) env = insert_all entries (insert name value env)

unfoldable pub injected_port : Option ℕ → List (Text × Text) → List (Text × Text)
injected_port none env = env
injected_port (some port) env = insert port_env_key (to_string port) env

unfoldable pub resolved_env : ServiceDefinition → Text → List (Text × Text)
unfolding insert_all injected_port effective_service_name
resolved_env service key = insert_all service.env (
    injected_port service.port
      (insert service_name_env_key (effective_service_name service key) []))

unfoldable pub port_is_unpinned : ServiceDefinition → Bool
port_is_unpinned service = not (is_some service.port) && not (contains_key port_env_key service.env)

-- The port the service will bind, or an entry of `env` that is no port number.
unfoldable pub effective_port : ServiceDefinition → Result (Option ℕ)
unfolding parse_u16 trim
effective_port service = elim (lookup port_env_key service.env) [
  | none ↦ ok service.port
  | some raw ↦ elim (parse_u16 (trim raw)) [ none ↦ err | some port ↦ ok (some port) ]
]

pub data IdentityError : Type 0 where
  not_a_port : Text → IdentityError
  port_zero : Text → IdentityError
  same_port : Text → Text → ℕ → IdentityError
  same_name : Text → Text → Text → IdentityError

pub record Seen : Type 0 where
  pub ports_seen : List (ℕ × Text)
  pub identities_seen : List (Text × Text)

pub data Checked : Type 0 where
  accepted : Seen → Checked
  rejected : IdentityError → Checked

-- The service that claimed a port before.
unfoldable pub claimant : ℕ → List (ℕ × Text) → Option Text
claimant port [] = none
claimant port ((p, key) ∷ ports) = if p == port then some key else claimant port ports

unfoldable pub claim_port : Text → Option ℕ → Seen → Checked
unfolding claimant
claim_port key none seen = accepted seen
claim_port key (some port) seen =
    let claimed = elim (claimant port seen.ports_seen) as (λ _. Checked) [
      | none ↦ accepted (record seen { ports_seen = (port, key) ∷ seen.ports_seen })
      | some previous ↦ rejected (same_port previous key port)
    ] in
    if port == 0 then rejected (port_zero key) else claimed

unfoldable pub claim_name : Text → Text → Seen → Checked
claim_name key identity seen = elim (lookup identity seen.identities_seen) [
  | none ↦ accepted (record seen { identities_seen = (identity, key) ∷ seen.identities_seen })
  | some previous ↦ rejected (same_name previous key identity)
]

unfoldable pub and_check : Checked → (Seen → Checked) → Checked
and_check (accepted seen) next = next seen
and_check (rejected e) next = rejected e

unfoldable pub claim_all : Text → ServiceDefinition → Result (Option ℕ) → Seen → Checked
unfolding claim_port claim_name and_check effective_service_name
claim_all key service err seen = rejected (not_a_port key)
claim_all key service (ok port) seen =
    and_check (claim_port key port seen) (claim_name key (effective_service_name service key))

-- The body of the loop, which finds every name in the manifest that it was taken from.
unfoldable pub check_service : Text → Option ServiceDefinition → Seen → Checked
unfolding claim_all effective_port
check_service key none seen = accepted seen
check_service key (some service) seen = claim_all key service (effective_port service) seen

unfoldable pub check_names : Services → List Text → Seen → Checked
unfolding check_service and_check
check_names services [] seen = accepted seen
check_names services (key ∷ names) seen =
    and_check (check_service key (lookup key services) seen) (check_names services names)

unfoldable pub validate_service_identity : Services → Checked
unfolding check_names sort
validate_service_identity services =
    check_names services (sort (names_of services))
      (record { ports_seen = []; identities_seen = [] })

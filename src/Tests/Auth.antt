-- ===== src/Tests/Auth.antt =====
-- Requests at fixed inputs. The JSON values of the tests are texts, a key is a number, and every token
-- decodes to the claims that the test names.
use krab_pub.Common.{
  ℕ, ◌≡◌, refl, ◌⊎◌, ◌↔◌, true, false, List, [], ◌∷◌, Option, none, some, ok, if◌then◌else◌,
}
use krab_pub.Common.Text.{Text, codes, text_eq}
use krab_pub.Store.Interface.{Times}
use krab_pub.Store.Memory
use krab_pub.Store.Memory.{MemoryStore, with_max_entries}
use krab_pub.Auth.Paths.{is_internal_service_path}
use krab_pub.Auth.Algorithms.{hs256}
use krab_pub.Auth.Claims.{
  Json, JwtClaims, scopes_from_claims, tenant_from_claims, roles_from_claims,
}
use krab_pub.Auth.Policy.{RoutePolicy, AuthPolicy, Caller, allowed, refused, enforce}
use krab_pub.Auth.Among.{IsIn}
use krab_pub.Auth.Permits.{Permits, enforce_iff}
use krab_pub.Auth.Verify.{AuthContext, Decoded, verified, TokenHeader, JwtProvider}
use krab_pub.Auth.Authorize.{Settings, authorize_request}
use krab_pub.Auth.Middleware.{
  CounterStore, Answer, passed_on, answered, Runtime, Clock, needs_no_auth, auth_middleware,
  after_auth, fail_key, service_auth_middleware,
}
use krab_pub.Auth.Reached.{IsCleared, after_auth-IsCleared}

abbrev texts : Json
texts = record { Value = Text; as_str = some; as_array = λ v. none; same = text_eq }

abbrev members : JwtClaims texts → Option (List (Text × Text))
members c = some []

abbrev claims : JwtClaims texts
claims = record {
  sub = some (codes "ann");
  iss = none;
  aud = none;
  exp = none;
  jti = some (codes "7");
  token_use = none;
  tid = none;
  tenant_id = some (codes "acme");
  scope = some (codes "read admin");
  scp = none;
  roles = none;
  role = none;
  extra = [];
}

abbrev route : RoutePolicy
route = record {
  prefix = codes "/api/reports";
  all_scopes = codes "read" ∷ [];
  any_scopes = [];
  all_roles = [];
  any_roles = [];
  allow_subjects = codes "ann" ∷ [];
  require_tenant_match = false;
}

abbrev policy : AuthPolicy texts
policy = record {
  required_scopes = codes "read" ∷ [];
  required_roles = [];
  admin_scope = codes "admin";
  admin_role = codes "admin";
  require_tenant_claim = true;
  require_tenant_match = true;
  route_policies = ok (route ∷ []);
  required_claims = ok [];
}

abbrev ann : Caller
ann = record {
  subject = some (codes "ann");
  tenant = some (codes "acme");
  scopes = codes "read" ∷ [];
  roles = [];
}

reports_allowed : enforce texts members policy (codes "/api/reports") claims ann ≡ allowed
unfolding enforce
reports_allowed = refl

admin_refused : enforce texts members policy (codes "/api/v1/admin/x") claims ann ≡ refused 401
unfolding enforce
admin_refused = refl

other_tenant_refused :
    enforce texts members policy (codes "/api/tenants/umbrella/x") claims ann ≡ refused 401
unfolding enforce
other_tenant_refused = refl

enforce_iff_example :
    (enforce texts members policy (codes "/api/reports") claims ann ≡ allowed)
    ↔ Permits texts members policy (codes "/api/reports") claims ann
enforce_iff_example = enforce_iff texts members policy (codes "/api/reports") claims ann

abbrev counter_store : CounterStore
counter_store = record {
  State = MemoryStore;
  get = λ s t k. ((Memory.get s k t.call).0, ok (Memory.get s k t.call).1);
  incr_with_ttl = λ s t k by ttl. Memory.incr_with_ttl s t k by ttl;
}

abbrev provider : JwtProvider texts ℕ
provider = record {
  name = none;
  issuer = none;
  audience = none;
  key_ids = codes "k1" ∷ [];
  required_claims = [];
  keys = λ kid family. if text_eq kid (codes "k1") then some 1 else none;
  retire_at = [];
  jwks = none;
}

abbrev decode_header : Text → Option TokenHeader
decode_header token = some (record { alg = hs256; kid = some (codes "k1") })

abbrev decode : Text → TokenHeader → ℕ → Decoded texts
decode token header key = verified claims

abbrev runtime : Runtime texts
runtime = record {
  auth_open_paths = codes "/health" ∷ [];
  auth_open_paths_explicit = true;
  public_paths = [];
  code_public_paths = [];
  auth_fail_threshold = 20;
  auth_fail_window_secs = 60;
  auth_policy = policy;
}

abbrev settings : Settings
settings = record { allowed_algs = none; require_kid = false; load_failed = false; now = 5 }

abbrev times : Times
times = record { call = 9; sweep = 9 }

abbrev clock : Clock
clock = record { lookup = times; revocation = times; count = times }

abbrev respond : Text → MemoryStore × Answer
respond path = after_auth (codes "svc") path (
    auth_middleware counter_store runtime decode_header clock (codes "ip") 3
      (some (codes "Bearer t")) path
      (authorize_request texts ℕ members decode_header decode (codes "jwt") (ok none) settings
        (provider ∷ []) policy (some (codes "Bearer t")) path)
      (with_max_entries 4))

abbrev seen : Option AuthContext
seen = some (record {
  subject = some (codes "ann");
  issuer = none;
  provider = some (codes "provider");
  token_id = some (codes "7");
  token_use = none;
  tenant_id = some (codes "acme");
  scopes = codes "read" ∷ codes "admin" ∷ [];
  roles = [];
})

admin_reached : respond (codes "/api/admin") ≡ (with_max_entries 4, passed_on seen)
unfolding auth_middleware authorize_request with_max_entries scopes_from_claims tenant_from_claims
    roles_from_claims Memory.get service_auth_middleware
admin_reached = refl

-- An internal path wants the service scope, which the caller lacks.
internal_refused : (respond (codes "/internal/jobs")).1 ≡ answered 403
unfolding auth_middleware authorize_request with_max_entries service_auth_middleware
    scopes_from_claims tenant_from_claims Memory.get
internal_refused = refl

abbrev admin_path : Text
admin_path = codes "/api/admin"

after_auth-IsCleared_example :
    (((needs_no_auth runtime admin_path ≡ true) × (seen ≡ none))
      ⊎ ((s1 : MemoryStore) × ((s1 ≡ with_max_entries 4)
            ⊎ (s1
                ≡ (counter_store.get
                    (with_max_entries 4)
                    clock.lookup
                    (fail_key (codes "ip") 3)).0))
          × IsCleared texts ℕ members decode_header decode counter_store runtime
              (codes "jwt")
              (ok none)
              settings
              (provider ∷ [])
              (some (codes "Bearer t"))
              admin_path
              clock
              s1
              seen))
    × (is_internal_service_path admin_path ≡ true
        → (ctx : AuthContext) × (seen ≡ some ctx) × IsIn (codes "svc") ctx.scopes)
after_auth-IsCleared_example =
    after_auth-IsCleared texts ℕ members decode_header decode counter_store runtime (codes "svc")
      (codes "jwt") (ok none) settings (provider ∷ []) clock (codes "ip") 3
      (some (codes "Bearer t")) admin_path (with_max_entries 4) (with_max_entries 4) seen
      admin_reached

-- ===== src/Auth/Policy.antt =====
-- `AuthPolicy::enforce`: which verified tokens a path admits.
use krab_pub.Common.{
  ℕ, Bool, true, false, not, ◌&&◌, ◌||◌, List, [], ◌∷◌, Option, none, some, if◌then◌else◌, is_some,
  Result, ok, err,
}
use krab_pub.Common.Text.{Text, text_eq, starts_with}
use krab_pub.Store.Interface.{contains}
use krab_pub.Entries.{lookup}
use krab_pub.Auth.Paths.{tenant_from_path, is_admin_api_path}
use krab_pub.Auth.Claims.{Json, JwtClaims, or_else}

pub record RoutePolicy : Type 0 where
  pub prefix : Text
  pub all_scopes : List Text
  pub any_scopes : List Text
  pub all_roles : List Text
  pub any_roles : List Text
  pub allow_subjects : List Text
  pub require_tenant_match : Bool

-- A result `err` is a variable whose JSON did not parse.
pub record AuthPolicy (J : Json) : Type 0 where
  pub required_scopes : List Text
  pub required_roles : List Text
  pub admin_scope : Text
  pub admin_role : Text
  pub require_tenant_claim : Bool
  pub require_tenant_match : Bool
  pub route_policies : Result (List RoutePolicy)
  pub required_claims : Result (List (Text × J.Value))

-- The caller, as `AuthContext` and `enforce` know it.
pub record Caller : Type 0 where
  pub subject : Option Text
  pub tenant : Option Text
  pub scopes : List Text
  pub roles : List Text

abbrev pub unauthorized : ℕ
unauthorized = 401

abbrev pub forbidden : ℕ
forbidden = 403

abbrev pub too_many_requests : ℕ
too_many_requests = 429

abbrev pub internal_server_error : ℕ
internal_server_error = 500

abbrev pub service_unavailable : ℕ
service_unavailable = 503

-- `Result<(), StatusCode>`.
pub data Verdict : Type 0 where
  allowed : Verdict
  refused : ℕ → Verdict

abbrev pub all_among : List Text → List Text → Bool
all_among [] held = true
all_among (s ∷ ss) held = contains s held && all_among ss held

abbrev pub any_among : List Text → List Text → Bool
any_among [] held = false
any_among (s ∷ ss) held = contains s held || any_among ss held

abbrev pub any_if_given : List Text → List Text → Bool
any_if_given [] held = true
any_if_given (s ∷ ss) held = any_among (s ∷ ss) held

abbrev pub is_tenant : Option Text → Option Text → Bool
is_tenant none t = false
is_tenant (some p) none = false
is_tenant (some p) (some t) = text_eq t p

-- Only a path that names a tenant is checked.
abbrev pub tenant_matches : Option Text → Option Text → Bool
tenant_matches none t = true
tenant_matches (some p) t = is_tenant (some p) t

abbrev pub subject_allowed : List Text → Option Text → Bool
subject_allowed [] subject = true
subject_allowed (s ∷ ss) none = false
subject_allowed (s ∷ ss) (some subject) = contains subject (s ∷ ss)

unfoldable pub route_allows : RoutePolicy → Text → Caller → Bool
unfolding text_eq tenant_from_path
route_allows p path c =
    all_among p.all_scopes c.scopes
    && (any_if_given p.any_scopes c.scopes
        && (all_among p.all_roles c.roles
            && (any_if_given p.any_roles c.roles
                && (subject_allowed p.allow_subjects c.subject
                    && (not p.require_tenant_match
                        || is_tenant (tenant_from_path path) c.tenant)))))

unfoldable pub routes_allow : List RoutePolicy → Text → Caller → Bool
unfolding route_allows starts_with
routes_allow [] path c = true
routes_allow (p ∷ ps) path c =
    (not (starts_with p.prefix path) || route_allows p path c) && routes_allow ps path c

unfoldable pub has_admin_entitlement : {J : Json} → AuthPolicy J → List Text → List Text → Bool
unfolding text_eq
has_admin_entitlement pol scopes roles =
    contains pol.admin_scope scopes || contains pol.admin_role roles

-- `members` is `serde_json::to_value(claims)` as an object.
module _ (J : Json) (members : JwtClaims J → Option (List (Text × J.Value))) where
  abbrev pub claim_in : List (Text × J.Value) → JwtClaims J → Text → Option J.Value
  claim_in object c k = or_else (lookup k object) (lookup k c.extra)

  abbrev pub equals : Option J.Value → J.Value → Bool
  equals none v = false
  equals (some found) v = J.same found v

  unfoldable pub all_required : List (Text × J.Value) → List (Text × J.Value) → JwtClaims J → Bool
  unfolding lookup
  all_required [] object c = true
  all_required ((k, v) ∷ rest) object c =
      equals (claim_in object c k) v && all_required rest object c

  -- Used for a provider's claims and for the policy's.
  unfoldable pub claims_required : List (Text × J.Value) → JwtClaims J → Bool
  unfolding all_required
  claims_required [] c = true
  claims_required (r ∷ rs) c = elim (members c) [
    | none ↦ false
    | some object ↦ all_required (r ∷ rs) object c
  ]

  abbrev pub guard : Bool → ℕ → Verdict → Verdict
  guard b status rest = if b then rest else refused status

  unfoldable pub check_claims : Result (List (Text × J.Value)) → JwtClaims J → Verdict
  unfolding claims_required
  check_claims err c = refused unauthorized
  check_claims (ok required) c = guard (claims_required required c) unauthorized allowed

  unfoldable pub check_routes : Result (List RoutePolicy) → Text → Caller → Verdict → Verdict
  unfolding routes_allow
  check_routes err path who rest = refused internal_server_error
  check_routes (ok ps) path who rest = guard (routes_allow ps path who) unauthorized rest

  unfoldable pub enforce : AuthPolicy J → Text → JwtClaims J → Caller → Verdict
  unfolding check_claims check_routes has_admin_entitlement tenant_from_path is_admin_api_path
  enforce pol path c who = guard (all_among pol.required_scopes who.scopes) unauthorized (
      guard (all_among pol.required_roles who.roles) unauthorized (
        guard (not (is_admin_api_path path) || has_admin_entitlement pol who.scopes who.roles)
          unauthorized
          (guard (not pol.require_tenant_claim || is_some who.tenant) unauthorized (
            guard
              (not pol.require_tenant_match || tenant_matches (tenant_from_path path) who.tenant)
              unauthorized
              (check_routes pol.route_policies path who (check_claims pol.required_claims c))))))

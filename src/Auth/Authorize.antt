-- ===== src/Auth/Authorize.antt =====
-- From the `Authorization` header to an authenticated caller, or the reason why there is none.
use krab_pub.Common.{
  ℕ, Bool, true, false, ◌&&◌, ◌||◌, List, [], ◌++◌, Option, none, some, ◌==◌, if◌then◌else◌, Result,
  ok, err,
}
use krab_pub.Common.Text.{Text, codes, text_eq, strip_prefix}
use krab_pub.Auth.Paths.{is_empty_text, trim_start, trim_end}
use krab_pub.Auth.Algorithms.{
  Algorithm, to_ascii_uppercase, algorithm_name, has_algorithm, same_algorithm,
  configured_jwt_algorithms, jwt_algorithm_allowed,
}
use krab_pub.Auth.Claims.{
  Json, JwtClaims, tenant_from_claims, scopes_from_claims, roles_from_claims,
}
use krab_pub.Auth.Policy.{
  AuthPolicy, Caller, Verdict, allowed, refused, enforce, unauthorized, internal_server_error,
  service_unavailable,
}
use krab_pub.Auth.Verify.{
  AuthFailureReason, missing_credentials, malformed_token, algorithm_rejected, unknown_key,
  refresh_token_rejected, policy_denied, credential_mismatch, provider_unavailable, misconfigured,
  AuthFailure, Decoded, JwtProvider, TokenHeader, AuthContext, Search, SearchResult, searching,
  accepted, halted, option_text_eq, try_providers,
}

pub data Authorized : Type 0 where
  authenticated : AuthContext → Authorized
  failed : AuthFailure → Authorized

abbrev pub failing : ℕ → AuthFailureReason → Authorized
failing status reason = failed (record { status = status; reason = reason })

-- The header's text, if it is one.
unfoldable pub bearer_token : Option Text → Option Text
unfolding strip_prefix
bearer_token none = none
bearer_token (some value) = strip_prefix (codes "Bearer ") value

abbrev pub is_unknown_key : AuthFailureReason → Bool
is_unknown_key unknown_key = true
is_unknown_key _ = false

-- The answer to a token that no key accepted.
unfoldable pub not_accepted : Search → Authorized
not_accepted s =
    if is_unknown_key s.failure && s.remote_unavailable
    then failing service_unavailable provider_unavailable
    else failing unauthorized s.failure

-- The settings and the time that a verification reads.
pub record Settings : Type 0 where
  pub allowed_algs : Option Text
  pub require_kid : Bool
  pub load_failed : Bool
  pub now : ℕ

module _ (J : Json) (Key : Type 0) (members : JwtClaims J → Option (List (Text × J.Value)))
    (decode_header : Text → Option TokenHeader)
    (decode : Text → TokenHeader → Key → Decoded J) where
  abbrev pub caller_of : JwtClaims J → Caller
  caller_of c = record {
    subject = c.sub;
    tenant = tenant_from_claims J c;
    scopes = scopes_from_claims J c;
    roles = roles_from_claims J c;
  }

  abbrev pub context_of : JwtClaims J → Text → AuthContext
  context_of c name = record {
    subject = c.sub;
    issuer = c.iss;
    provider = some name;
    token_id = c.jti;
    token_use = c.token_use;
    tenant_id = tenant_from_claims J c;
    scopes = scopes_from_claims J c;
    roles = roles_from_claims J c;
  }

  abbrev pub verdict_of : Verdict → AuthContext → Authorized
  verdict_of allowed ctx = authenticated ctx
  verdict_of (refused status) ctx =
      failing status (if status == internal_server_error then misconfigured else policy_denied)

  abbrev pub is_refresh : JwtClaims J → Bool
  is_refresh c = option_text_eq c.token_use (some (codes "refresh"))

  unfoldable pub admit : AuthPolicy J → Text → JwtClaims J → Text → Authorized
  unfolding enforce text_eq
  admit pol path c name =
      if is_refresh c
      then failing unauthorized refresh_token_rejected
      else verdict_of (enforce J members pol path c (caller_of c)) (context_of c name)

  unfoldable pub conclude : AuthPolicy J → Text → SearchResult J → Authorized
  unfolding admit not_accepted
  conclude pol path (accepted c name) = admit pol path c name
  conclude pol path (searching s) = not_accepted s
  conclude pol path (halted s) = not_accepted s

  abbrev pub first_search : Search
  first_search = record { failure = unknown_key; remote_unavailable = false; kidless_trials = 0 }

  abbrev pub algorithm_passes : Option Text → List Algorithm → Algorithm → Bool
  algorithm_passes setting algs alg =
      has_algorithm alg algs && jwt_algorithm_allowed setting (algorithm_name alg)

  unfoldable pub check_algorithm :
      Settings → Result (List Algorithm) → Algorithm → Authorized → Authorized
  unfolding same_algorithm jwt_algorithm_allowed
  check_algorithm st err alg rest = failing service_unavailable misconfigured
  check_algorithm st (ok algs) alg rest =
      if algorithm_passes st.allowed_algs algs alg
      then rest
      else failing unauthorized algorithm_rejected

  unfoldable pub search :
      Settings → List (JwtProvider J Key) → AuthPolicy J → Text → Text → TokenHeader → Authorized
  unfolding conclude try_providers
  search st providers pol path token header =
      if st.load_failed
      then failing service_unavailable misconfigured
      else conclude pol path (
          try_providers J Key members header st.now (decode token header) st.require_kid providers
            first_search)

  -- `authorize_jwt_detailed`.
  unfoldable pub authorize_jwt :
      Settings → List (JwtProvider J Key) → AuthPolicy J → Option Text → Text → Authorized
  unfolding bearer_token check_algorithm configured_jwt_algorithms search
  authorize_jwt st providers pol authorization path =
      elim (bearer_token authorization) as (λ _. Authorized) [
        | none ↦ failing unauthorized missing_credentials
        | some token ↦ elim (decode_header token) as (λ _. Authorized) [
          | none ↦ failing unauthorized malformed_token
          | some header ↦
              check_algorithm st (configured_jwt_algorithms st.allowed_algs) header.alg
                (search st providers pol path token header)
        ]
      ]

abbrev pub static_context : AuthContext
static_context = record {
  subject = some (codes "static-token-client");
  issuer = some (codes "krab.static");
  provider = some (codes "static");
  token_id = none;
  token_use = none;
  tenant_id = none;
  scopes = [];
  roles = [];
}

abbrev pub compare_static : Text → Option Text → Authorized
compare_static expected none = failing unauthorized missing_credentials
compare_static expected (some presented) =
    if text_eq presented (codes "Bearer " ++ expected)
    then authenticated static_context
    else failing unauthorized credential_mismatch

-- `authorize_static_detailed`; the first argument is what `KRAB_BEARER_TOKEN` reads as.
unfoldable pub authorize_static : Result (Option Text) → Option Text → Authorized
unfolding trim_start trim_end text_eq
authorize_static err authorization = failing service_unavailable provider_unavailable
authorize_static (ok none) authorization = failing service_unavailable provider_unavailable
authorize_static (ok (some token)) authorization =
    if is_empty_text (trim_end (trim_start token))
    then failing service_unavailable provider_unavailable
    else compare_static token authorization

-- `eq_ignore_ascii_case`.
unfoldable pub is_jwt_mode : Text → Bool
unfolding text_eq to_ascii_uppercase
is_jwt_mode mode =
    text_eq (to_ascii_uppercase mode) (codes "JWT")
    || text_eq (to_ascii_uppercase mode) (codes "OIDC")

module _ (J : Json) (Key : Type 0) (members : JwtClaims J → Option (List (Text × J.Value)))
    (decode_header : Text → Option TokenHeader)
    (decode : Text → TokenHeader → Key → Decoded J) where
  -- By `KRAB_AUTH_MODE`; the providers are those after `prepare_for_kid`.
  unfoldable pub authorize_request :
      Text
      → Result (Option Text)
      → Settings
      → List (JwtProvider J Key)
      → AuthPolicy J
      → Option Text
      → Text
      → Authorized
  unfolding is_jwt_mode authorize_jwt authorize_static
  authorize_request mode bearer_setting st providers pol authorization path =
      if is_jwt_mode mode
      then authorize_jwt J Key members decode_header decode st providers pol authorization path
      else authorize_static bearer_setting authorization

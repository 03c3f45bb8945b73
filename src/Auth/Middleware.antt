-- ===== src/Auth/Middleware.antt =====
-- `auth_middleware` and `service_auth_middleware`: which requests reach the handler.
use krab_pub.Common.{
  ℕ, ◌+◌, ◌*◌, Bool, false, not, ◌&&◌, ◌||◌, List, ◌++◌, Option, none, some, ltb, ◌==◌,
  if◌then◌else◌, is_some, Result, ok, err,
}
use krab_pub.Common.Text.{Text, codes, text_eq}
use krab_pub.Common.Text.Decimal.{to_string, parse_u64}
use krab_pub.Store.Interface.{Times, contains}
use krab_pub.Auth.Paths.{
  path_matches_patterns, is_admin_api_path, is_internal_service_path, trim_start, trim_end,
}
use krab_pub.Auth.Claims.{Json}
use krab_pub.Auth.Policy.{
  AuthPolicy, has_admin_entitlement, unauthorized, forbidden, too_many_requests,
  service_unavailable,
}
use krab_pub.Auth.Verify.{AuthFailure, revoked, provider_unavailable, AuthContext, TokenHeader}
use krab_pub.Auth.Authorize.{Authorized, authenticated, failed, bearer_token, failing}

-- The part of the runtime's store that the middleware uses.
pub record CounterStore : Type 1 where
  pub State : Type 0
  pub get : State → Times → Text → State × Result (Option Text)
  pub incr_with_ttl : State → Times → Text → ℕ → ℕ → State × Result ℕ

pub data Answer : Type 0 where
  passed_on : Option AuthContext → Answer
  answered : ℕ → Answer

-- The fields of `RuntimeState` that decide.
pub record Runtime (J : Json) : Type 0 where
  pub auth_open_paths : List Text
  pub auth_open_paths_explicit : Bool
  pub public_paths : List Text
  pub code_public_paths : List Text
  pub auth_fail_threshold : ℕ
  pub auth_fail_window_secs : ℕ
  pub auth_policy : AuthPolicy J

-- The clock of each call of the store, in their order.
pub record Clock : Type 0 where
  pub lookup : Times
  pub revocation : Times
  pub count : Times

abbrev pub nanos_per_second : ℕ
nanos_per_second = 1_000_000_000

module _ {J : Json} where
  unfoldable pub is_public_path : Runtime J → Text → Bool
  unfolding path_matches_patterns
  is_public_path r path =
      path_matches_patterns path r.public_paths
      || (not r.auth_open_paths_explicit && path_matches_patterns path r.code_public_paths)

  unfoldable pub needs_no_auth : Runtime J → Text → Bool
  unfolding is_public_path
  needs_no_auth r path = path_matches_patterns path r.auth_open_paths || is_public_path r path

  -- The middleware's last step for a caller: the admin entitlement.
  unfoldable pub pass_caller : Runtime J → Text → AuthContext → Answer
  unfolding has_admin_entitlement is_admin_api_path
  pass_caller r path ctx =
      if is_admin_api_path path && not (has_admin_entitlement r.auth_policy ctx.scopes ctx.roles)
      then answered forbidden
      else passed_on (some ctx)

-- `auth:fail:{ip}:{window}`.
abbrev pub fail_key : Text → ℕ → Text
fail_key ip window = codes "auth:fail:" ++ ip ++ codes ":" ++ to_string window

abbrev pub revoked_key : Text → Text
revoked_key token_id = codes "auth:revoked:" ++ token_id

-- `parse::<u64>().is_ok_and(|count| count > threshold)`.
unfoldable pub over_budget : ℕ → Result (Option Text) → Bool
unfolding parse_u64 trim_start trim_end
over_budget threshold err = false
over_budget threshold (ok none) = false
over_budget threshold (ok (some count)) = elim (parse_u64 (trim_end (trim_start count))) [
  | none ↦ false
  | some n ↦ ltb threshold n
]

unfoldable pub kidless_bearer : (Text → Option TokenHeader) → Option Text → Bool
unfolding bearer_token
kidless_bearer decode_header authorization = elim (bearer_token authorization) as (λ _. Bool) [
  | none ↦ false
  | some token ↦ elim (decode_header token) [ none ↦ false | some h ↦ not (is_some h.kid) ]
]

module _ (d : CounterStore) {J : Json} (r : Runtime J) where
  abbrev pub revocation : AuthContext → Result (Option Text) → Authorized
  revocation ctx err = failing service_unavailable provider_unavailable
  revocation ctx (ok none) = authenticated ctx
  revocation ctx (ok (some v)) = failing unauthorized revoked

  abbrev pub check_id : d.State → Times → AuthContext → Option Text → d.State × Authorized
  check_id s t ctx none = (s, authenticated ctx)
  check_id s t ctx (some id) =
      ((d.get s t (revoked_key id)).0, revocation ctx (d.get s t (revoked_key id)).1)

  -- The revocation list is asked about a token that has an id.
  unfoldable pub check_revoked : d.State → Times → Authorized → d.State × Authorized
  check_revoked s t (failed f) = (s, failed f)
  check_revoked s t (authenticated ctx) = check_id s t ctx ctx.token_id

  abbrev pub counted_answer : Result ℕ → ℕ
  counted_answer err = service_unavailable
  counted_answer (ok failures) =
      if ltb r.auth_fail_threshold failures then too_many_requests else unauthorized

  -- Only a 401 counts against the caller.
  unfoldable pub answer_failure : d.State → Times → Text → AuthFailure → d.State × Answer
  answer_failure s t auth_key f =
      let ttl = (r.auth_fail_window_secs + 2) * nanos_per_second in
      let counting = d.incr_with_ttl s t auth_key 1 ttl in
      if f.status == unauthorized
      then (counting.0, answered (counted_answer counting.1))
      else (s, answered f.status)

  abbrev pub answer_to : Clock → Text → Text → d.State × Authorized → d.State × Answer
  answer_to clock auth_key path (s, authenticated ctx) = (s, pass_caller r path ctx)
  answer_to clock auth_key path (s, failed f) = answer_failure s clock.count auth_key f

  -- After the look at the failure budget.
  unfoldable pub verify_request : Clock → Text → Text → Authorized → d.State → d.State × Answer
  unfolding check_revoked answer_failure pass_caller
  verify_request clock auth_key path authorized s =
      answer_to clock auth_key path (check_revoked s clock.revocation authorized)

  -- The failure budget is looked at for a token with no `kid` only.
  unfoldable pub within_budget :
      Bool → Clock → Text → Text → Authorized → d.State → d.State × Answer
  unfolding over_budget verify_request
  within_budget kidless clock auth_key path authorized s =
      let looked = d.get s clock.lookup auth_key in
      if kidless
      then (if over_budget r.auth_fail_threshold looked.1
          then (looked.0, answered too_many_requests)
          else verify_request clock auth_key path authorized looked.0)
      else verify_request clock auth_key path authorized s

  unfoldable pub auth_middleware :
      (Text → Option TokenHeader)
      → Clock
      → Text
      → ℕ
      → Option Text
      → Text
      → Authorized
      → d.State
      → d.State × Answer
  unfolding needs_no_auth kidless_bearer within_budget
  auth_middleware decode_header clock ip window authorization path authorized s =
      if needs_no_auth r path
      then (s, passed_on none)
      else within_budget (kidless_bearer decode_header authorization) clock (fail_key ip window)
          path authorized s

abbrev pub has_scope : Text → Option AuthContext → Bool
has_scope scope none = false
has_scope scope (some ctx) = contains scope ctx.scopes

-- `service_auth_middleware`, after `auth_middleware` has set the context.
unfoldable pub service_auth_middleware : Text → Text → Option AuthContext → Answer
unfolding is_internal_service_path text_eq
service_auth_middleware service_auth_scope path context =
    if not (is_internal_service_path path) || has_scope service_auth_scope context
    then passed_on context
    else answered forbidden

-- The two middlewares in their order.
abbrev pub after_auth : {S : Type 0} → Text → Text → S × Answer → S × Answer
after_auth scope path (s, passed_on context) = (s, service_auth_middleware scope path context)
after_auth scope path (s, answered status) = (s, answered status)

-- ===== src/Auth/Guarded.antt =====
-- What holds of a request that reaches the handler.
use krab_pub.Common.{
  ℕ, ◌≡◌, ◌∙◌, sym, refl, ap, ◌⊎◌, inl, inr, Bool, true, false, not, ◌&&◌, ◌||◌, Option, none, some,
  if_false, Result, ok, err, arith, Bool-cases, ◌==◌,
}
use krab_pub.Common.Text.{Text}
use krab_pub.Store.Interface.{Times, contains}
use krab_pub.Auth.Paths.{is_admin_api_path, is_internal_service_path}
use krab_pub.Auth.Claims.{Json}
use krab_pub.Auth.Policy.{has_admin_entitlement, unauthorized}
use krab_pub.Auth.Among.{IsIn, contains_iff, or_iff}
use krab_pub.Auth.Verify.{AuthFailure, AuthContext, TokenHeader}
use krab_pub.Auth.Authorize.{Authorized, authenticated, failed}
use krab_pub.Auth.Middleware.{
  CounterStore, Answer, passed_on, answered, Runtime, Clock, needs_no_auth, pass_caller,
  revoked_key, revocation, check_id, check_revoked, answer_failure, answer_to, verify_request,
  kidless_bearer, over_budget, within_budget, auth_middleware, service_auth_middleware, after_auth,
  fail_key,
}

module _ (d : CounterStore) {J : Json} (r : Runtime J) where
  -- The token's id is not on the revocation list.
  abbrev pub IsNotRevoked : Clock → d.State → AuthContext → Type 0
  IsNotRevoked clock s ctx =
      (id : Text) → ctx.token_id ≡ some id → (d.get s clock.revocation (revoked_key id)).1 ≡ ok none

  abbrev pub IsEntitled : Text → AuthContext → Type 0
  IsEntitled path ctx =
      is_admin_api_path path ≡ true
      → IsIn r.auth_policy.admin_scope ctx.scopes ⊎ IsIn r.auth_policy.admin_role ctx.roles

  revocation-authenticated :
      (c ctx : AuthContext) (found : Result (Option Text))
      → revocation d r c found ≡ authenticated ctx
      → (c ≡ ctx) × (found ≡ ok none)
  revocation-authenticated c ctx err h = absurd (ground arith)
  revocation-authenticated c ctx (ok none) h = (ground arith, refl)
  revocation-authenticated c ctx (ok (some v)) h = absurd (ground arith)

  check_id-authenticated :
      (t : Times) (s s' : d.State) (c ctx : AuthContext) (o : Option Text)
      → check_id d r s t c o ≡ (s', authenticated ctx)
      → (c ≡ ctx) × ((id : Text) → o ≡ some id → (d.get s t (revoked_key id)).1 ≡ ok none)
  check_id-authenticated t s s' c ctx none h = (ground arith, λ id e. absurd (ground arith))
  check_id-authenticated t s s' c ctx (some token_id) h =
      let (same, clear) =
        revocation-authenticated c ctx (d.get s t (revoked_key token_id)).1 (ap (λ x. x.1) h) in
      (same, λ id e. ap (λ k. (d.get s t (revoked_key k)).1) (ground arith) ∙ clear)

  check_revoked-authenticated :
      (clock : Clock) (s s' : d.State) (a : Authorized) (ctx : AuthContext)
      → check_revoked d r s clock.revocation a ≡ (s', authenticated ctx)
      → (a ≡ authenticated ctx) × IsNotRevoked clock s ctx
  unfolding check_revoked
  check_revoked-authenticated clock s s' (failed f) ctx h = absurd (ground arith)
  check_revoked-authenticated clock s s' (authenticated c) ctx h =
      let (same, clear) = check_id-authenticated clock.revocation s s' c ctx c.token_id h in
      (ap authenticated same, λ id e. clear id (ap (λ x. x.token_id) same ∙ e))

  pass_caller-passed_on :
      (path : Text) (ctx : AuthContext) (context : Option AuthContext)
      → pass_caller r path ctx ≡ passed_on context
      → (context ≡ some ctx) × IsEntitled path ctx
  unfolding pass_caller has_admin_entitlement
  pass_caller-passed_on path ctx context h =
      elim (Bool-cases (is_admin_api_path path && not entitled)) [
        | inl stop ↦ absurd (ground arith)
        | inr go ↦ (
          ground arith,
          λ admin.
              (or_iff (contains r.auth_policy.admin_scope ctx.scopes)
                  (contains r.auth_policy.admin_role ctx.roles)
                  (contains_iff r.auth_policy.admin_scope ctx.scopes)
                  (contains_iff r.auth_policy.admin_role ctx.roles)).0
                (ground arith),
        )
      ]
    where
      entitled : Bool
      entitled =
          contains r.auth_policy.admin_scope ctx.scopes
          || contains r.auth_policy.admin_role ctx.roles

  -- The caller of a request that passed both middlewares on a path that needs a caller.
  abbrev pub IsVetted : Clock → d.State → Text → Authorized → Option AuthContext → Type 0
  IsVetted clock s path a context =
      (ctx : AuthContext) × (context ≡ some ctx)
      × (a ≡ authenticated ctx)
      × IsNotRevoked clock s ctx
      × IsEntitled path ctx

  answer_failure-answered :
      (s s' : d.State) (t : Times) (k : Text) (f : AuthFailure) (context : Option AuthContext)
      → answer_failure d r s t k f ≡ (s', passed_on context)
      → ⊥
  unfolding answer_failure
  answer_failure-answered s s' t k f context h = elim (Bool-cases (f.status == unauthorized)) [
    | inl counts ↦ ground arith
    | inr ours ↦ ground arith
  ]

  verify_request-IsVetted :
      (clock : Clock) (k path : Text) (a : Authorized) (s s' : d.State)
      (context : Option AuthContext)
      → verify_request d r clock k path a s ≡ (s', passed_on context)
      → IsVetted clock s path a context
  unfolding verify_request
  verify_request-IsVetted clock k path a s s' context h =
      checked (check_revoked d r s clock.revocation a) refl h
    where
      checked :
          (x : d.State × Authorized)
          → check_revoked d r s clock.revocation a ≡ x
          → answer_to d r clock k path x ≡ (s', passed_on context)
          → IsVetted clock s path a context
      checked (s1, failed f) e h1 =
          absurd (answer_failure-answered s1 s' clock.count k f context h1)
      checked (s1, authenticated ctx) e h1 =
          let (authentic, clear) = check_revoked-authenticated clock s s1 a ctx e in
          let (same, entitled) = pass_caller-passed_on path ctx context (ap (λ x. x.1) h1) in
          (ctx, same, authentic, clear, entitled)

  -- So it is in the state that the store is in when the token has been verified.
  abbrev pub IsVettedLater :
      Clock → Text → d.State → Text → Authorized → Option AuthContext → Type 0
  IsVettedLater clock k s path a context =
      (s1 : d.State) × ((s1 ≡ s) ⊎ (s1 ≡ (d.get s clock.lookup k).0))
      × IsVetted clock s1 path a context

  within_budget-IsVettedLater :
      (kidless : Bool) (clock : Clock) (k path : Text) (a : Authorized) (s s' : d.State)
      (context : Option AuthContext)
      → within_budget d r kidless clock k path a s ≡ (s', passed_on context)
      → IsVettedLater clock k s path a context
  unfolding within_budget
  within_budget-IsVettedLater false clock k path a s s' context h =
      (s, inl refl, verify_request-IsVetted clock k path a s s' context h)
  within_budget-IsVettedLater true clock k path a s s' context h =
      elim (Bool-cases (over_budget r.auth_fail_threshold (d.get s clock.lookup k).1)) [
        | inl over ↦ absurd (ground arith)
        | inr under ↦ (
          (d.get s clock.lookup k).0,
          inr refl,
          verify_request-IsVetted clock k path a (d.get s clock.lookup k).0 s' context (
              sym
                (if_false (over_budget r.auth_fail_threshold (d.get s clock.lookup k).1) _ _ under)
              ∙ h),
        )
      ]

  -- On an open path nothing is known of the caller.
  abbrev pub Passes : Clock → Text → d.State → Text → Authorized → Option AuthContext → Type 0
  Passes clock k s path a context =
      ((needs_no_auth r path ≡ true) × (context ≡ none)) ⊎ IsVettedLater clock k s path a context

  pub auth_middleware-Passes :
      (decode_header : Text → Option TokenHeader) (clock : Clock) (ip : Text) (window : ℕ)
      (authorization : Option Text) (path : Text) (a : Authorized) (s s' : d.State)
      (context : Option AuthContext)
      → auth_middleware d r decode_header clock ip window authorization path a s
        ≡ (s', passed_on context)
      → Passes clock (fail_key ip window) s path a context
  unfolding auth_middleware
  auth_middleware-Passes decode_header clock ip window authorization path a s s' context h =
      elim (Bool-cases (needs_no_auth r path)) [
        | inl open_path ↦ inl (open_path, ground arith)
        | inr closed ↦ inr (
            within_budget-IsVettedLater (kidless_bearer decode_header authorization) clock
              (fail_key ip window) path a s s' context
              (sym (if_false (needs_no_auth r path) _ _ closed) ∙ h))
      ]

service_auth_middleware-passed_on :
    (scope path : Text) (context out : Option AuthContext)
    → service_auth_middleware scope path context ≡ passed_on out
    → (out ≡ context)
      × (is_internal_service_path path ≡ true
          → (ctx : AuthContext) × (context ≡ some ctx) × IsIn scope ctx.scopes)
unfolding service_auth_middleware
service_auth_middleware-passed_on scope path none out h =
    elim (Bool-cases (is_internal_service_path path)) [
      | inl internal ↦ absurd (ground arith)
      | inr other ↦ (ground arith, λ i. absurd (ground arith))
    ]
service_auth_middleware-passed_on scope path (some ctx) out h =
    elim (Bool-cases (contains scope ctx.scopes)) [
      | inl held ↦ (ground arith, λ i. (ctx, refl, (contains_iff scope ctx.scopes).0 held))
      | inr lacks ↦ (ground arith, λ i. absurd (ground arith))
    ]

pub after_auth-passed_on :
    {S : Type 0} (scope path : Text) (x : S × Answer) (s' : S) (out : Option AuthContext)
    → after_auth scope path x ≡ (s', passed_on out)
    → (x ≡ (s', passed_on out))
      × (is_internal_service_path path ≡ true
          → (ctx : AuthContext) × (out ≡ some ctx) × IsIn scope ctx.scopes)
after_auth-passed_on scope path (s, answered status) s' out h = absurd (ground arith)
after_auth-passed_on scope path (s, passed_on context) s' out h =
    let (same, internal) =
      service_auth_middleware-passed_on scope path context out (ap (λ x. x.1) h) in
    (ground arith, rw same internal)

-- ===== src/Auth/Reached.antt =====
-- A request reaches the handler on an open path, or with a caller that both middlewares vetted.
use krab_pub.Common.{
  ℕ, ◌≡◌, ◌∙◌, sym, refl, ap, ◌⊎◌, inl, inr, true, false, List, ◌++◌, Option, none, some, if_true,
  if_false, Result, ok, err, arith, Bool-cases,
}
use krab_pub.Common.Text.{Text, codes, text_eq, text_eq_iff}
use krab_pub.Auth.Paths.{is_empty_text, trim_start, trim_end, is_internal_service_path}
use krab_pub.Auth.Claims.{Json, JwtClaims}
use krab_pub.Auth.Among.{IsIn}
use krab_pub.Auth.Verify.{AuthContext, TokenHeader, JwtProvider, Decoded}
use krab_pub.Auth.Authorize.{
  Authorized, authenticated, Settings, authorize_request, authorize_static, static_context,
  is_jwt_mode, compare_static,
}
use krab_pub.Auth.Authentic.{IsAuthentic, authorize_jwt-IsAuthentic}
use krab_pub.Auth.Middleware.{
  CounterStore, passed_on, Runtime, Clock, needs_no_auth, auth_middleware, after_auth, fail_key,
}
use krab_pub.Auth.Guarded.{
  IsNotRevoked, IsEntitled, Passes, auth_middleware-Passes, after_auth-passed_on,
}

-- The static token was presented: the mode of development.
abbrev pub IsStatic : Result (Option Text) → Option Text → AuthContext → Type 0
IsStatic setting authorization ctx =
    (token : Text) × (setting ≡ ok (some token))
    × (is_empty_text (trim_end (trim_start token)) ≡ false)
    × (authorization ≡ some (codes "Bearer " ++ token))
    × (ctx ≡ static_context)

compare_static-IsStatic :
    (token : Text) (authorization : Option Text) (ctx : AuthContext)
    → compare_static token authorization ≡ authenticated ctx
    → (authorization ≡ some (codes "Bearer " ++ token)) × (ctx ≡ static_context)
compare_static-IsStatic token none ctx h = absurd (ground arith)
compare_static-IsStatic token (some presented) ctx h =
    elim (Bool-cases (text_eq presented (codes "Bearer " ++ token))) [
      | inl e ↦ (ap some ((text_eq_iff presented (codes "Bearer " ++ token)).0 e), ground arith)
      | inr e ↦ absurd (ground arith)
    ]

authorize_static-IsStatic :
    (setting : Result (Option Text)) (authorization : Option Text) (ctx : AuthContext)
    → authorize_static setting authorization ≡ authenticated ctx
    → IsStatic setting authorization ctx
unfolding authorize_static
authorize_static-IsStatic err authorization ctx h = absurd (ground arith)
authorize_static-IsStatic (ok none) authorization ctx h = absurd (ground arith)
authorize_static-IsStatic (ok (some token)) authorization ctx h =
    elim (Bool-cases (is_empty_text (trim_end (trim_start token)))) [
      | inl blank ↦ absurd (ground arith)
      | inr given ↦
          let (same, context) =
            compare_static-IsStatic token authorization ctx
              (sym (if_false (is_empty_text (trim_end (trim_start token))) _ _ given) ∙ h) in
          (token, refl, given, same, context)
    ]

module _ (J : Json) (Key : Type 0) (members : JwtClaims J → Option (List (Text × J.Value)))
    (decode_header : Text → Option TokenHeader) (decode : Text → TokenHeader → Key → Decoded J)
    (d : CounterStore) (r : Runtime J) where
  -- Who the caller is was established by the mode's credential.
  abbrev pub IsIdentified :
      Text
      → Result (Option Text)
      → Settings
      → List (JwtProvider J Key)
      → Option Text
      → Text
      → AuthContext
      → Type 0
  IsIdentified mode setting st ps authorization path ctx =
      (is_jwt_mode mode ≡ true
        → IsAuthentic J Key members decode_header decode st ps r.auth_policy authorization path ctx)
      × (is_jwt_mode mode ≡ false → IsStatic setting authorization ctx)

  authorize_request-IsIdentified :
      (mode : Text) (setting : Result (Option Text)) (st : Settings) (ps : List (JwtProvider J Key))
      (authorization : Option Text) (path : Text) (ctx : AuthContext)
      → authorize_request J Key members decode_header decode mode setting st ps r.auth_policy
          authorization path
        ≡ authenticated ctx
      → IsIdentified mode setting st ps authorization path ctx
  unfolding authorize_request
  authorize_request-IsIdentified mode setting st ps authorization path ctx h = (
    λ jwt.
        authorize_jwt-IsAuthentic J Key members decode_header decode st ps r.auth_policy
          authorization path ctx (sym (if_true (is_jwt_mode mode) _ _ jwt) ∙ h),
    λ other.
        authorize_static-IsStatic setting authorization ctx
          (sym (if_false (is_jwt_mode mode) _ _ other) ∙ h),
  )

  abbrev pub IsCleared :
      Text
      → Result (Option Text)
      → Settings
      → List (JwtProvider J Key)
      → Option Text
      → Text
      → Clock
      → d.State
      → Option AuthContext
      → Type 0
  IsCleared mode setting st ps authorization path clock s out =
      (ctx : AuthContext) × (out ≡ some ctx)
      × IsIdentified mode setting st ps authorization path ctx
      × IsNotRevoked d r clock s ctx
      × IsEntitled d r path ctx

  -- A request that both middlewares pass on is for a path that is open or public, and then has no
  -- caller; or it has a caller. In the jwt and oidc modes its bearer token then names an allowed
  -- algorithm, verifies under a key in force that some provider has for it, has the provider's
  -- issuer, audience and claims, is no refresh token and meets the policy of the path; in the static
  -- mode the header is exactly the configured token. The token's id is not on the revocation list,
  -- in the state of the store when it is asked; and on an admin path the caller has the admin scope
  -- or role. On an internal path it has a caller, with the service scope.
  pub after_auth-IsCleared :
      (scope mode : Text) (setting : Result (Option Text)) (st : Settings)
      (ps : List (JwtProvider J Key)) (clock : Clock) (ip : Text) (window : ℕ)
      (authorization : Option Text) (path : Text) (s s' : d.State) (out : Option AuthContext)
      → after_auth scope path (
          auth_middleware d r decode_header clock ip window authorization path
            (authorize_request J Key members decode_header decode mode setting st ps r.auth_policy
              authorization path)
            s)
        ≡ (s', passed_on out)
      → (((needs_no_auth r path ≡ true) × (out ≡ none))
          ⊎ ((s1 : d.State) × ((s1 ≡ s) ⊎ (s1 ≡ (d.get s clock.lookup (fail_key ip window)).0))
              × IsCleared mode setting st ps authorization path clock s1 out))
        × (is_internal_service_path path ≡ true
            → (ctx : AuthContext) × (out ≡ some ctx) × IsIn scope ctx.scopes)
  after_auth-IsCleared scope mode setting st ps clock ip window authorization path s s' out h =
      let (passed, internal) = after_auth-passed_on scope path _ s' out h in
      (
        cleared (
            auth_middleware-Passes d r decode_header clock ip window authorization path _ s s' out
              passed),
        internal,
      )
    where
      a : Authorized
      a =
          authorize_request J Key members decode_header decode mode setting st ps r.auth_policy
            authorization path

      cleared :
          Passes d r clock (fail_key ip window) s path a out
          → ((needs_no_auth r path ≡ true) × (out ≡ none))
            ⊎ ((s1 : d.State) × ((s1 ≡ s) ⊎ (s1 ≡ (d.get s clock.lookup (fail_key ip window)).0))
                × IsCleared mode setting st ps authorization path clock s1 out)
      cleared (inl open_path) = inl open_path
      cleared (inr (s1, from, (ctx, same, authentic, clear, entitled))) = inr (
        s1,
        from,
        (
          ctx,
          same,
          authorize_request-IsIdentified mode setting st ps authorization path ctx authentic,
          clear,
          entitled,
        ),
      )

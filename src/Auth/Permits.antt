-- ===== src/Auth/Permits.antt =====
-- What the policy is to demand of a caller, and that `enforce` demands it.
use krab_pub.Common.{
  ℕ, ◌≡◌, sym, refl, ◌↔◌, ◌⊎◌, inl, inr, Bool, true, List, [], ◌∷◌, Option, none, some, is_some,
  Result, ok, err, arith, Option-cases,
}
use krab_pub.Common.Text.{Text, starts_with}
use krab_pub.Auth.Paths.{tenant_from_path, is_admin_api_path}
use krab_pub.Auth.Claims.{Json, JwtClaims}
use krab_pub.Auth.Policy.{
  RoutePolicy, AuthPolicy, Caller, Verdict, allowed, route_allows, routes_allow,
  has_admin_entitlement, claim_in, equals, all_required, claims_required, guard, check_claims,
  check_routes, enforce, unauthorized,
}
use krab_pub.Auth.Among.{
  IsIn, contains_iff, and_iff, or_iff, unless_iff, iff_trans, Includes, all_among_iff, MeetsIfGiven,
  any_if_given_iff, IsOfTenant, is_tenant_iff, IsOfTenantIfNamed, tenant_matches_iff, IsSubject,
  subject_allowed_iff,
}

-- What a policy demands of the paths under its prefix.
abbrev pub RoutePermits : RoutePolicy → Text → Caller → Type 0
RoutePermits p path c =
    Includes p.all_scopes c.scopes
    × (MeetsIfGiven p.any_scopes c.scopes
        × (Includes p.all_roles c.roles
            × (MeetsIfGiven p.any_roles c.roles
                × (IsSubject p.allow_subjects c.subject
                    × (p.require_tenant_match ≡ true
                        → IsOfTenant (tenant_from_path path) c.tenant)))))

route_allows_iff :
    (p : RoutePolicy) (path : Text) (c : Caller)
    → (route_allows p path c ≡ true) ↔ RoutePermits p path c
unfolding route_allows
route_allows_iff p path c = and_iff _ _ (all_among_iff p.all_scopes c.scopes) (
    and_iff _ _ (any_if_given_iff p.any_scopes c.scopes) (
      and_iff _ _ (all_among_iff p.all_roles c.roles) (
        and_iff _ _ (any_if_given_iff p.any_roles c.roles) (
          and_iff _ _ (subject_allowed_iff p.allow_subjects c.subject) (
            unless_iff p.require_tenant_match _
              (is_tenant_iff (tenant_from_path path) c.tenant))))))

abbrev pub RoutesPermit : List RoutePolicy → Text → Caller → Type 0
RoutesPermit ps path c =
    (p : RoutePolicy) → IsIn p ps → starts_with p.prefix path ≡ true → RoutePermits p path c

routes_allow_iff :
    (ps : List RoutePolicy) (path : Text) (c : Caller)
    → (routes_allow ps path c ≡ true) ↔ RoutesPermit ps path c
unfolding routes_allow
routes_allow_iff [] path c = (λ h p i. absurd i, λ h. refl)
routes_allow_iff (q ∷ qs) path c =
    iff_trans
      (and_iff _ _ (unless_iff (starts_with q.prefix path) _ (route_allows_iff q path c))
        (routes_allow_iff qs path c))
      (
        λ h p i. elim i [ inl e ↦ rw (sym e) h.0 | inr j ↦ h.1 p j ],
        λ h. (h q (inl refl), λ p i. h p (inr i)),
      )

RoutesPermit-ap :
    (a b : List RoutePolicy) (path : Text) (c : Caller)
    → a ≡ b
    → RoutesPermit a path c
    → RoutesPermit b path c
RoutesPermit-ap a b path c e h = rw (sym e) h

module _ (J : Json) (members : JwtClaims J → Option (List (Text × J.Value))) where
  -- The claim is in the token, with this value.
  abbrev pub Claims : List (Text × J.Value) → JwtClaims J → Text → J.Value → Type 0
  Claims object c k v =
      (found : J.Value) × (claim_in J members object c k ≡ some found) × (J.same found v ≡ true)

  equals_iff :
      (o : Option J.Value) (v : J.Value)
      → (equals J members o v ≡ true)
        ↔ ((found : J.Value) × (o ≡ some found) × (J.same found v ≡ true))
  equals_iff none v = (λ h. absurd (ground arith), λ (f, e, h). absurd (ground arith))
  equals_iff (some x) v =
      (λ h. (x, refl, h), λ (f, e, h). let same : f ≡ x = ground arith in rw same at h)

  abbrev pub AllClaimed : List (Text × J.Value) → List (Text × J.Value) → JwtClaims J → Type 0
  AllClaimed required object c =
      (k : Text) (v : J.Value) → IsIn (k, v) required → Claims object c k v

  Claims-ap :
      (object : List (Text × J.Value)) (c : JwtClaims J) (a b : Text × J.Value)
      → a ≡ b
      → Claims object c a.0 a.1
      → Claims object c b.0 b.1
  Claims-ap object c a b e h = rw (sym e) h

  all_required_iff :
      (required object : List (Text × J.Value)) (c : JwtClaims J)
      → (all_required J members required object c ≡ true) ↔ AllClaimed required object c
  unfolding all_required
  all_required_iff [] object c = (λ h k v i. absurd i, λ h. refl)
  all_required_iff ((k, v) ∷ rest) object c =
      iff_trans
        (and_iff _ _ (equals_iff (claim_in J members object c k) v)
          (all_required_iff rest object c))
        (
          λ h j w i. elim i [ inl e ↦ Claims-ap object c (k, v) (j, w) e h.0 | inr r ↦ h.1 j w r ],
          λ h. (h k v (inl refl), λ j w i. h j w (inr i)),
        )

  -- What is demanded of the claims; a token that is no JSON object meets no demand.
  abbrev pub HasClaims : List (Text × J.Value) → JwtClaims J → Type 0
  HasClaims required c =
      (required ≡ [])
      ⊎ ((object : List (Text × J.Value)) × (members c ≡ some object)
          × AllClaimed required object c)

  pub claims_required_iff :
      (required : List (Text × J.Value)) (c : JwtClaims J)
      → (claims_required J members required c ≡ true) ↔ HasClaims required c
  unfolding claims_required
  claims_required_iff [] c = (λ h. inl refl, λ h. refl)
  claims_required_iff (r ∷ rs) c = elim (Option-cases (members c)) [
    | inl missing ↦
        rw (missing, claims_required)
          (
            λ h. absurd (ground arith),
            λ h. elim h [ inl e ↦ absurd (ground arith) | inr (o, e, all) ↦ absurd (ground arith) ],
          )
    | inr (object, e) ↦
        rw (e, claims_required)
          (iff_trans (all_required_iff (r ∷ rs) object c) (
            λ h. inr (object, refl, h),
            λ h. elim h [
              | inl e ↦ absurd (ground arith)
              | inr (o, e, all) ↦ let same : o ≡ object = ground arith in rw (sym same) all
            ],
          ))
  ]

  guard_iff :
      {A B : Type 0} (b : Bool) (status : ℕ) (rest : Verdict)
      → ((b ≡ true) ↔ A)
      → ((rest ≡ allowed) ↔ B)
      → (guard J members b status rest ≡ allowed) ↔ (A × B)
  guard_iff b status rest f g =
      (λ h. (f.0 (ground arith), g.0 (ground arith)), λ h. ground (arith, f.1 h.0, g.1 h.1))

  -- What the policy as a whole demands: a policy that could not be parsed admits nobody.
  abbrev pub Permits : AuthPolicy J → Text → JwtClaims J → Caller → Type 0
  Permits pol path c who =
      Includes pol.required_scopes who.scopes
      × (Includes pol.required_roles who.roles
          × ((is_admin_api_path path ≡ true
                → IsIn pol.admin_scope who.scopes ⊎ IsIn pol.admin_role who.roles)
              × ((pol.require_tenant_claim ≡ true → is_some who.tenant ≡ true)
                  × ((pol.require_tenant_match ≡ true
                        → IsOfTenantIfNamed (tenant_from_path path) who.tenant)
                      × (((ps : List RoutePolicy) × (pol.route_policies ≡ ok ps)
                            × RoutesPermit ps path who)
                          × ((required : List (Text × J.Value)) × (pol.required_claims
                                ≡ ok required)
                              × HasClaims required c))))))

  HasClaims-ap :
      (a b : List (Text × J.Value)) (c : JwtClaims J) → a ≡ b → HasClaims a c → HasClaims b c
  HasClaims-ap a b c e h = rw (sym e) h

  check_claims_iff :
      (r : Result (List (Text × J.Value))) (c : JwtClaims J)
      → (check_claims J members r c ≡ allowed)
        ↔ ((required : List (Text × J.Value)) × (r ≡ ok required) × HasClaims required c)
  unfolding check_claims
  check_claims_iff err c = (λ h. absurd (ground arith), λ (required, e, h). absurd (ground arith))
  check_claims_iff (ok required) c =
      iff_trans
        (guard_iff {B = Unit {0}} (claims_required J members required c) unauthorized allowed
          (claims_required_iff required c) (λ h. tt, λ h. refl))
        (
          λ h. (required, refl, h.0),
          λ (other, e, h).
              let same : other ≡ required = ground arith in
              (HasClaims-ap other required c same h, tt),
        )

  check_routes_iff :
      {B : Type 0} (r : Result (List RoutePolicy)) (path : Text) (who : Caller) (rest : Verdict)
      → ((rest ≡ allowed) ↔ B)
      → (check_routes J members r path who rest ≡ allowed)
        ↔ (((ps : List RoutePolicy) × (r ≡ ok ps) × RoutesPermit ps path who) × B)
  unfolding check_routes
  check_routes_iff err path who rest g =
      (λ h. absurd (ground arith), λ ((ps, e, h), b). absurd (ground arith))
  check_routes_iff (ok qs) path who rest g =
      iff_trans
        (guard_iff (routes_allow qs path who) unauthorized rest (routes_allow_iff qs path who) g)
        (
          λ h. ((qs, refl, h.0), h.1),
          λ ((ps, e, h), b). (RoutesPermit-ap ps qs path who (ground arith) h, b),
        )

  -- The policy admits a caller to a path exactly when it holds every scope and every role that is
  -- required of all; on an admin path, the admin scope or role; a tenant, where one is required,
  -- and the tenant that the path names, where they are to match; and what each route policy whose
  -- prefix the path has demands (all of some scopes and roles, one of others, the subject, the
  -- tenant); and the token has every required claim. A policy that could not be parsed admits nobody.
  pub enforce_iff :
      (pol : AuthPolicy J) (path : Text) (c : JwtClaims J) (who : Caller)
      → (enforce J members pol path c who ≡ allowed) ↔ Permits pol path c who
  unfolding enforce has_admin_entitlement
  enforce_iff pol path c who =
      guard_iff _ unauthorized _ (all_among_iff pol.required_scopes who.scopes) (
        guard_iff _ unauthorized _ (all_among_iff pol.required_roles who.roles) (
          guard_iff _ unauthorized _
            (unless_iff (is_admin_api_path path) _ (
              or_iff _ _ (contains_iff pol.admin_scope who.scopes)
                (contains_iff pol.admin_role who.roles)))
            (guard_iff _ unauthorized _
              (unless_iff pol.require_tenant_claim (is_some who.tenant) (λ h. h, λ h. h))
              (guard_iff _ unauthorized _
                (unless_iff pol.require_tenant_match _
                  (tenant_matches_iff (tenant_from_path path) who.tenant))
                (check_routes_iff pol.route_policies path who _
                  (check_claims_iff pol.required_claims c))))))

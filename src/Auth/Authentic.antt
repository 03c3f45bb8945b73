-- ===== src/Auth/Authentic.antt =====
-- What holds of a request that `authorize_jwt_detailed` authenticates.
use krab_pub.Common.{
  ◌≡◌, ◌∙◌, sym, refl, inl, inr, true, false, List, Option, some, if_true, if_false, Result, ok,
  err, arith, Bool-cases, Option-cases,
}
use krab_pub.Common.Text.{Text}
use krab_pub.Auth.Claims.{Json, JwtClaims}
use krab_pub.Auth.Policy.{AuthPolicy, Verdict, allowed, refused, enforce}
use krab_pub.Auth.Permits.{Permits, enforce_iff}
use krab_pub.Auth.Algorithms.{Algorithm, configured_jwt_algorithms}
use krab_pub.Auth.Verify.{
  AuthFailure, Decoded, JwtProvider, TokenHeader, AuthContext, Search, SearchResult, searching,
  accepted, halted, try_providers,
}
use krab_pub.Auth.Authorize.{
  Authorized, authenticated, failed, bearer_token, Settings, caller_of, context_of, verdict_of,
  is_refresh, admit, conclude, first_search, algorithm_passes, check_algorithm, search,
  authorize_jwt, not_accepted,
}
use krab_pub.Auth.Verified.{ProviderAccepts, try_providers-accepted}

module _ (J : Json) (Key : Type 0) (members : JwtClaims J → Option (List (Text × J.Value)))
    (decode_header : Text → Option TokenHeader)
    (decode : Text → TokenHeader → Key → Decoded J) where
  abbrev authorize :
      Settings → List (JwtProvider J Key) → AuthPolicy J → Option Text → Text → Authorized
  authorize = authorize_jwt J Key members decode_header decode

  -- The claims were accepted, are not a refresh token's, and the policy permits them.
  abbrev pub IsAdmitted :
      Settings
      → List (JwtProvider J Key)
      → AuthPolicy J
      → Text
      → Text
      → TokenHeader
      → AuthContext
      → Type 0
  IsAdmitted st ps pol path token header ctx =
      (c : JwtClaims J) × (name : Text) × ProviderAccepts J Key members header st.now
        (decode token header) st.require_kid ps c name
      × (is_refresh J Key members decode_header decode c ≡ false)
      × Permits J members pol path c (caller_of J Key members decode_header decode c)
      × (ctx ≡ context_of J Key members decode_header decode c name)

  pub record IsAuthentic (st : Settings) (ps : List (JwtProvider J Key)) (pol : AuthPolicy J)
      (authorization : Option Text) (path : Text) (ctx : AuthContext) : Type 0 where
    pub token : Text
    pub header : TokenHeader
    pub bearer : bearer_token authorization ≡ some token
    pub header_of : decode_header token ≡ some header
    pub algorithm :
        (algs : List Algorithm) × (configured_jwt_algorithms st.allowed_algs ≡ ok algs)
        × (algorithm_passes J Key members decode_header decode st.allowed_algs algs header.alg
            ≡ true)
    pub admitted : IsAdmitted st ps pol path token header ctx

  not_accepted-fails : (s : Search) (ctx : AuthContext) → not_accepted s ≡ authenticated ctx → ⊥
  unfolding not_accepted
  not_accepted-fails s ctx h = ground arith

  verdict_of-authenticated :
      (v : Verdict) (ctx ctx' : AuthContext)
      → verdict_of J Key members decode_header decode v ctx ≡ authenticated ctx'
      → (v ≡ allowed) × (ctx' ≡ ctx)
  verdict_of-authenticated allowed ctx ctx' h = (refl, ground arith)
  verdict_of-authenticated (refused status) ctx ctx' h = absurd (ground arith)

  admit-authenticated :
      (pol : AuthPolicy J) (path : Text) (c : JwtClaims J) (name : Text) (ctx : AuthContext)
      → admit J Key members decode_header decode pol path c name ≡ authenticated ctx
      → (is_refresh J Key members decode_header decode c ≡ false)
        × Permits J members pol path c (caller_of J Key members decode_header decode c)
        × (ctx ≡ context_of J Key members decode_header decode c name)
  unfolding admit
  admit-authenticated pol path c name ctx h =
      elim (Bool-cases (is_refresh J Key members decode_header decode c)) [
        | inl old ↦ absurd (ground arith)
        | inr fresh ↦
            let (v, same) =
              verdict_of-authenticated
                (enforce J members pol path c (caller_of J Key members decode_header decode c))
                (context_of J Key members decode_header decode c name) ctx
                (sym (if_false (is_refresh J Key members decode_header decode c) _ _ fresh) ∙ h) in
            (
              fresh,
              (enforce_iff J members pol path c (caller_of J Key members decode_header decode c)).0
                  v,
              same,
            )
      ]

  search-authenticated :
      (st : Settings) (ps : List (JwtProvider J Key)) (pol : AuthPolicy J) (path token : Text)
      (header : TokenHeader) (ctx : AuthContext)
      → search J Key members decode_header decode st ps pol path token header ≡ authenticated ctx
      → IsAdmitted st ps pol path token header ctx
  unfolding search conclude
  search-authenticated st ps pol path token header ctx h = elim (Bool-cases st.load_failed) [
    | inl down ↦ absurd (ground arith)
    | inr up ↦
        concluded
          (try_providers J Key members header st.now (decode token header) st.require_kid ps
            (first_search J Key members decode_header decode))
          refl (sym (if_false st.load_failed _ _ up) ∙ h)
  ]
    where
      concluded :
          (r : SearchResult J)
          → try_providers J Key members header st.now
              (decode token header)
              st.require_kid
              ps
              (first_search J Key members decode_header decode)
            ≡ r
          → conclude J Key members decode_header decode pol path r ≡ authenticated ctx
          → IsAdmitted st ps pol path token header ctx
      concluded (searching s) e k = absurd (not_accepted-fails s ctx k)
      concluded (halted s) e k = absurd (not_accepted-fails s ctx k)
      concluded (accepted c name) e k =
          let (fresh, permits, same) = admit-authenticated pol path c name ctx k in
          (
            c,
            name,
            try_providers-accepted J Key members header st.now (decode token header) st.require_kid
                ps (first_search J Key members decode_header decode) c name e,
            fresh,
            permits,
            same,
          )

  algorithm_of :
      (st : Settings) (r : Result (List Algorithm)) (alg : Algorithm) (rest : Authorized)
      (ctx : AuthContext)
      → check_algorithm J Key members decode_header decode st r alg rest ≡ authenticated ctx
      → ((algs : List Algorithm) × (r ≡ ok algs)
          × (algorithm_passes J Key members decode_header decode st.allowed_algs algs alg ≡ true))
        × (rest ≡ authenticated ctx)
  unfolding check_algorithm
  algorithm_of st err alg rest ctx h = absurd (ground arith)
  algorithm_of st (ok algs) alg rest ctx h =
      elim (Bool-cases
        (algorithm_passes J Key members decode_header decode st.allowed_algs algs alg)) [
          | inl pass ↦ (
            (algs, refl, pass),
            sym (
                  if_true
                    (algorithm_passes J Key members decode_header decode st.allowed_algs algs alg) _
                    _ pass)
                ∙ h,
          )
          | inr no_pass ↦ absurd (ground arith)
        ]

  pub authorize_jwt-IsAuthentic :
      (st : Settings) (ps : List (JwtProvider J Key)) (pol : AuthPolicy J)
      (authorization : Option Text) (path : Text) (ctx : AuthContext)
      → authorize_jwt J Key members decode_header decode st ps pol authorization path
        ≡ authenticated ctx
      → IsAuthentic st ps pol authorization path ctx
  unfolding authorize_jwt
  authorize_jwt-IsAuthentic st ps pol authorization path ctx h =
      elim (Option-cases (bearer_token authorization)) [
        | inl absent ↦ absurd (missing (rw (absent, authorize_jwt) at h))
        | inr (token, e) ↦ elim (Option-cases (decode_header token)) [
          | inl bad ↦ absurd (missing (rw (e, bad, authorize_jwt) at h))
          | inr (header, e') ↦
              let (algorithm, rest) =
                algorithm_of st (configured_jwt_algorithms st.allowed_algs) header.alg
                  (search J Key members decode_header decode st ps pol path token header) ctx
                  (rw (e, e', authorize_jwt) at h) in
              record {
                token = token;
                header = header;
                bearer = e;
                header_of = e';
                algorithm = algorithm;
                admitted = search-authenticated st ps pol path token header ctx rest;
              }
        ]
      ]
    where
      missing : {f : AuthFailure} → failed f ≡ authenticated ctx → ⊥
      missing h = ground arith

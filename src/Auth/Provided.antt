-- ===== src/Auth/Provided.antt =====
-- What a provider demands of the claims of a token, and that `validate_provider_claims` and
-- `is_retired` demand it.
use krab_pub.Common.{
  ℕ, ◌<◌, ◌≡◌, ◌∙◌, ap, refl, ◌⊎◌, inl, inr, true, false, List, [], ◌∷◌, Option, none, some, arith,
  Bool-cases, Option-cases,
}
use krab_pub.Common.Text.{Text, text_eq_iff}
use krab_pub.Entries.{lookup}
use krab_pub.Auth.Among.{IsIn}
use krab_pub.Auth.Claims.{Json, JwtClaims}
use krab_pub.Auth.Permits.{HasClaims, claims_required_iff}
use krab_pub.Auth.Verify.{
  JwtProvider, option_text_eq, is_retired, issuer_matches, any_is, audience_is, audience_matches,
  validate_provider_claims,
}

option_text_eq-same : (o : Option Text) (t : Text) → option_text_eq o (some t) ≡ true → o ≡ some t
option_text_eq-same none t h = absurd (ground arith)
option_text_eq-same (some a) t h = ap some (ground (arith, text_eq_iff a t))

module _ (J : Json) (Key : Type 0) (members : JwtClaims J → Option (List (Text × J.Value))) where
  -- Who the token is for: a text, or an array with that text in it.
  abbrev pub IsFor : Text → J.Value → Type 0
  IsFor expected v =
      (J.as_str v ≡ some expected)
      ⊎ ((J.as_str v ≡ none)
          × ((vs : List J.Value) × (J.as_array v ≡ some vs)
              × ((x : J.Value) × IsIn x vs × (J.as_str x ≡ some expected))))

  any_is-IsIn :
      (t : Text) (vs : List J.Value)
      → any_is J Key members t vs ≡ true
      → (x : J.Value) × IsIn x vs × (J.as_str x ≡ some t)
  any_is-IsIn t [] h = absurd (ground arith)
  any_is-IsIn t (v ∷ vs) h = elim (Bool-cases (option_text_eq (J.as_str v) (some t))) [
    | inl e ↦ (v, inl refl, option_text_eq-same (J.as_str v) t e)
    | inr e ↦ let (x, i, same) = any_is-IsIn t vs (ground arith) in (x, inr i, same)
  ]

  audience_is-IsFor :
      (expected : Text) (v : J.Value)
      → audience_is J Key members expected v ≡ true
      → IsFor expected v
  unfolding audience_is
  audience_is-IsFor expected v h = elim (Option-cases (J.as_str v)) [
    | inr (aud, e) ↦ inl (e ∙ ap some (ground (arith, text_eq_iff aud expected)))
    | inl e ↦ elim (Option-cases (J.as_array v)) [
      | inr (vs, k) ↦ inr (e, (vs, k, any_is-IsIn expected vs (ground arith)))
      | inl k ↦ absurd (ground arith)
    ]
  ]

  -- The issuer and the audience are the configured ones, where one is configured, and the claims
  -- have what is required.
  abbrev pub MeetsProvider : JwtProvider J Key → JwtClaims J → Type 0
  MeetsProvider p c =
      ((expected : Text) → p.issuer ≡ some expected → c.iss ≡ some expected)
      × ((expected : Text)
          → p.audience ≡ some expected
          → (v : J.Value) × (c.aud ≡ some v) × IsFor expected v)
      × HasClaims J members p.required_claims c

  issuer_matches_lem :
      (issuer iss : Option Text)
      → issuer_matches J Key members issuer iss ≡ true
      → (expected : Text) → issuer ≡ some expected
      → iss ≡ some expected
  issuer_matches_lem none iss h expected e = absurd (ground arith)
  issuer_matches_lem (some t) iss h expected e = option_text_eq-same iss t h ∙ e

  audience_matches_lem :
      (audience : Option Text) (aud : Option J.Value)
      → audience_matches J Key members audience aud ≡ true
      → (expected : Text) → audience ≡ some expected
      → (v : J.Value) × (aud ≡ some v) × IsFor expected v
  audience_matches_lem none aud h expected e = absurd (ground arith)
  audience_matches_lem (some t) none h expected e = absurd (ground arith)
  audience_matches_lem (some t) (some v) h expected e =
      let same : t ≡ expected = ground arith in
      (v, refl, audience_is-IsFor expected v (rw same at h))

  pub validate_provider_claims-MeetsProvider :
      (p : JwtProvider J Key) (c : JwtClaims J)
      → validate_provider_claims J Key members p c ≡ true
      → MeetsProvider p c
  unfolding validate_provider_claims
  validate_provider_claims-MeetsProvider p c h = (
    issuer_matches_lem p.issuer c.iss (ground arith),
    audience_matches_lem p.audience c.aud (ground arith),
    (claims_required_iff J members p.required_claims c).0 (ground arith),
  )

  -- The key is not retired, or only later.
  abbrev pub InForce : JwtProvider J Key → Text → ℕ → Type 0
  InForce p kid now = (at : ℕ) → lookup kid p.retire_at ≡ some at → now < at

  pub is_retired-InForce :
      (p : JwtProvider J Key) (kid : Text) (now : ℕ)
      → is_retired p kid now ≡ false
      → InForce p kid now
  unfolding is_retired
  is_retired-InForce p kid now h at e = ground arith

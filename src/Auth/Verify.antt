-- ===== src/Auth/Verify.antt =====
-- The verification of a bearer token: which providers and keys it is tried against, and what a
-- token that passes none of them is told. The signature itself is checked by another library.
use krab_pub.Common.{
  ℕ, ◌+◌, Bool, true, false, not, ◌&&◌, ◌||◌, List, [], ◌∷◌, ◌++◌, Option, none, some, leb, ltb,
  if◌then◌else◌,
}
use krab_pub.Common.Text.{Text, codes, text_eq}
use krab_pub.Entries.{lookup}
use krab_pub.Store.Interface.{contains}
use krab_pub.Auth.Algorithms.{Algorithm, JwtAlgorithmFamily, family_of}
use krab_pub.Auth.Claims.{Json, JwtClaims, or_else}
use krab_pub.Auth.Policy.{claims_required}

pub data AuthFailureReason : Type 0 where
  missing_credentials : AuthFailureReason
  malformed_token : AuthFailureReason
  algorithm_rejected : AuthFailureReason
  unknown_key : AuthFailureReason
  key_retired : AuthFailureReason
  invalid_signature : AuthFailureReason
  expired : AuthFailureReason
  claims_rejected : AuthFailureReason
  refresh_token_rejected : AuthFailureReason
  policy_denied : AuthFailureReason
  revoked : AuthFailureReason
  credential_mismatch : AuthFailureReason
  provider_unavailable : AuthFailureReason
  misconfigured : AuthFailureReason

abbrev pub specificity : AuthFailureReason → ℕ
specificity expired = 4
specificity claims_rejected = 4
specificity key_retired = 3
specificity invalid_signature = 2
specificity unknown_key = 1
specificity _ = 0

pub record AuthFailure : Type 0 where
  pub status : ℕ
  pub reason : AuthFailureReason

abbrev pub max_kidless_key_trials : ℕ
max_kidless_key_trials = 8

-- What the library makes of a token under one key.
pub data Decoded (J : Json) : Type 0 where
  verified : JwtClaims J → Decoded J
  signature_expired : Decoded J
  signature_invalid : Decoded J
  not_decoded : Decoded J

-- A remote key set; its keys are those of the last fetch.
pub record JwksSource (Key : Type 0) : Type 0 where
  pub loaded : Bool
  pub kids : List Text
  pub key_for : Text → JwtAlgorithmFamily → Option Key

-- A provider of the cache with what the cache keeps beside it under the same index.
pub record JwtProvider (J : Json) (Key : Type 0) : Type 0 where
  pub name : Option Text
  pub issuer : Option Text
  pub audience : Option Text
  pub key_ids : List Text
  pub required_claims : List (Text × J.Value)
  pub keys : Text → JwtAlgorithmFamily → Option Key
  pub retire_at : List (Text × ℕ)
  pub jwks : Option (JwksSource Key)

pub record TokenHeader : Type 0 where
  pub alg : Algorithm
  pub kid : Option Text

pub record AuthContext : Type 0 where
  pub subject : Option Text
  pub issuer : Option Text
  pub provider : Option Text
  pub token_id : Option Text
  pub token_use : Option Text
  pub tenant_id : Option Text
  pub scopes : List Text
  pub roles : List Text

pub record Search : Type 0 where
  pub failure : AuthFailureReason
  pub remote_unavailable : Bool
  pub kidless_trials : ℕ

-- The most specific failure so far is kept.
unfoldable pub note : AuthFailureReason → Search → Search
note reason s = record s {
  failure = if ltb (specificity s.failure) (specificity reason) then reason else s.failure;
}

-- The search goes on, has found a token that verifies, or is cut off.
pub data SearchResult (J : Json) : Type 0 where
  searching : Search → SearchResult J
  accepted : JwtClaims J → Text → SearchResult J
  halted : Search → SearchResult J

abbrev without : Text → List Text → List Text
without k [] = []
without k (j ∷ js) = let rest = without k js in if text_eq j k then js else j ∷ rest

-- `default` is moved to the front, if it is there.
unfoldable pub default_first : List Text → List Text
unfolding text_eq
default_first kids =
    if contains (codes "default") kids
    then codes "default" ∷ without (codes "default") kids
    else kids

abbrev pub option_text_eq : Option Text → Option Text → Bool
option_text_eq none none = true
option_text_eq none (some b) = false
option_text_eq (some a) none = false
option_text_eq (some a) (some b) = text_eq a b

module _ {Key : Type 0} where
  abbrev pub remote_kids : Option (JwksSource Key) → List Text
  remote_kids none = []
  remote_kids (some source) = source.kids

  abbrev pub remote_key : Option (JwksSource Key) → Text → JwtAlgorithmFamily → Option Key
  remote_key none kid family = none
  remote_key (some source) kid family = source.key_for kid family

  abbrev pub never_loaded : Option (JwksSource Key) → Bool
  never_loaded none = false
  never_loaded (some source) = not source.loaded

  module _ {J : Json} where
    unfoldable pub candidate_kids : Bool → JwtProvider J Key → Option Text → List Text
    unfolding default_first text_eq
    candidate_kids require_kid p (some k) =
        if contains k p.key_ids || contains k (remote_kids p.jwks) then k ∷ [] else []
    candidate_kids require_kid p none =
        if require_kid then [] else default_first (p.key_ids ++ remote_kids p.jwks)

    unfoldable pub is_retired : JwtProvider J Key → Text → ℕ → Bool
    unfolding lookup
    is_retired p kid now = elim (lookup kid p.retire_at) [ none ↦ false | some at ↦ leb at now ]

    abbrev pub decoding_key : JwtProvider J Key → Text → Algorithm → Option Key
    decoding_key p kid alg =
        or_else (p.keys kid (family_of alg)) (remote_key p.jwks kid (family_of alg))

module _ (J : Json) (Key : Type 0) (members : JwtClaims J → Option (List (Text × J.Value))) where
  abbrev pub issuer_matches : Option Text → Option Text → Bool
  issuer_matches none iss = true
  issuer_matches (some expected) iss = option_text_eq iss (some expected)

  abbrev pub any_is : Text → List J.Value → Bool
  any_is t [] = false
  any_is t (v ∷ vs) = option_text_eq (J.as_str v) (some t) || any_is t vs

  unfoldable pub audience_is : Text → J.Value → Bool
  unfolding text_eq
  audience_is expected v = elim (J.as_str v) as (λ _. Bool) [
    | some aud ↦ text_eq aud expected
    | none ↦ elim (J.as_array v) [ some vs ↦ any_is expected vs | none ↦ false ]
  ]

  abbrev pub audience_matches : Option Text → Option J.Value → Bool
  audience_matches none aud = true
  audience_matches (some expected) none = false
  audience_matches (some expected) (some v) = audience_is expected v

  unfoldable pub validate_provider_claims : JwtProvider J Key → JwtClaims J → Bool
  unfolding audience_is claims_required text_eq
  validate_provider_claims p c =
      issuer_matches p.issuer c.iss
      && (audience_matches p.audience c.aud && claims_required J members p.required_claims c)

  abbrev pub provider_label : Option Text → Text
  provider_label none = codes "provider"
  provider_label (some n) = n

  -- One token: its header, the time, and what the library says of it under a key.
  module _ (header : TokenHeader) (now : ℕ) (decode : Key → Decoded J) where
    abbrev pub accept_or : JwtProvider J Key → Search → Decoded J → SearchResult J
    accept_or p s (verified c) =
        if validate_provider_claims p c
        then accepted c (provider_label p.name)
        else searching (note claims_rejected s)
    accept_or p s signature_expired = searching (note expired s)
    accept_or p s signature_invalid = searching (note invalid_signature s)
    accept_or p s not_decoded = searching (note malformed_token s)

    unfoldable pub try_key : JwtProvider J Key → Key → Search → SearchResult J
    unfolding note validate_provider_claims
    try_key p key s = elim header.kid as (λ _. SearchResult J) [
      | some kid ↦ accept_or p s (decode key)
      | none ↦
          if leb max_kidless_key_trials s.kidless_trials
          then halted s
          else accept_or p (record s { kidless_trials = s.kidless_trials + 1 }) (decode key)
    ]

    unfoldable pub try_kid : JwtProvider J Key → Text → Search → SearchResult J
    unfolding try_key is_retired
    try_kid p kid s =
        if is_retired p kid now
        then searching (note key_retired s)
        else elim (decoding_key p kid header.alg) [
          | none ↦ searching s
          | some key ↦ try_key p key s
        ]

    unfoldable pub try_kids : JwtProvider J Key → List Text → Search → SearchResult J
    unfolding try_kid
    try_kids p [] s = searching s
    try_kids p (kid ∷ kids) s = elim (try_kid p kid s) as (λ _. SearchResult J) [
      | searching s' ↦ try_kids p kids s'
      | accepted c name ↦ accepted c name
      | halted s' ↦ halted s'
    ]

    abbrev no_kids : List Text → Bool
    no_kids [] = true
    no_kids (k ∷ ks) = false

    abbrev pub outage : JwtProvider J Key → List Text → Search → Search
    outage p kids s = record s {
      remote_unavailable = s.remote_unavailable || (no_kids kids && never_loaded p.jwks);
    }

    unfoldable pub try_providers : Bool → List (JwtProvider J Key) → Search → SearchResult J
    unfolding try_kids candidate_kids
    try_providers require_kid [] s = searching s
    try_providers require_kid (p ∷ ps) s =
        let kids = candidate_kids require_kid p header.kid in
        elim (try_kids p kids (outage p kids s)) as (λ _. SearchResult J) [
          | searching s' ↦ try_providers require_kid ps s'
          | accepted c name ↦ accepted c name
          | halted s' ↦ halted s'
        ]

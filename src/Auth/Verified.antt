-- ===== src/Auth/Verified.antt =====
-- What holds of a token that the search accepts.
use krab_pub.Common.{
  ℕ, ◌+◌, ◌≡◌, ◌∙◌, sym, refl, ap, ◌⊎◌, inl, inr, Bool, true, false, List, [], ◌∷◌, Option, none,
  some, if◌then◌else◌, if_false, arith, Bool-cases, Option-cases, leb,
}
use krab_pub.Common.Text.{Text}
use krab_pub.Auth.Claims.{Json, JwtClaims}
use krab_pub.Auth.Among.{IsIn}
use krab_pub.Auth.Provided.{
  MeetsProvider, InForce, validate_provider_claims-MeetsProvider, is_retired-InForce,
}
use krab_pub.Auth.Verify.{
  Decoded, verified, signature_expired, signature_invalid, not_decoded, JwtProvider, TokenHeader,
  Search, SearchResult, searching, accepted, halted, candidate_kids, is_retired, decoding_key,
  validate_provider_claims, provider_label, accept_or, try_key, try_kid, try_kids, outage,
  try_providers, max_kidless_key_trials,
}

module _ (J : Json) (Key : Type 0) (members : JwtClaims J → Option (List (Text × J.Value))) where
  module _ (header : TokenHeader) (now : ℕ) (decode : Key → Decoded J) where
    -- The provider has a key by this name that is in force, and the token verifies under it.
    pub record Accepts (p : JwtProvider J Key) (kid : Text) (c : JwtClaims J) : Type 0 where
      pub used_key : Key
      pub in_force : InForce J Key members p kid now
      pub held : decoding_key p kid header.alg ≡ some used_key
      pub decodes : decode used_key ≡ verified c
      pub validated : MeetsProvider J Key members p c

    abbrev IsAccepted : JwtProvider J Key → Decoded J → JwtClaims J → Text → Type 0
    IsAccepted p d c name =
        (d ≡ verified c)
        × MeetsProvider J Key members p c
        × (name ≡ provider_label J Key members p.name)

    accept_or-accepted :
        (p : JwtProvider J Key) (s : Search) (d : Decoded J) (c : JwtClaims J) (name : Text)
        → accept_or J Key members header now decode p s d ≡ accepted c name
        → IsAccepted p d c name
    accept_or-accepted p s (verified x) c name h =
        elim (Bool-cases (validate_provider_claims J Key members p x)) [
          | inl v ↦
              let same : x ≡ c = ground arith in
              (
                ap verified same,
                validate_provider_claims-MeetsProvider J Key members p c (rw same at v),
                ground arith,
              )
          | inr v ↦ absurd (ground arith)
        ]
    accept_or-accepted p s signature_expired c name h = absurd (ground arith)
    accept_or-accepted p s signature_invalid c name h = absurd (ground arith)
    accept_or-accepted p s not_decoded c name h = absurd (ground arith)

    try_key-accepted :
        (p : JwtProvider J Key) (key : Key) (s : Search) (c : JwtClaims J) (name : Text)
        → try_key J Key members header now decode p key s ≡ accepted c name
        → IsAccepted p (decode key) c name
    unfolding try_key
    try_key-accepted p key s c name h = elim (Option-cases header.kid) [
      | inr (kid, e) ↦ accept_or-accepted p s (decode key) c name (rw (e, try_key) at h)
      | inl e ↦
          kidless (Bool-cases (leb max_kidless_key_trials s.kidless_trials)) (rw (e, try_key) at h)
    ]
      where
        again : Search
        again = record s { kidless_trials = s.kidless_trials + 1 }

        kidless :
            (leb max_kidless_key_trials s.kidless_trials ≡ true)
              ⊎ (leb max_kidless_key_trials s.kidless_trials ≡ false)
            → (if leb max_kidless_key_trials s.kidless_trials
                then halted s
                else accept_or J Key members header now decode p again (decode key))
              ≡ accepted c name
            → IsAccepted p (decode key) c name
        kidless (inl cut) k = absurd (ground arith)
        kidless (inr go) k =
            accept_or-accepted p again (decode key) c name (sym (if_false _ _ _ go) ∙ k)

    try_kid-accepted :
        (p : JwtProvider J Key) (kid : Text) (s : Search) (c : JwtClaims J) (name : Text)
        → try_kid J Key members header now decode p kid s ≡ accepted c name
        → Accepts p kid c × (name ≡ provider_label J Key members p.name)
    unfolding try_kid
    try_kid-accepted p kid s c name h = elim (Bool-cases (is_retired p kid now)) [
      | inl old ↦ absurd (ground arith)
      | inr fresh ↦
          held fresh (Option-cases (decoding_key p kid header.alg)) (sym (if_false _ _ _ fresh) ∙ h)
    ]
      where
        held :
            is_retired p kid now ≡ false
            → (decoding_key p kid header.alg ≡ none)
              ⊎ ((key : Key) × (decoding_key p kid header.alg ≡ some key))
            → elim (decoding_key p kid header.alg) as (λ _. SearchResult J) [
              | none ↦ searching s
              | some key ↦ try_key J Key members header now decode p key s
            ]
              ≡ accepted c name
            → Accepts p kid c × (name ≡ provider_label J Key members p.name)
        held fresh (inl e) k = absurd (ground arith)
        held fresh (inr (key, e)) k =
            let (d, v, l) = try_key-accepted p key s c name (rw e at k) in
            (
              record {
                used_key = key;
                in_force = is_retired-InForce J Key members p kid now fresh;
                held = e;
                decodes = d;
                validated = v;
              },
              l,
            )

    -- Some key in the list accepts the token.
    abbrev pub AcceptsSome : JwtProvider J Key → List Text → JwtClaims J → Text → Type 0
    AcceptsSome p kids c name =
        (kid : Text) × IsIn kid kids
        × Accepts p kid c
        × (name ≡ provider_label J Key members p.name)

    try_kids-accepted :
        (p : JwtProvider J Key) (kids : List Text) (s : Search) (c : JwtClaims J) (name : Text)
        → try_kids J Key members header now decode p kids s ≡ accepted c name
        → AcceptsSome p kids c name
    unfolding try_kids
    try_kids-accepted p [] s c name h = absurd (ground arith)
    try_kids-accepted p (kid ∷ kids) s c name h =
        step (try_kid J Key members header now decode p kid s) refl h
          (λ s'. try_kids-accepted p kids s' c name)
      where
        step :
            (r : SearchResult J)
            → try_kid J Key members header now decode p kid s ≡ r
            → elim r as (λ _. SearchResult J) [
              | searching s' ↦ try_kids J Key members header now decode p kids s'
              | accepted x n ↦ accepted x n
              | halted s' ↦ halted s'
            ]
              ≡ accepted c name
            → ((s' : Search)
                → try_kids J Key members header now decode p kids s' ≡ accepted c name
                → AcceptsSome p kids c name)
            → AcceptsSome p (kid ∷ kids) c name
        step (searching s') e k rest = let (j, i, a, l) = rest s' k in (j, inr i, a, l)
        step (halted s') e k rest = absurd (ground arith)
        step (accepted x n) e k rest =
            let (a, l) = try_kid-accepted p kid s c name (e ∙ k) in (kid, inl refl, a, l)

    abbrev pub ProviderAccepts : Bool → List (JwtProvider J Key) → JwtClaims J → Text → Type 0
    ProviderAccepts require_kid ps c name =
        (p : JwtProvider J Key) × IsIn p ps
        × AcceptsSome p (candidate_kids require_kid p header.kid) c name

    pub try_providers-accepted :
        (require_kid : Bool) (ps : List (JwtProvider J Key)) (s : Search) (c : JwtClaims J)
        (name : Text)
        → try_providers J Key members header now decode require_kid ps s ≡ accepted c name
        → ProviderAccepts require_kid ps c name
    unfolding try_providers
    try_providers-accepted require_kid [] s c name h = absurd (ground arith)
    try_providers-accepted require_kid (p ∷ ps) s c name h =
        step
          (try_kids J Key members header now decode p kids
            (outage J Key members header now decode p kids s))
          refl h (λ s'. try_providers-accepted require_kid ps s' c name)
      where
        kids : List Text
        kids = candidate_kids require_kid p header.kid

        step :
            (r : SearchResult J)
            → try_kids J Key members header now decode p kids
                (outage J Key members header now decode p kids s)
              ≡ r
            → elim r as (λ _. SearchResult J) [
              | searching s' ↦ try_providers J Key members header now decode require_kid ps s'
              | accepted x n ↦ accepted x n
              | halted s' ↦ halted s'
            ]
              ≡ accepted c name
            → ((s' : Search)
                → try_providers J Key members header now decode require_kid ps s' ≡ accepted c name
                → ProviderAccepts require_kid ps c name)
            → ProviderAccepts require_kid (p ∷ ps) c name
        step (searching s') e k rest = let (q, i, a) = rest s' k in (q, inr i, a)
        step (halted s') e k rest = absurd (ground arith)
        step (accepted x n) e k rest = (p, inl refl, try_kids-accepted p kids _ c name (e ∙ k))

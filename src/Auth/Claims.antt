-- ===== src/Auth/Claims.antt =====
-- The claims of a token, and what is read off them.
use krab_pub.Common.{ℕ, Bool, List, [], ◌∷◌, Option, none, some}
use krab_pub.Common.Text.{Text, codes}
use krab_pub.Entries.{lookup}
use krab_pub.Auth.Paths.{split_whitespace}

-- `serde_json::Value`, by the calls that the code makes of it.
pub record Json : Type 1 where
  pub Value : Type 0
  pub as_str : Value → Option Text
  pub as_array : Value → Option (List Value)
  pub same : Value → Value → Bool

pub record JwtClaims (J : Json) : Type 0 where
  pub sub : Option Text
  pub iss : Option Text
  pub aud : Option J.Value
  pub exp : Option ℕ
  pub jti : Option Text
  pub token_use : Option Text
  pub tid : Option Text
  pub tenant_id : Option Text
  pub scope : Option Text
  pub scp : Option J.Value
  pub roles : Option (List Text)
  pub role : Option Text
  pub extra : List (Text × J.Value)

abbrev pub or_else {ℓ} : {A : Type ℓ} → Option A → Option A → Option A
or_else none b = b
or_else (some a) b = some a

module _ (J : Json) where
  unfoldable pub string_at : Text → List (Text × J.Value) → Option Text
  unfolding lookup
  string_at k m = elim (lookup k m) [ none ↦ none | some v ↦ J.as_str v ]

  unfoldable pub tenant_from_claims : JwtClaims J → Option Text
  unfolding string_at
  tenant_from_claims c = or_else c.tenant_id (
      or_else c.tid
        (or_else (string_at (codes "tenant_id") c.extra) (string_at (codes "tid") c.extra)))

  -- `filter_map(|v| v.as_str())`.
  unfoldable pub strings_of : List J.Value → List Text
  strings_of [] = []
  strings_of (v ∷ vs) =
      let rest = strings_of vs in elim (J.as_str v) [ none ↦ rest | some s ↦ s ∷ rest ]

  -- A value is a string or an array or neither, and the code tries them in this order.
  unfoldable pub scopes_of : Option J.Value → List Text
  unfolding strings_of split_whitespace
  scopes_of none = []
  scopes_of (some v) = elim (J.as_str v) as (λ _. List Text) [
    | some s ↦ split_whitespace s
    | none ↦ elim (J.as_array v) [ some vs ↦ strings_of vs | none ↦ [] ]
  ]

  unfoldable pub scopes_from_claims : JwtClaims J → List Text
  unfolding scopes_of
  scopes_from_claims c = elim c.scope [ some s ↦ split_whitespace s | none ↦ scopes_of c.scp ]

  unfoldable pub roles_from_claims : JwtClaims J → List Text
  roles_from_claims c = elim c.roles as (λ _. List Text) [
    | some rs ↦ rs
    | none ↦ elim c.role [ some r ↦ r ∷ [] | none ↦ [] ]
  ]

-- ===== src/Auth/Paths.antt =====
-- Paths: their segments, the open ones, and those of the administration.
use krab_pub.Common.{
  ℕ, Bool, true, false, not, ◌&&◌, ◌||◌, List, [], ◌∷◌, ◌++◌, Option, none, some, leb, ◌==◌,
  if◌then◌else◌, filter,
}
use krab_pub.Common.Text.{Text, codes, text_eq, starts_with, strip_prefix}
use krab_pub.Store.Interface.{contains}

abbrev pub is_empty_text : Text → Bool
is_empty_text [] = true
is_empty_text (c ∷ t) = false

abbrev cons_first : ℕ → List Text → List Text
cons_first c [] = (c ∷ []) ∷ []
cons_first c (p ∷ ps) = (c ∷ p) ∷ ps

-- `str::split` at the characters that pass a test.
unfoldable pub split : (ℕ → Bool) → Text → List Text
split at [] = [] ∷ []
split at (c ∷ t) = let rest = split at t in if at c then [] ∷ rest else cons_first c rest

-- `char::is_whitespace`.
abbrev pub is_whitespace : ℕ → Bool
is_whitespace c =
    (leb 9 c && leb c 13)
    || c == 32
    || c == 133
    || c == 160
    || c == 5760
    || (leb 8192 c && leb c 8202)
    || c == 8232
    || c == 8233
    || c == 8239
    || c == 8287
    || c == 12288

unfoldable pub split_whitespace : Text → List Text
unfolding split
split_whitespace t = filter (λ p. not (is_empty_text p)) (split is_whitespace t)

unfoldable pub trim_start : Text → Text
trim_start [] = []
trim_start (c ∷ t) = let rest = trim_start t in if is_whitespace c then rest else c ∷ t

unfoldable pub trim_end : Text → Text
trim_end [] = []
trim_end (c ∷ t) =
    let rest = trim_end t in if is_empty_text rest && is_whitespace c then [] else c ∷ rest

abbrev trimmed : List Text → List Text
trimmed [] = []
trimmed (t ∷ ts) = trim_end (trim_start t) ∷ trimmed ts

unfoldable pub parse_csv_set : Text → List Text
unfolding split trim_start trim_end
parse_csv_set t = filter (λ p. not (is_empty_text p)) (trimmed (split (λ c. c == b',') t))

-- `path.split('/').filter(|p| !p.is_empty_text())`.
unfoldable pub segments : Text → List Text
unfolding split
segments path = filter (λ p. not (is_empty_text p)) (split (λ c. c == b'/') path)

abbrev pub first_of : List Text → Option Text
first_of [] = none
first_of (s ∷ ss) = some s

unfoldable pub after_tenants : List Text → Option Text
after_tenants [] = none
after_tenants (s ∷ ss) =
    let rest = after_tenants ss in if text_eq s (codes "tenants") then first_of ss else rest

unfoldable pub tenant_from_path : Text → Option Text
unfolding segments after_tenants
tenant_from_path path = after_tenants (segments path)

abbrev pub is_ascii_digit : ℕ → Bool
is_ascii_digit c = leb b'0' c && leb c b'9'

abbrev pub all_digits : Text → Bool
all_digits [] = true
all_digits (c ∷ t) = is_ascii_digit c && all_digits t

-- `v1`, `v2` and so on; a single `v` is one too.
unfoldable pub is_version : Text → Bool
unfolding strip_prefix
is_version s = elim (strip_prefix (codes "v") s) [ none ↦ false | some t ↦ all_digits t ]

abbrev is_segment : Option Text → Text → Bool
is_segment none s = false
is_segment (some t) s = text_eq t s

unfoldable pub admin_segments : List Text → Bool
unfolding text_eq is_version
admin_segments [] = false
admin_segments (a ∷ []) = false
admin_segments (a ∷ b ∷ rest) =
    text_eq a (codes "api")
    && (if text_eq b (codes "admin")
        then true
        else if is_version b
        then is_segment (first_of rest) (codes "admin")
        else false)

unfoldable pub is_admin_api_path : Text → Bool
unfolding admin_segments segments
is_admin_api_path path = admin_segments (segments path)

unfoldable pub is_internal_service_path : Text → Bool
unfolding starts_with
is_internal_service_path path =
    starts_with (codes "/internal") path || starts_with (codes "/api/internal") path

-- `strip_suffix('*')`.
unfoldable pub strip_star : Text → Option Text
strip_star [] = none
strip_star (c ∷ []) = if c == b'*' then some [] else none
strip_star (c ∷ d ∷ t) = elim (strip_star (d ∷ t)) [ none ↦ none | some p ↦ some (c ∷ p) ]

unfoldable pub path_matches : Text → Text → Bool
unfolding strip_star starts_with text_eq
path_matches path pattern = elim (strip_star pattern) [
  | some prefix ↦ starts_with prefix path
  | none ↦ text_eq path pattern
]

unfoldable pub path_matches_patterns : Text → List Text → Bool
unfolding path_matches
path_matches_patterns path [] = false
path_matches_patterns path (p ∷ ps) = path_matches path p || path_matches_patterns path ps

abbrev pub framework_open_paths : List Text
framework_open_paths = codes "/health" ∷ codes "/ready" ∷ []

abbrev pub legacy_app_open_paths : List Text
legacy_app_open_paths =
    codes "/"
    ∷ codes "/contact"
    ∷ codes "/api/contact"
    ∷ codes "/api/v1/auth/login"
    ∷ codes "/api/v1/auth/refresh"
    ∷ codes "/api/v1/auth/revoke"
    ∷ codes "/api/v1/auth/jwks"
    ∷ codes "/api/v1/auth/capabilities"
    ∷ codes "/api/v1/auth/status"
    ∷ codes "/api/status"
    ∷ codes "/data/dashboard"
    ∷ codes "/rpc/version"
    ∷ codes "/rpc/now"
    ∷ codes "/asset-manifest.json"
    ∷ codes "/blog/*"
    ∷ codes "/pkg/*"
    ∷ []

abbrev pub metrics_open_paths : List Text
metrics_open_paths = codes "/metrics" ∷ codes "/metrics/prometheus" ∷ []

-- `if !patterns.contains(&path) { patterns.push(path) }`, path by path.
unfoldable pub push_missing : List Text → List Text → List Text
unfolding text_eq
push_missing [] patterns = patterns
push_missing (p ∷ ps) patterns =
    push_missing ps (if contains p patterns then patterns else patterns ++ p ∷ [])

-- From `KRAB_AUTH_OPEN_PATHS`, `KRAB_AUTH_LEGACY_OPEN_PATHS` and `KRAB_METRICS_PUBLIC`.
unfoldable pub auth_open_path_patterns : Option Text → Bool → Bool → List Text
unfolding push_missing parse_csv_set
auth_open_path_patterns open_paths legacy metrics_public =
    let patterns = elim open_paths as (λ _. List Text) [
      | some raw ↦ parse_csv_set raw
      | none ↦
          if legacy then framework_open_paths ++ legacy_app_open_paths else framework_open_paths
    ] in
    if metrics_public then push_missing metrics_open_paths patterns else patterns

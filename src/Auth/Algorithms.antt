-- ===== src/Auth/Algorithms.antt =====
-- The signature algorithms of tokens, and which of them are allowed.
use krab_pub.Common.{
  ◌-◌, Bool, true, false, not, ◌&&◌, ◌||◌, List, [], ◌∷◌, ◌++◌, Option, none, some, leb,
  if◌then◌else◌, Result, ok, err,
}
use krab_pub.Common.Text.{Text, codes, text_eq}
use krab_pub.Auth.Paths.{parse_csv_set, trim_start, trim_end}

pub data Algorithm : Type 0 where
  hs256 : Algorithm
  hs384 : Algorithm
  hs512 : Algorithm
  rs256 : Algorithm
  rs384 : Algorithm
  rs512 : Algorithm
  es256 : Algorithm
  es384 : Algorithm
  ps256 : Algorithm
  ps384 : Algorithm
  ps512 : Algorithm
  ed_dsa : Algorithm

pub data JwtAlgorithmFamily : Type 0 where
  hmac : JwtAlgorithmFamily
  rsa : JwtAlgorithmFamily
  ec : JwtAlgorithmFamily
  ed : JwtAlgorithmFamily

-- The name of an algorithm, as it is parsed.
abbrev pub algorithm_name : Algorithm → Text
algorithm_name hs256 = codes "HS256"
algorithm_name hs384 = codes "HS384"
algorithm_name hs512 = codes "HS512"
algorithm_name rs256 = codes "RS256"
algorithm_name rs384 = codes "RS384"
algorithm_name rs512 = codes "RS512"
algorithm_name es256 = codes "ES256"
algorithm_name es384 = codes "ES384"
algorithm_name ps256 = codes "PS256"
algorithm_name ps384 = codes "PS384"
algorithm_name ps512 = codes "PS512"
algorithm_name ed_dsa = codes "EDDSA"

abbrev pub all_algorithms : List Algorithm
all_algorithms =
    hs256 ∷ hs384 ∷ hs512 ∷ rs256 ∷ rs384 ∷ rs512 ∷ es256 ∷ es384 ∷ ps256 ∷ ps384 ∷ ps512 ∷ ed_dsa
    ∷ []

unfoldable pub to_ascii_uppercase : Text → Text
to_ascii_uppercase [] = []
to_ascii_uppercase (c ∷ t) = (if leb 97 c && leb c 122 then c - 32 else c) ∷ to_ascii_uppercase t

unfoldable pub named : Text → List Algorithm → Option Algorithm
unfolding text_eq
named t [] = none
named t (a ∷ rest) = if text_eq t (algorithm_name a) then some a else named t rest

unfoldable pub parse_jwt_algorithm : Text → Option Algorithm
unfolding named to_ascii_uppercase trim_start trim_end
parse_jwt_algorithm t = named (to_ascii_uppercase (trim_end (trim_start t))) all_algorithms

abbrev pub is_hmac_algorithm : Algorithm → Bool
is_hmac_algorithm hs256 = true
is_hmac_algorithm hs384 = true
is_hmac_algorithm hs512 = true
is_hmac_algorithm _ = false

-- `JwtAlgorithmFamily::of`.
abbrev pub family_of : Algorithm → JwtAlgorithmFamily
family_of hs256 = hmac
family_of hs384 = hmac
family_of hs512 = hmac
family_of rs256 = rsa
family_of rs384 = rsa
family_of rs512 = rsa
family_of ps256 = rsa
family_of ps384 = rsa
family_of ps512 = rsa
family_of es256 = ec
family_of es384 = ec
family_of ed_dsa = ed

unfoldable pub same_algorithm : Algorithm → Algorithm → Bool
unfolding text_eq
same_algorithm a b = text_eq (algorithm_name a) (algorithm_name b)

abbrev pub has_algorithm : Algorithm → List Algorithm → Bool
has_algorithm a [] = false
has_algorithm a (b ∷ bs) = same_algorithm b a || has_algorithm a bs

unfoldable pub collect_algorithms : List Text → List Algorithm → List Algorithm
unfolding parse_jwt_algorithm same_algorithm
collect_algorithms [] algorithms = algorithms
collect_algorithms (t ∷ ts) algorithms = elim (parse_jwt_algorithm t) as (λ _. List Algorithm) [
  | none ↦ collect_algorithms ts algorithms
  | some a ↦
      collect_algorithms ts
        (if has_algorithm a algorithms then algorithms else algorithms ++ a ∷ [])
]

abbrev pub any_hmac : List Algorithm → Bool
any_hmac [] = false
any_hmac (a ∷ rest) = is_hmac_algorithm a || any_hmac rest

abbrev pub any_asymmetric : List Algorithm → Bool
any_asymmetric [] = false
any_asymmetric (a ∷ rest) = not (is_hmac_algorithm a) || any_asymmetric rest

-- No algorithm, or both HMAC and others: 503.
unfoldable pub one_family : List Algorithm → Result (List Algorithm)
one_family [] = err
one_family (a ∷ rest) =
    if any_hmac (a ∷ rest) && any_asymmetric (a ∷ rest) then err else ok (a ∷ rest)

-- From `KRAB_JWT_ALLOWED_ALGS`.
unfoldable pub configured_jwt_algorithms : Option Text → Result (List Algorithm)
unfolding one_family collect_algorithms parse_csv_set
configured_jwt_algorithms none = ok (hs256 ∷ [])
configured_jwt_algorithms (some raw) = one_family (collect_algorithms (parse_csv_set raw) [])

abbrev among : Option Algorithm → Result (List Algorithm) → Bool
among none r = false
among (some a) err = false
among (some a) (ok allowed) = has_algorithm a allowed

unfoldable pub jwt_algorithm_allowed : Option Text → Text → Bool
unfolding configured_jwt_algorithms parse_jwt_algorithm
jwt_algorithm_allowed setting alg =
    among (parse_jwt_algorithm alg) (configured_jwt_algorithms setting)

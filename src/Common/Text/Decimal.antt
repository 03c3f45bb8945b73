-- ===== src/Common/Text/Decimal.antt =====
-- `u64::to_string` and `str::parse::<u64>` (digits, with at most one leading `+`).
use Prim.Native.Nat.{ℕ, zero, suc, ◌+◌, ◌-◌, ◌*◌, ◌/◌, ◌%◌, ◌^◌, ◌≤◌, ◌<◌}
use mathlib.Core.Path.{◌≡◌, refl, ◌∙◌}
use mathlib.Core.Logic.{inl, inr}
use mathlib.Core.Bool.{Bool, ◌&&◌}
use mathlib.Core.List.{List, [], ◌∷◌, ◌++◌, append_assoc, append-nil}
use mathlib.Core.Option.{Option, none, some}
use native.Mathlib.Omega.{arith}
use krab_pub.Common.Tests.{◌==◌, if◌then◌else◌, leb, ltb, Bool-cases}

abbrev pub u64_max : ℕ
u64_max = 2 ^ 64 - 1

-- The digits of a number; its own value is fuel enough, since a tenth is less.
digits : ℕ → ℕ → List ℕ
digits zero n = (b'0' + n % 10) ∷ []
digits (suc fuel) n =
    let front = digits fuel (n / 10) in
    if ltb n 10 then (b'0' + n) ∷ [] else front ++ (b'0' + n % 10) ∷ []

unfoldable pub to_string : ℕ → List ℕ
unfolding digits
to_string n = digits n n

is_digit : ℕ → Bool
is_digit c = leb b'0' c && leb c b'9'

-- The value of the digits after `acc`, unless one is no digit or the value passes `top`.
parse_digits : ℕ → ℕ → List ℕ → Option ℕ
unfolding is_digit
parse_digits top acc [] = some acc
parse_digits top acc (c ∷ cs) =
    let rest = parse_digits top (acc * 10 + (c - b'0')) cs in
    if is_digit c && leb (acc * 10 + (c - b'0')) top then rest else none

unsigned : List ℕ → Option ℕ
unfolding parse_digits
unsigned [] = none
unsigned (c ∷ cs) = parse_digits u64_max 0 (c ∷ cs)

unfoldable pub parse_u64 : List ℕ → Option ℕ
unfolding unsigned
parse_u64 [] = none
parse_u64 (c ∷ cs) = if c == b'+' then unsigned cs else unsigned (c ∷ cs)

parse_digit :
    (top acc r m : ℕ) (d : List ℕ)
    → r < 10
    → acc * 10 + r ≡ m
    → m ≤ top
    → parse_digits top acc ((b'0' + r) ∷ d) ≡ parse_digits top m d
unfolding parse_digits
parse_digit top acc r m d small e h =
    let value : acc * 10 + (b'0' + r - b'0') ≡ m = omega arith in rw value (ground arith)

-- The first character of a printed number is a digit, so it is no sign.
digits-head : (fuel n : ℕ) → (c : ℕ) × (cs : List ℕ) × (digits fuel n ≡ c ∷ cs) × (b'0' ≤ c)
unfolding digits
digits-head zero n = (_, [], refl, omega arith)
digits-head (suc fuel) n = elim (Bool-cases (ltb n 10)) [
  | inl small ↦ (b'0' + n, [], rw small, omega arith)
  | inr big ↦
      let (c, cs, e, h) = digits-head fuel (n / 10) in
      (c, cs ++ (b'0' + n % 10) ∷ [], rw (big, e), h)
]

parse-digits :
    (top fuel n : ℕ) (d : List ℕ)
    → n ≤ fuel
    → n ≤ top
    → parse_digits top 0 (digits fuel n ++ d) ≡ parse_digits top n d
unfolding digits
parse-digits top zero n d h k = parse_digit top 0 (n % 10) n d (omega arith) (omega arith) k
parse-digits top (suc fuel) n d h k = elim (Bool-cases (ltb n 10)) [
  | inl small ↦ rw small (parse_digit top 0 n n d (ground arith) (omega arith) k)
  | inr big ↦
      rw (big, append_assoc)
        (parse-digits top fuel (n / 10) _ (ground arith) (omega arith)
          ∙ parse_digit top (n / 10) (n % 10) n d (omega arith) (omega arith) k)
]

unsigned-digits : (fuel n : ℕ) → n ≤ fuel → n ≤ u64_max → unsigned (digits fuel n) ≡ some n
unfolding unsigned
unsigned-digits fuel n h k =
    let (c, cs, e, digit) = digits-head fuel n in
    let parsed = parse-digits u64_max fuel n [] h k in rw e (ground (arith, append-nil (c ∷ cs)))

-- A printed u64 parses to itself.
pub parse_u64-to_string : (n : ℕ) → n ≤ u64_max → parse_u64 (to_string n) ≡ some n
unfolding parse_u64 to_string
parse_u64-to_string n k =
    let (c, cs, e, digit) = digits-head n n in
    let parsed = unsigned-digits n n (omega arith) k in rw e (ground arith)

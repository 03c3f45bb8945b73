-- ===== src/Auth/Among.antt =====
-- The tests of a policy on lists and tenants, and what each of them decides.
use krab_pub.Common.{
  ◌≡◌, ◌∙◌, sym, refl, ◌↔◌, ◌⊎◌, inl, inr, Bool, true, not, ◌&&◌, ◌||◌, List, [], ◌∷◌, Option, none,
  some, arith, Bool-cases,
}
use krab_pub.Common.Text.{Text, text_eq, text_eq_iff}
use krab_pub.Store.Interface.{contains}
use krab_pub.Auth.Policy.{
  all_among, any_among, any_if_given, is_tenant, tenant_matches, subject_allowed,
}

-- The value stands in the list.
abbrev pub IsIn : {A : Type 0} → A → List A → Type 0
IsIn x [] = ⊥
IsIn x (y ∷ ys) = (y ≡ x) ⊎ IsIn x ys

IsIn-ap : (s t : Text) (xs : List Text) → s ≡ t → IsIn s xs → IsIn t xs
IsIn-ap s t xs e i = rw (sym e) i

IsIn-contains : (s : Text) (ts : List Text) → contains s ts ≡ true → IsIn s ts
IsIn-contains s [] h = absurd (ground arith)
IsIn-contains s (t ∷ ts) h = elim (Bool-cases (text_eq t s)) [
  | inl e ↦ inl ((text_eq_iff t s).0 e)
  | inr e ↦ inr (IsIn-contains s ts (ground arith))
]

contains-IsIn : (s : Text) (ts : List Text) → IsIn s ts → contains s ts ≡ true
contains-IsIn s [] i = absurd i
contains-IsIn s (t ∷ ts) (inl e) = ground (arith, (text_eq_iff t s).1 e)
contains-IsIn s (t ∷ ts) (inr i) = ground (arith, contains-IsIn s ts i)

pub contains_iff : (s : Text) (ts : List Text) → (contains s ts ≡ true) ↔ IsIn s ts
contains_iff s ts = (IsIn-contains s ts, contains-IsIn s ts)

-- Tests and what they decide.
pub and_iff :
    {A B : Type 0} (a b : Bool) → ((a ≡ true) ↔ A) → ((b ≡ true) ↔ B) → ((a && b) ≡ true) ↔ (A × B)
and_iff a b f g =
    (λ h. (f.0 (ground arith), g.0 (ground arith)), λ h. ground (arith, f.1 h.0, g.1 h.1))

pub or_iff :
    {A B : Type 0} (a b : Bool) → ((a ≡ true) ↔ A) → ((b ≡ true) ↔ B) → ((a || b) ≡ true) ↔ (A ⊎ B)
or_iff a b f g = (
  λ h. elim (Bool-cases a) [ inl x ↦ inl (f.0 x) | inr x ↦ inr (g.0 (ground arith)) ],
  λ h. elim h [ inl x ↦ ground (arith, f.1 x) | inr x ↦ ground (arith, g.1 x) ],
)

-- What is asked only under a condition.
pub unless_iff :
    {B : Type 0} (a b : Bool) → ((b ≡ true) ↔ B) → ((not a || b) ≡ true) ↔ (a ≡ true → B)
unless_iff a b g = (
  λ h x. g.0 (ground arith),
  λ h. elim (Bool-cases a) [ inl x ↦ ground (arith, g.1 (h x)) | inr x ↦ ground arith ],
)

pub iff_trans : {A B C : Type 0} → A ↔ B → B ↔ C → A ↔ C
iff_trans f g = (λ a. g.0 (f.0 a), λ c. f.1 (g.1 c))

abbrev pub Includes : List Text → List Text → Type 0
Includes xs held = (s : Text) → IsIn s xs → IsIn s held

pub all_among_iff : (xs held : List Text) → (all_among xs held ≡ true) ↔ Includes xs held
all_among_iff [] held = (λ h s i. absurd i, λ h. refl)
all_among_iff (x ∷ xs) held =
    iff_trans
      (and_iff (contains x held) (all_among xs held) (contains_iff x held) (all_among_iff xs held))
      (
        λ h s i. elim i [ inl e ↦ rw (sym e) h.0 | inr j ↦ h.1 s j ],
        λ h. (h x (inl refl), λ s i. h s (inr i)),
      )

abbrev pub Meets : List Text → List Text → Type 0
Meets xs held = (s : Text) × IsIn s xs × IsIn s held

any_among_iff : (xs held : List Text) → (any_among xs held ≡ true) ↔ Meets xs held
any_among_iff [] held = (λ h. absurd (ground arith), λ (s, i, j). absurd i)
any_among_iff (x ∷ xs) held =
    iff_trans
      (or_iff (contains x held) (any_among xs held) (contains_iff x held) (any_among_iff xs held))
      (
        λ h. elim h [ inl i ↦ (x, inl refl, i) | inr (s, i, j) ↦ (s, inr i, j) ],
        λ (s, i, j). elim i [ inl e ↦ inl (rw e j) | inr k ↦ inr (s, k, j) ],
      )

-- A list with nothing in it asks for nothing.
abbrev pub MeetsIfGiven : List Text → List Text → Type 0
MeetsIfGiven xs held = (xs ≡ []) ⊎ Meets xs held

pub any_if_given_iff : (xs held : List Text) → (any_if_given xs held ≡ true) ↔ MeetsIfGiven xs held
any_if_given_iff [] held = (λ h. inl refl, λ h. refl)
any_if_given_iff (x ∷ xs) held =
    iff_trans (any_among_iff (x ∷ xs) held)
      (λ h. inr h, λ h. elim h [ inl e ↦ absurd (ground arith) | inr k ↦ k ])

-- The caller is of the tenant that the path names.
abbrev pub IsOfTenant : Option Text → Option Text → Type 0
IsOfTenant of_path tenant = (t : Text) × (of_path ≡ some t) × (tenant ≡ some t)

pub is_tenant_iff : (p t : Option Text) → (is_tenant p t ≡ true) ↔ IsOfTenant p t
is_tenant_iff none t = (λ h. absurd (ground arith), λ (x, e, e'). absurd (ground arith))
is_tenant_iff (some p) none = (λ h. absurd (ground arith), λ (x, e, e'). absurd (ground arith))
is_tenant_iff (some p) (some t) = (
  λ h. (p, refl, ground (arith, (text_eq_iff t p).0 h)),
  λ (x, e, e'). (text_eq_iff t p).1 (ground arith),
)

-- Unless the path names no tenant.
abbrev pub IsOfTenantIfNamed : Option Text → Option Text → Type 0
IsOfTenantIfNamed of_path tenant = (t : Text) → of_path ≡ some t → tenant ≡ some t

pub tenant_matches_iff : (p t : Option Text) → (tenant_matches p t ≡ true) ↔ IsOfTenantIfNamed p t
tenant_matches_iff none t = (λ h x e. absurd (ground arith), λ h. refl)
tenant_matches_iff (some p) t =
    iff_trans (is_tenant_iff (some p) t)
      (λ (x, e, e') y f. e' ∙ sym e ∙ f, λ h. (p, refl, h p refl))

abbrev pub IsSubject : List Text → Option Text → Type 0
IsSubject xs subject = (xs ≡ []) ⊎ ((s : Text) × (subject ≡ some s) × IsIn s xs)

pub subject_allowed_iff :
    (xs : List Text) (subject : Option Text)
    → (subject_allowed xs subject ≡ true) ↔ IsSubject xs subject
subject_allowed_iff [] subject = (λ h. inl refl, λ h. refl)
subject_allowed_iff (x ∷ xs) none = (
  λ h. absurd (ground arith),
  λ h. elim h [ inl e ↦ absurd (ground arith) | inr (s, e, i) ↦ absurd (ground arith) ],
)
subject_allowed_iff (x ∷ xs) (some subject) = iff_trans (contains_iff subject (x ∷ xs)) (
  λ i. inr (subject, refl, i),
  λ h. elim h [
    | inl e ↦ absurd (ground arith)
    | inr (s, e, i) ↦ IsIn-ap s subject (x ∷ xs) (ground arith) i
  ],
)

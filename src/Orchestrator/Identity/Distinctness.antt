-- ===== src/Orchestrator/Identity/Distinctness.antt =====
-- An accepted manifest gives every service a port and a name of its own.
use krab_pub.Common.{
  ℕ, ◌≡◌, ◌≢◌, refl, sym, true, List, [], ◌∷◌, Option, none, some, Result, ok, err, arith,
  Bool-cases, inl, inr,
}
use krab_pub.Common.Text.{Text, text_eq, text_eq_iff, text_eq_refl}
use krab_pub.Store.Interface.{contains}
use krab_pub.Entries.{lookup}
use krab_pub.Orchestrator.Configuration.{ServiceDefinition, Services}
use krab_pub.Orchestrator.Startup.{names_of, sort}
use krab_pub.Orchestrator.Startup.Order.{contains-sort, contains-names_of}
use krab_pub.Orchestrator.Identity.{
  effective_service_name, effective_port, Seen, Checked, accepted, rejected, claimant, claim_port,
  claim_name, and_check, claim_all, check_service, check_names, validate_service_identity,
}

-- Claims are kept.
abbrev Grows : Seen → Seen → Type 0
Grows seen seen' =
    ((p : ℕ) (k : Text)
      → claimant p seen.ports_seen ≡ some k
      → claimant p seen'.ports_seen ≡ some k)
    × ((n k : Text)
        → lookup n seen.identities_seen ≡ some k
        → lookup n seen'.identities_seen ≡ some k)

Grows-trans : (a b c : Seen) → Grows a b → Grows b c → Grows a c
Grows-trans a b c g h = ((λ p k e. h.0 p k (g.0 p k e)), λ n k e. h.1 n k (g.1 n k e))

abbrev HasPort : Text → Option ℕ → Seen → Type 0
HasPort key none seen = Unit {0}
HasPort key (some port) seen = (port ≢ 0) × (claimant port seen.ports_seen ≡ some key)

abbrev HasPortOf : Text → Result (Option ℕ) → Seen → Type 0
HasPortOf key (ok port) seen = HasPort key port seen
HasPortOf key err seen = ⊥

HasPort-Grows :
    (key : Text) (port : Option ℕ) (a b : Seen)
    → Grows a b
    → HasPort key port a
    → HasPort key port b
HasPort-Grows key none a b g h = tt
HasPort-Grows key (some port) a b g h = (h.0, g.0 port key h.1)

claim_port-HasPort :
    (key : Text) (port : Option ℕ) (seen seen' : Seen)
    → claim_port key port seen ≡ accepted seen'
    → Grows seen seen' × HasPort key port seen'
unfolding claim_port claimant
claim_port-HasPort key none seen seen' h = (((λ p k e. ground arith), (λ n k e. ground arith)), tt)
claim_port-HasPort key (some port) seen seen' h =
    (((λ p k e. ground arith), (λ n k e. ground arith)), ((λ z. ground arith), ground arith))

claim_name-Grows :
    (key identity : Text) (seen seen' : Seen)
    → claim_name key identity seen ≡ accepted seen'
    → Grows seen seen' × (lookup identity seen'.identities_seen ≡ some key)
unfolding claim_name lookup
claim_name-Grows key identity seen seen' h = (
  ((λ p k e. ground arith), (λ n k e. ground (arith, text_eq_iff identity n))),
  ground (arith, text_eq_refl identity),
)

module _ (services : Services) where
  abbrev RecordedAs : Text → Option ServiceDefinition → Seen → Type 0
  RecordedAs key none seen = Unit {0}
  RecordedAs key (some service) seen =
      HasPortOf key (effective_port service) seen
      × (lookup (effective_service_name service key) seen.identities_seen ≡ some key)

  abbrev Recorded : Text → Seen → Type 0
  Recorded key seen = RecordedAs key (lookup key services) seen

  RecordedAs-Grows :
      (key : Text) (o : Option ServiceDefinition) (a b : Seen)
      → Grows a b
      → RecordedAs key o a
      → RecordedAs key o b
  RecordedAs-Grows key none a b g h = tt
  RecordedAs-Grows key (some service) a b g h =
      (go (effective_port service) h.0, g.1 (effective_service_name service key) key h.1)
    where
      go : (r : Result (Option ℕ)) → HasPortOf key r a → HasPortOf key r b
      go err h = h
      go (ok port) h = HasPort-Grows key port a b g h

  and_check-accepted :
      (c : Checked) (next : Seen → Checked) (seen' : Seen)
      → and_check c next ≡ accepted seen'
      → (seen : Seen) × (c ≡ accepted seen) × (next seen ≡ accepted seen')
  unfolding and_check
  and_check-accepted (accepted seen) next seen' h = (seen, refl, h)
  and_check-accepted (rejected e) next seen' h = ground arith

  claim_all-Recorded :
      (key : Text) (service : ServiceDefinition) (r : Result (Option ℕ)) (seen seen' : Seen)
      → claim_all key service r seen ≡ accepted seen'
      → Grows seen seen'
        × HasPortOf key r seen'
        × (lookup (effective_service_name service key) seen'.identities_seen ≡ some key)
  unfolding claim_all
  claim_all-Recorded key service err seen seen' h = ground arith
  claim_all-Recorded key service (ok port) seen seen' h =
      let (mid, first, second) = and_check-accepted (claim_port key port seen) _ seen' h in
      let (g, p) = claim_port-HasPort key port seen mid first in
      let (g', n) = claim_name-Grows key (effective_service_name service key) mid seen' second in
      (Grows-trans seen mid seen' g g', HasPort-Grows key port mid seen' g' p, n)

  check_service-Recorded :
      (key : Text) (o : Option ServiceDefinition) (seen seen' : Seen)
      → check_service key o seen ≡ accepted seen'
      → Grows seen seen' × RecordedAs key o seen'
  unfolding check_service
  check_service-Recorded key none seen seen' h =
      (((λ p k e. ground arith), (λ n k e. ground arith)), tt)
  check_service-Recorded key (some service) seen seen' h =
      let (g, p, n) = claim_all-Recorded key service (effective_port service) seen seen' h in
      (g, (p, n))

  check_names-Recorded :
      (names : List Text) (seen seen' : Seen)
      → check_names services names seen ≡ accepted seen'
      → Grows seen seen' × ((k : Text) → contains k names ≡ true → Recorded k seen')
  unfolding check_names
  check_names-Recorded [] seen seen' h =
      (((λ p k e. ground arith), (λ n k e. ground arith)), λ k i. absurd (ground arith))
  check_names-Recorded (key ∷ names) seen seen' h =
      let (mid, first, second) =
        and_check-accepted (check_service key (lookup key services) seen) _ seen' h in
      let (g, r) = check_service-Recorded key (lookup key services) seen mid first in
      let (g', rest) = check_names-Recorded names mid seen' second in
      (
        Grows-trans seen mid seen' g g',
        λ k i. elim (Bool-cases (text_eq key k)) [
          | inl same ↦
              let e : key ≡ k = (text_eq_iff key k).0 same in
              rw (sym e) (RecordedAs-Grows key (lookup key services) mid seen' g' r)
          | inr other ↦ rest k (ground arith)
        ],
      )

  validated :
      (seen : Seen) (k : Text) (service : ServiceDefinition)
      → validate_service_identity services ≡ accepted seen
      → lookup k services ≡ some service
      → RecordedAs k (some service) seen
  unfolding validate_service_identity
  validated seen k service h found =
      let all = check_names-Recorded (sort (names_of services)) _ seen h in
      let listed : contains k (sort (names_of services)) ≡ true =
        ground (arith, contains-sort k (names_of services), contains-names_of k services) in
      rw found at (all.1 k listed)

claimed_port :
    (key : Text) (r : Result (Option ℕ)) (p : ℕ) (seen : Seen)
    → HasPortOf key r seen
    → r ≡ ok (some p)
    → (p ≢ 0) × (claimant p seen.ports_seen ≡ some key)
claimed_port key err p seen h e = absurd h
claimed_port key (ok none) p seen h e = absurd (ground arith)
claimed_port key (ok (some q)) p seen h e = let same : q ≡ p = ground arith in rw (sym same) h

no_error : (key : Text) (r : Result (Option ℕ)) (seen : Seen) → HasPortOf key r seen → r ≢ err
no_error key err seen h e = h
no_error key (ok port) seen h e = ground arith

-- In an accepted manifest no two services bind the same port and no two have the same effective
-- name; the port that a service binds is a number other than 0, or left to its environment.
pub validate_service_identity-distinct :
    (services : Services) (seen : Seen) (j k : Text) (a b : ServiceDefinition)
    → validate_service_identity services ≡ accepted seen
    → lookup j services ≡ some a
    → lookup k services ≡ some b
    → j ≢ k
    → (effective_service_name a j ≢ effective_service_name b k)
      × (effective_port a ≢ err)
      × ((p : ℕ) → effective_port a ≡ ok (some p) → (p ≢ 0) × (effective_port b ≢ ok (some p)))
validate_service_identity-distinct services seen j k a b h fa fb ne =
    let ra = validated services seen j a h fa in
    let rb = validated services seen k b h fb in
    (
      (λ e. ground arith),
      no_error j (effective_port a) seen ra.0,
      λ p e.
          let (nonzero, mine) = claimed_port j (effective_port a) p seen ra.0 e in
          (
            nonzero,
            λ e'.
                let (_, theirs) = claimed_port k (effective_port b) p seen rb.0 e' in ground arith,
          ),
    )

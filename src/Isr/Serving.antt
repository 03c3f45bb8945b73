-- ===== src/Isr/Serving.antt =====
-- What the page cache of isr.rs serves, how long it keeps a page, and who renders a missing one.
use krab_pub.Common.{
  ℕ, ◌+◌, ◌-◌, ◌*◌, ◌≤◌, ◌<◌, ◌≡◌, ◌≢◌, refl, sym, ap, ◌∙◌, true, false, List, [], ◌∷◌, map, none,
  some, is_some, ltb, Result, ok, arith,
}
use krab_pub.Common.Text.{Text, codes}
use krab_pub.Store.Interface.{Times, DistributedStore, IsLawful, passed, deadline}
use krab_pub.Isr.{
  Codec, IsrPolicy, revalidate, key, lease_key, get, put, serve, serve_or_lease, take_lease,
  decoded, served, new_entry, is_stale, stale_by, retention_for, duration_max, min_retention,
  render_lease_ttl, IsrServeOutcome, miss_acquired, miss_locked,
}
use krab_pub.Isr.Invalidation.{get-reads}

key-ne-lease_key : (namespace path : Text) → key namespace path ≢ lease_key namespace path
unfolding key lease_key
key-ne-lease_key [] path e = ground arith
key-ne-lease_key (c ∷ n) path e = key-ne-lease_key n path (ground arith)

-- A page that goes stale after `max_age` is kept at least ten times as long, and an hour.
pub retention-revalidate :
    (max_age : ℕ)
    → max_age * 10 ≤ duration_max
    → (max_age * 10 ≤ retention_for (revalidate max_age))
      × (min_retention ≤ retention_for (revalidate max_age))
unfolding retention_for
retention-revalidate max_age h = (omega arith, omega arith)

module _ (d : DistributedStore) (codec : Codec) (namespace : Text) (l : IsLawful d) where
  open d use {State}

  put-reads :
      (s : State) (t : Times) (path html : Text) (policy : IsrPolicy) (system_now now : ℕ)
      → l.Valid s
      → t.sweep ≤ now
      → passed (deadline t.call (retention_for policy)) now ≡ false
      → l.reads (put d codec namespace s t path html policy system_now).0 now (key namespace path)
        ≡ some (codec.encode (new_entry codec html policy system_now))
  unfolding put
  put-reads s t path html policy system_now now v h live =
      l.set_self s t (key namespace path) _ (retention_for policy) now v h ∙ rw live

  serve-reads :
      (s : State) (t : Times) (path : Text) (system_now : ℕ)
      → (serve d codec namespace s t path system_now).1
        ≡ ok (served system_now (decoded codec (l.reads s t.call (key namespace path))))
  unfolding serve
  serve-reads s t path system_now = rw (get-reads d codec namespace l s t path)

  -- Until its retention has passed, a page that was put is served with the html that was put, and
  -- with the flag for revalidation exactly if its policy calls for it at that age: never for a
  -- static page, always for one on demand, and else when the age is more than `max_age`.
  pub serve-put :
      (s : State) (t t' : Times) (path html : Text) (policy : IsrPolicy) (put_at served_at : ℕ)
      → l.Valid s
      → t.sweep ≤ t'.call
      → passed (deadline t.call (retention_for policy)) t'.call ≡ false
      → (serve d codec namespace
          (put d codec namespace s t path html policy put_at).0
          t'
          path
          served_at).1
        ≡ ok (some (html, stale_by policy (served_at - put_at)))
  unfolding is_stale new_entry
  serve-put s t t' path html policy put_at served_at v h live =
      let e = new_entry codec html policy put_at in
      serve-reads (put d codec namespace s t path html policy put_at).0 t' path served_at
      ∙ rw (put-reads s t path html policy put_at t'.call v h live, codec.decode-encode e)

  -- Stale-while-revalidate: a page with a `max_age` is served, stale or not, at any time less than
  -- ten times its `max_age` after it was put.
  pub serve-put_revalidate :
      (s : State) (t t' : Times) (path html : Text) (max_age put_at served_at : ℕ)
      → l.Valid s
      → max_age * 10 ≤ duration_max
      → t.sweep ≤ t'.call
      → t'.call < t.call + max_age * 10
      → (serve d codec namespace
          (put d codec namespace s t path html (revalidate max_age) put_at).0
          t'
          path
          served_at).1
        ≡ ok (some (html, ltb max_age (served_at - put_at)))
  unfolding stale_by
  serve-put_revalidate s t t' path html max_age put_at served_at v fits h soon =
      serve-put s t t' path html (revalidate max_age) put_at served_at v h
        (ground (arith, retention-revalidate max_age fits))

  -- Requests for one path, at the given times, and their outcomes.
  pub outcomes : Text → State → List Times → List (Result IsrServeOutcome)
  outcomes path s [] = []
  outcomes path s (t ∷ ts) =
      let (s', outcome) = serve_or_lease d codec namespace s t path in outcome ∷ outcomes path s' ts

  -- Times that do not fall, from `from` on and before `until`.
  abbrev pub Within : ℕ → ℕ → List Times → Type 0
  Within from until [] = Unit {0}
  Within from until (t ∷ ts) = (from ≤ t.call) × (t.call < until) × Within t.call until ts

  -- The page is missing, and its lease is held until `until`.
  record Leased (path : Text) (from until : ℕ) (s : State) : Type 0 where
    missing : (now : ℕ) → from ≤ now → l.reads s now (key namespace path) ≡ none
    held :
        (now : ℕ)
        → from ≤ now
        → now < until
        → is_some (l.reads s now (lease_key namespace path)) ≡ true

  get-Leased :
      (s : State) (t : Times) (path : Text) (from until : ℕ)
      → from ≤ t.call
      → Leased path from until s
      → Leased path t.call until (d.get s t (key namespace path)).0
  get-Leased s t path from until h v = record {
    missing = λ now k.
        l.get_reads s t (key namespace path) (key namespace path) now k
        ∙ v.missing now (omega arith);
    held = λ now k b. ground (
      arith,
      l.get_reads s t (key namespace path) (lease_key namespace path) now k,
      v.held now (omega arith) b,
    );
  }

  -- What `serve_or_lease` does where the page is missing.
  serve_or_lease-missing :
      (s : State) (t : Times) (path : Text)
      → l.reads s t.call (key namespace path) ≡ none
      → serve_or_lease d codec namespace s t path
        ≡ take_lease d codec namespace (d.get s t (key namespace path)).0 t path
  unfolding serve_or_lease get
  serve_or_lease-missing s t path h = rw (l.get_ok s t (key namespace path), h)

  take_lease-held :
      (s : State) (t : Times) (path : Text)
      → is_some (l.reads s t.call (lease_key namespace path)) ≡ true
      → take_lease d codec namespace s t path ≡ (s, ok miss_locked)
  unfolding take_lease
  take_lease-held s t path h =
      let k = lease_key namespace path in
      ground (
        arith,
        l.lease_ok s t k (codes "1") render_lease_ttl,
        l.lease_refused s t k (codes "1") render_lease_ttl h,
      )

  outcomes-locked :
      (path : Text) (from until : ℕ) (s : State) (ts : List Times)
      → Leased path from until s
      → Within from until ts
      → outcomes path s ts ≡ map (λ _. ok miss_locked) ts
  unfolding outcomes
  outcomes-locked path from until s [] v w = refl
  outcomes-locked path from until s (t ∷ ts) v w =
      let v' = get-Leased s t path from until w.0 v in
      rw
        (
          serve_or_lease-missing s t path (v.missing t.call w.0),
          take_lease-held (d.get s t (key namespace path)).0 t path
              (v'.held t.call (omega arith) w.1),
        )
        (ap (◌∷◌ (ok miss_locked))
          (outcomes-locked path t.call until (d.get s t (key namespace path)).0 ts v' w.2))

  take_lease-Leased :
      (s : State) (t : Times) (path : Text)
      → l.Valid s
      → ((now : ℕ) → t.call ≤ now → l.reads s now (key namespace path) ≡ none)
      → l.reads s t.call (lease_key namespace path) ≡ none
      → t.call ≤ t.sweep
      → let r = take_lease d codec namespace s t path in
        (r.1 ≡ ok miss_acquired) × Leased path t.sweep (t.call + render_lease_ttl) r.0
  unfolding take_lease
  take_lease-Leased s t path v cold free h =
      let k = lease_key namespace path in
      let taken = l.lease_taken s t k (codes "1") render_lease_ttl (rw free) in
      (
        rw (l.lease_ok s t k (codes "1") render_lease_ttl, free),
        rw taken (record {
          missing = λ now b. ground (
            arith,
            cold now (omega arith),
            l.set_other s t k (codes "1") (key namespace path) render_lease_ttl now v (omega arith)
                (λ e. key-ne-lease_key namespace path (sym e)),
          );
          held = λ now a b.
              ground (arith, l.set_self s t k (codes "1") render_lease_ttl now v (omega arith));
        }),
      )

  -- Single flight. When neither the page nor its lease can be read, the first of a series of
  -- requests that nobody answers with a `put` or a release acquires the lease, and all that follow
  -- after that call and within the ten seconds of the lease find it locked.
  pub outcomes-single_flight :
      (s : State) (t : Times) (ts : List Times) (path : Text)
      → l.Valid s
      → l.reads s t.call (key namespace path) ≡ none
      → l.reads s t.call (lease_key namespace path) ≡ none
      → t.call ≤ t.sweep
      → Within t.sweep (t.call + render_lease_ttl) ts
      → outcomes path s (t ∷ ts) ≡ ok miss_acquired ∷ map (λ _. ok miss_locked) ts
  unfolding outcomes
  outcomes-single_flight s t ts path v cold free order w =
      let k = key namespace path in
      let s1 = (d.get s t k).0 in
      let first =
        take_lease-Leased s1 t path (l.get_valid s t k v)
          (λ now h. l.get_reads s t k k now h ∙ l.reads_expire s t.call now k h cold)
          (l.get_reads s t k (lease_key namespace path) t.call (omega arith) ∙ free) order in
      rw (serve_or_lease-missing s t path cold, first.0)
        (ap (◌∷◌ (ok miss_acquired))
          (outcomes-locked path t.sweep (t.call + render_lease_ttl) _ ts first.1 w))

-- ===== src/Orchestrator/Supervision/Reaped.antt =====
-- The loop of `reap_exited_children` acts on each service by itself.
use krab_pub.Common.{
  ◌≡◌, refl, ap, ◌∙◌, Bool, true, false, List, [], ◌∷◌, Option, none, some, if◌then◌else◌, arith,
  Bool-cases, inl, inr,
}
use krab_pub.Common.Text.{Text, text_eq, text_eq_iff, text_eq_refl}
use krab_pub.Store.Interface.{contains}
use krab_pub.Entries.{lookup, contains_key, lookup-insert, lookup-remove}
use krab_pub.Orchestrator.Configuration.{ServiceDefinition, Services}
use krab_pub.Orchestrator.Supervision.{
  Poll, running, exited, wait_failed, after_exit, or_started, Supervisor, Reaping, reap_polled,
  reap_one, reap_each, child_names,
}
use krab_pub.Orchestrator.Supervision.View.{ServiceView, view, reap_polled_view, reap_view}

module _ {Child : Type 0} where
  reap_polled_self :
      (service : Option ServiceDefinition) (r : Reaping) (k : Text) (p : Poll)
      (s : Supervisor Child)
      → view k (reap_polled service r k p s) ≡ reap_polled_view service r k p (view k s)
  unfolding reap_polled
  reap_polled_self service r k running s = refl
  reap_polled_self service r k wait_failed s = refl
  reap_polled_self none r k exited s = ground (arith, lookup-remove k k s.children, text_eq_refl k)
  reap_polled_self (some service) r k exited s = ground (
    arith,
    lookup-remove k k s.children,
    lookup-insert k k (after_exit service r.now (or_started (lookup k s.supervision) (r.entered k)))
        s.supervision,
    text_eq_refl k,
  )

  reap_polled_other :
      (service : Option ServiceDefinition) (r : Reaping) (j k : Text) (p : Poll)
      (s : Supervisor Child)
      → text_eq j k ≡ false
      → view k (reap_polled service r j p s) ≡ view k s
  unfolding reap_polled
  reap_polled_other service r j k running s n = refl
  reap_polled_other service r j k wait_failed s n = refl
  reap_polled_other none r j k exited s n = ground (arith, lookup-remove j k s.children)
  reap_polled_other (some service) r j k exited s n = ground (
    arith,
    lookup-remove j k s.children,
    lookup-insert j k (after_exit service r.now (or_started (lookup j s.supervision) (r.entered j)))
        s.supervision,
  )

  module _ (services : Services) where
    reap_one_self :
        (r : Reaping) (k : Text) (s : Supervisor Child)
        → view k (reap_one services r k s) ≡ reap_view (lookup k services) r k (view k s)
    unfolding reap_one
    reap_one_self r k s = elim (Bool-cases (contains_key k s.children)) [
      | inl present ↦ rw present (reap_polled_self (lookup k services) r k (r.poll k) s)
      | inr absent ↦ rw absent refl
    ]

    reap_one_other :
        (r : Reaping) (j k : Text) (s : Supervisor Child)
        → text_eq j k ≡ false
        → view k (reap_one services r j s) ≡ view k s
    unfolding reap_one
    reap_one_other r j k s n = elim (Bool-cases (contains_key j s.children)) [
      | inl present ↦ rw present (reap_polled_other (lookup j services) r j k (r.poll j) s n)
      | inr absent ↦ rw absent refl
    ]

    reap_view-twice :
        (service : Option ServiceDefinition) (r : Reaping) (k : Text) (v : ServiceView Child)
        → reap_view service r k (reap_view service r k v) ≡ reap_view service r k v
    reap_view-twice service r k (none, entry) = refl
    reap_view-twice service r k (some child, entry) = go service (r.poll k) refl
      where
        go :
            (service : Option ServiceDefinition) (p : Poll)
            → r.poll k ≡ p
            → reap_view service r k (reap_polled_view service r k p (some child, entry))
              ≡ reap_polled_view service r k p (some child, entry)
        go service running e = rw e refl
        go service wait_failed e = rw e refl
        go none exited e = refl
        go (some service) exited e = refl

    pub reap_each-view :
        (r : Reaping) (k : Text) (names : List Text) (s : Supervisor Child)
        → view k (reap_each services r names s)
          ≡ (if contains k names then reap_view (lookup k services) r k (view k s) else view k s)
    unfolding reap_each
    reap_each-view r k [] s = refl
    reap_each-view r k (j ∷ names) s = elim (Bool-cases (text_eq j k)) [
      | inl same ↦
          let e : j ≡ k = (text_eq_iff j k).0 same in
          rw (same, e)
            (reap_each-view r k names (reap_one services r k s)
              ∙ ap walk (reap_one_self r k s)
              ∙ again (contains k names) (view k s))
      | inr other ↦ rw other (
          reap_each-view r k names (reap_one services r j s)
          ∙ ap walk (reap_one_other r j k s other))
    ]
      where
        walk : ServiceView Child → ServiceView Child
        walk v = if contains k names then reap_view (lookup k services) r k v else v

        again :
            (b : Bool) (v : ServiceView Child)
            → (if b
                then reap_view (lookup k services) r k (reap_view (lookup k services) r k v)
                else reap_view (lookup k services) r k v)
              ≡ reap_view (lookup k services) r k v
        again true v = reap_view-twice (lookup k services) r k v
        again false v = refl

  pub contains-child_names :
      (k : Text) (children : List (Text × Child))
      → contains k (child_names children) ≡ contains_key k children
  unfolding lookup
  contains-child_names k [] = refl
  contains-child_names k ((j, child) ∷ children) = ground (arith, contains-child_names k children)

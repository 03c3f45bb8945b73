-- ===== src/Orchestrator/Supervision/Spawned.antt =====
-- The loop of `spawn_due_restarts` acts on each service by itself.
use krab_pub.Common.{
  ◌≡◌, refl, ap, ◌∙◌, Bool, false, ◌&&◌, List, [], ◌∷◌, Option, none, some, if◌then◌else◌, filter,
  arith, Bool-cases, inl, inr,
}
use krab_pub.Common.Text.{Text, text_eq, text_eq_iff, text_eq_refl}
use krab_pub.Store.Interface.{contains, Unique}
use krab_pub.Entries.{lookup, lookup-insert}
use krab_pub.Orchestrator.Configuration.{ServiceDefinition, Services}
use krab_pub.Orchestrator.Supervision.{
  ServiceSupervision, mark_started, attempted, rearmed, Supervisor, Spawning, spawned,
  spawn_attempt, spawn_one, spawn_each,
}
use krab_pub.Orchestrator.Supervision.View.{ServiceView, view, spawned_view, spawn_view}

pub contains-filter :
    (p : Text → Bool) (k : Text) (ks : List Text)
    → contains k (filter p ks) ≡ (contains k ks && p k)
contains-filter p k [] = refl
contains-filter p k (j ∷ ks) = ground (arith, contains-filter p k ks, text_eq_iff j k)

pub Unique-filter : (p : Text → Bool) (ks : List Text) → Unique ks → Unique (filter p ks)
Unique-filter p [] u = tt
Unique-filter p (j ∷ ks) u = ground (arith, Unique-filter p ks u.1, contains-filter p j ks)

module _ {Child : Type 0} where
  module _ (services : Services) where
    spawned_self :
        (service : ServiceDefinition) (w : Spawning Child) (k : Text) (entry : ServiceSupervision)
        (o : Option Child) (s : Supervisor Child)
        → view k (spawned service w k entry o s) ≡ spawned_view service w k entry o (view k s)
    unfolding spawned
    spawned_self service w k entry none s =
        ground (
          arith,
          lookup-insert k k (rearmed service (w.later k) entry) s.supervision,
          text_eq_refl k,
        )
    spawned_self service w k entry (some child) s = ground (
      arith,
      lookup-insert k k child s.children,
      lookup-insert k k (mark_started (w.later k) entry) s.supervision,
      text_eq_refl k,
    )

    spawned_other :
        (service : ServiceDefinition) (w : Spawning Child) (j k : Text) (entry : ServiceSupervision)
        (o : Option Child) (s : Supervisor Child)
        → text_eq j k ≡ false
        → view k (spawned service w j entry o s) ≡ view k s
    unfolding spawned
    spawned_other service w j k entry none s n =
        ground (arith, lookup-insert j k (rearmed service (w.later j) entry) s.supervision)
    spawned_other service w j k entry (some child) s n = ground (
      arith,
      lookup-insert j k child s.children,
      lookup-insert j k (mark_started (w.later j) entry) s.supervision,
    )

    spawn_attempt_self :
        (service : Option ServiceDefinition) (entry : Option ServiceSupervision)
        (w : Spawning Child) (k : Text) (s : Supervisor Child)
        → view k (spawn_attempt service entry w k s) ≡ spawn_view service entry w k (view k s)
    unfolding spawn_attempt
    spawn_attempt_self none entry w k s = refl
    spawn_attempt_self (some service) none w k s = refl
    spawn_attempt_self (some service) (some entry) w k s =
        spawned_self service w k (attempted entry) (w.child k) s

    spawn_attempt_other :
        (service : Option ServiceDefinition) (entry : Option ServiceSupervision)
        (w : Spawning Child) (j k : Text) (s : Supervisor Child)
        → text_eq j k ≡ false
        → view k (spawn_attempt service entry w j s) ≡ view k s
    unfolding spawn_attempt
    spawn_attempt_other none entry w j k s n = refl
    spawn_attempt_other (some service) none w j k s n = refl
    spawn_attempt_other (some service) (some entry) w j k s n =
        spawned_other service w j k (attempted entry) (w.child j) s n

    pub spawn_each-view :
        (w : Spawning Child) (k : Text) (names : List Text) (s : Supervisor Child)
        → Unique names
        → view k (spawn_each services w names s) ≡ (
            if contains k names
            then spawn_view (lookup k services) (lookup k s.supervision) w k (view k s)
            else view k s)
    unfolding spawn_each spawn_one
    spawn_each-view w k [] s u = refl
    spawn_each-view w k (j ∷ names) s u = elim (Bool-cases (text_eq j k)) [
      | inl same ↦
          let e : j ≡ k = (text_eq_iff j k).0 same in
          let gone : contains k names ≡ false = ground arith in
          rw
            (
              same,
              spawn_each-view w k names
                  (spawn_attempt (lookup j services) (lookup j s.supervision) w j s) u.1,
              gone,
              e,
            )
            (spawn_attempt_self (lookup k services) (lookup k s.supervision) w k s)
      | inr other ↦ rw other (
          spawn_each-view w k names
            (spawn_attempt (lookup j services) (lookup j s.supervision) w j s) u.1
          ∙ ap walk
              (spawn_attempt_other (lookup j services) (lookup j s.supervision) w j k s other))
    ]
      where
        walk : ServiceView Child → ServiceView Child
        walk v = if contains k names then spawn_view (lookup k services) v.1 w k v else v

-- ===== src/Orchestrator/Supervision/Budget.antt =====
-- The restart budget of one service over one tick.
use krab_pub.Common.{
  ℕ, ◌+◌, ◌-◌, ◌^◌, ◌≤◌, ◌<◌, ◌≡◌, refl, ap, ◌∙◌, Bool, true, false, ◌&&◌, Option, none, some,
  is_some, if◌then◌else◌, arith, Bool-cases, inl, inr, Option-cases,
}
use krab_pub.Common.Text.{Text}
use krab_pub.Orchestrator.Configuration.{
  ServiceDefinition, effective_max_restart_attempts, effective_restart_stability_window,
}
use krab_pub.Orchestrator.Supervision.{
  ServiceSupervision, Poll, running, exited, wait_failed, after_exit, attempted, rearmed, is_due,
  or_started, Reaping, Spawning,
}
use krab_pub.Orchestrator.Supervision.View.{
  ServiceView, reap_polled_view, reap_view, spawned_view, spawn_view, due_view, tick_view,
}

after_exit-bounds :
    (service : ServiceDefinition) (now : ℕ) (entry : ServiceSupervision)
    → entry.attempts ≤ effective_max_restart_attempts service
    → ((after_exit service now entry).attempts ≤ effective_max_restart_attempts service)
      × (is_some (after_exit service now entry).retry_at ≡ true
          → (after_exit service now entry).attempts < effective_max_restart_attempts service)
unfolding after_exit
after_exit-bounds service now entry h = ground arith

abbrev pub attempts_of : Option ServiceSupervision → ℕ
attempts_of none = 0
attempts_of (some entry) = entry.attempts

after_exit-attempts :
    (service : ServiceDefinition) (now : ℕ) (entry : ServiceSupervision)
    → now - entry.started_at < effective_restart_stability_window service
    → (after_exit service now entry).attempts ≡ entry.attempts
unfolding after_exit
after_exit-attempts service now entry h = ground arith

after_exit-fresh :
    (service : ServiceDefinition) (now at : ℕ)
    → (after_exit service now (or_started none at)).attempts ≡ 0
unfolding after_exit or_started
after_exit-fresh service now at = ground arith

module _ {Child : Type 0} (service : ServiceDefinition) where
  -- Within the budget; a restart is planned only with budget left, and for a service that is down.
  abbrev pub InBudget : ServiceView Child → Type 0
  InBudget (child, none) = Unit {0}
  InBudget (child, some entry) =
      (entry.attempts ≤ effective_max_restart_attempts service)
      × (is_some entry.retry_at ≡ true → entry.attempts < effective_max_restart_attempts service)
      × (is_some child ≡ true → entry.retry_at ≡ none)

  reap_view-InBudget :
      (r : Reaping) (k : Text) (v : ServiceView Child)
      → InBudget v
      → InBudget (reap_view (some service) r k v)
  unfolding or_started
  reap_view-InBudget r k (none, entry) b = b
  reap_view-InBudget r k (some child, entry) b = go (r.poll k) entry b
    where
      go :
          (p : Poll) (entry : Option ServiceSupervision)
          → InBudget (some child, entry)
          → InBudget (reap_polled_view (some service) r k p (some child, entry))
      go running entry b = b
      go wait_failed entry b = b
      go exited none b =
          (ground (arith, after_exit-bounds service r.now (or_started none (r.entered k))))
      go exited (some entry) b = (ground (arith, after_exit-bounds service r.now entry))

  spawned_view-InBudget :
      (w : Spawning Child) (k : Text) (entry : ServiceSupervision) (o child : Option Child)
      → effective_max_restart_attempts service < 2 ^ 32
      → is_some child ≡ false
      → entry.attempts < effective_max_restart_attempts service
      → InBudget (spawned_view service w k (attempted entry) o (child, some entry))
  unfolding attempted rearmed
  spawned_view-InBudget w k entry none child m n h = ground arith
  spawned_view-InBudget w k entry (some c) child m n h = ground arith

  spawn_view-InBudget :
      (w : Spawning Child) (k : Text) (v : ServiceView Child)
      → effective_max_restart_attempts service < 2 ^ 32
      → due_view w.now v ≡ true
      → InBudget v
      → InBudget (spawn_view (some service) v.1 w k v)
  unfolding is_due
  spawn_view-InBudget w k (child, none) m d b = ground arith
  spawn_view-InBudget w k (child, some entry) m d b =
      spawned_view-InBudget w k entry (w.child k) child m (ground arith)
        (elim (Option-cases entry.retry_at) [
          | inl never ↦ ground arith
          | inr (at, planned) ↦ ground arith
        ])

  pub tick_view-InBudget :
      (listed : Bool) (t : Reaping × Spawning Child) (k : Text) (v : ServiceView Child)
      → effective_max_restart_attempts service < 2 ^ 32
      → InBudget v
      → InBudget (tick_view (some service) listed t k v)
  tick_view-InBudget listed (r, w) k v m b =
      elim (Bool-cases (listed && due_view w.now (reap_view (some service) r k v))) [
        | inl due ↦ rw due (spawn_view-InBudget w k _ m (ground arith) (reap_view-InBudget r k v b))
        | inr quiet ↦ rw quiet (reap_view-InBudget r k v b)
      ]

  -- If the child is found dead, it did not live for a stability window.
  abbrev pub DiesYoung : Reaping → Text → ServiceView Child → Type 0
  DiesYoung r k (child, none) = Unit {0}
  DiesYoung r k (child, some entry) =
      is_some child ≡ true
      → r.poll k ≡ exited
      → r.now - entry.started_at < effective_restart_stability_window service

  reap_view-attempts :
      (r : Reaping) (k : Text) (v : ServiceView Child)
      → DiesYoung r k v
      → attempts_of (reap_view (some service) r k v).1 ≡ attempts_of v.1
  unfolding or_started
  reap_view-attempts r k (none, entry) y = refl
  reap_view-attempts r k (some child, entry) y = go (r.poll k) entry refl y
    where
      go :
          (p : Poll) (entry : Option ServiceSupervision)
          → r.poll k ≡ p
          → DiesYoung r k (some child, entry)
          → attempts_of
              (reap_polled_view {Child = Child} (some service) r k p (some child, entry)).1
            ≡ attempts_of entry
      go running entry e y = refl
      go wait_failed entry e y = refl
      go exited none e y = after_exit-fresh service r.now (r.entered k)
      go exited (some entry) e y = after_exit-attempts service r.now entry (y refl e)

  spawn_view-attempts :
      (w : Spawning Child) (k : Text) (v : ServiceView Child)
      → effective_max_restart_attempts service < 2 ^ 32
      → due_view w.now v ≡ true
      → InBudget v
      → attempts_of (spawn_view (some service) v.1 w k v).1 ≡ attempts_of v.1 + 1
  unfolding is_due attempted rearmed
  spawn_view-attempts w k (child, none) m d b = ground arith
  spawn_view-attempts w k (child, some entry) m d b = go (w.child k)
    where
      below : entry.attempts < effective_max_restart_attempts service
      below = elim (Option-cases entry.retry_at) [
        | inl never ↦ ground arith
        | inr (at, planned) ↦ ground arith
      ]

      go :
          (o : Option Child)
          → attempts_of (spawned_view service w k (attempted entry) o (child, some entry)).1
            ≡ entry.attempts + 1
      go none = ground arith
      go (some c) = ground arith

  pub tick_view-attempts :
      (listed : Bool) (t : Reaping × Spawning Child) (k : Text) (v : ServiceView Child)
      → effective_max_restart_attempts service < 2 ^ 32
      → InBudget v
      → DiesYoung t.0 k v
      → attempts_of (tick_view (some service) listed t k v).1
        ≡ attempts_of v.1
          + (if listed && due_view t.1.now (reap_view (some service) t.0 k v) then 1 else 0)
  tick_view-attempts listed (r, w) k v m b y =
      elim (Bool-cases (listed && due_view w.now (reap_view (some service) r k v))) [
        | inl due ↦ rw due (
            spawn_view-attempts w k _ m (ground arith) (reap_view-InBudget r k v b)
            ∙ ap (λ n. n + 1) (reap_view-attempts r k v y))
        | inr quiet ↦ rw quiet (ground (arith, reap_view-attempts r k v y))
      ]

-- ===== src/Orchestrator/Supervision/View.antt =====
-- What supervision sees of one service, and what a tick does to that.
use krab_pub.Common.{ℕ, Bool, not, ◌&&◌, Option, none, some, is_some, if◌then◌else◌}
use krab_pub.Common.Text.{Text}
use krab_pub.Entries.{lookup}
use krab_pub.Orchestrator.Configuration.{ServiceDefinition}
use krab_pub.Orchestrator.Supervision.{
  ServiceSupervision, mark_started, Poll, running, exited, wait_failed, after_exit, attempted,
  rearmed, is_due, or_started, Supervisor, Reaping, Spawning,
}

-- The child that runs for the service, and its bookkeeping.
abbrev pub ServiceView : Type 0 → Type 0
ServiceView Child = Option Child × Option ServiceSupervision

module _ {Child : Type 0} where
  abbrev pub view : Text → Supervisor Child → ServiceView Child
  view k s = (lookup k s.children, lookup k s.supervision)

  abbrev pub reap_polled_view :
      Option ServiceDefinition → Reaping → Text → Poll → ServiceView Child → ServiceView Child
  reap_polled_view service r k running v = v
  reap_polled_view service r k wait_failed v = v
  reap_polled_view none r k exited v = (none, v.1)
  reap_polled_view (some service) r k exited v =
      (none, some (after_exit service r.now (or_started v.1 (r.entered k))))

  abbrev pub reap_view :
      Option ServiceDefinition → Reaping → Text → ServiceView Child → ServiceView Child
  reap_view service r k v = if is_some v.0 then reap_polled_view service r k (r.poll k) v else v

  abbrev pub spawned_view :
      ServiceDefinition
      → Spawning Child
      → Text
      → ServiceSupervision
      → Option Child
      → ServiceView Child
      → ServiceView Child
  spawned_view service w k entry none v = (v.0, some (rearmed service (w.later k) entry))
  spawned_view service w k entry (some child) v =
      (some child, some (mark_started (w.later k) entry))

  abbrev pub spawn_view :
      Option ServiceDefinition
      → Option ServiceSupervision
      → Spawning Child
      → Text
      → ServiceView Child
      → ServiceView Child
  spawn_view none entry w k v = v
  spawn_view (some service) none w k v = v
  spawn_view (some service) (some entry) w k v =
      spawned_view service w k (attempted entry) (w.child k) v

  abbrev pub due_view : ℕ → ServiceView Child → Bool
  due_view now v = not (is_some v.0) && is_due now v.1

  -- One tick for one service of the startup order.
  abbrev pub tick_view :
      Option ServiceDefinition
      → Bool
      → Reaping × Spawning Child
      → Text
      → ServiceView Child
      → ServiceView Child
  tick_view service listed (r, w) k v =
      let v' = reap_view service r k v in
      if listed && due_view w.now v' then spawn_view service v'.1 w k v' else v'

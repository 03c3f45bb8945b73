-- ===== src/Orchestrator/Supervision/Tick.antt =====
-- A tick of `supervise_children` acts on each service by itself.
use krab_pub.Common.{
  ◌≡◌, refl, ap, ◌∙◌, Bool, not, ◌&&◌, List, Option, none, some, is_some, if◌then◌else◌,
}
use krab_pub.Common.Text.{Text}
use krab_pub.Store.Interface.{contains, Unique}
use krab_pub.Entries.{lookup, contains_key}
use krab_pub.Orchestrator.Configuration.{Services}
use krab_pub.Orchestrator.Supervision.{
  is_due, Supervisor, Reaping, Spawning, child_names, reap_exited_children, due_names,
  spawn_due_restarts, supervise_children, is_restarted,
}
use krab_pub.Orchestrator.Supervision.View.{
  ServiceView, view, reap_view, spawn_view, due_view, tick_view,
}
use krab_pub.Orchestrator.Supervision.Reaped.{reap_each-view, contains-child_names}
use krab_pub.Orchestrator.Supervision.Spawned.{contains-filter, Unique-filter, spawn_each-view}

module _ {Child : Type 0} where
  reap_exited_children-view :
      (services : Services) (r : Reaping) (k : Text) (s : Supervisor Child)
      → view k (reap_exited_children services r s) ≡ reap_view (lookup k services) r k (view k s)
  unfolding reap_exited_children
  reap_exited_children-view services r k s =
      reap_each-view services r k (child_names s.children) s
      ∙ rw (contains-child_names k s.children) (absent (lookup k s.children))
    where
      absent :
          (o : Option Child)
          → (if is_some o
              then reap_view (lookup k services) r k (o, lookup k s.supervision)
              else (o, lookup k s.supervision))
            ≡ reap_view (lookup k services) r k (o, lookup k s.supervision)
      absent none = refl
      absent (some child) = refl

  spawn_due_restarts-view :
      (services : Services) (order : List Text) (w : Spawning Child) (k : Text)
      (s : Supervisor Child)
      → Unique order
      → view k (spawn_due_restarts services order w s) ≡ (
          if contains k order && due_view w.now (view k s)
          then spawn_view (lookup k services) (lookup k s.supervision) w k (view k s)
          else view k s)
  unfolding spawn_due_restarts due_names
  spawn_due_restarts-view services order w k s u =
      spawn_each-view services w k (due_names w.now order s) s (Unique-filter _ order u)
      ∙ rw (contains-filter due k order) refl
    where
      due : Text → Bool
      due name = not (contains_key name s.children) && is_due w.now (lookup name s.supervision)

  pub is_restarted-view :
      (services : Services) (order : List Text) (t : Reaping × Spawning Child) (k : Text)
      (s : Supervisor Child)
      → is_restarted services order t k s
        ≡ (contains k order && due_view t.1.now (reap_view (lookup k services) t.0 k (view k s)))
  unfolding is_restarted due_names
  is_restarted-view services order (r, w) k s =
      contains-filter _ k order
      ∙ ap (λ v. contains k order && due_view w.now v) (reap_exited_children-view services r k s)

  -- A tick of `supervise_children` treats every service by itself: what becomes of a service's child
  -- and bookkeeping is computed from these two alone, whatever happens to the other services in the
  -- same tick. It holds when the startup order has no service twice.
  pub supervise_children-view :
      (services : Services) (order : List Text) (t : Reaping × Spawning Child) (k : Text)
      (s : Supervisor Child)
      → Unique order
      → view k (supervise_children services order t s)
        ≡ tick_view (lookup k services) (contains k order) t k (view k s)
  unfolding supervise_children
  supervise_children-view services order (r, w) k s u =
      spawn_due_restarts-view services order w k (reap_exited_children services r s) u
      ∙ ap next (reap_exited_children-view services r k s)
    where
      next : ServiceView Child → ServiceView Child
      next v =
          if contains k order && due_view w.now v
          then spawn_view (lookup k services) v.1 w k v
          else v

-- ===== src/Orchestrator/Supervision/Backoff.antt =====
-- A service that is found dead, over the ticks that follow: the backoff and giving up.
use krab_pub.Common.{
  ℕ, ◌+◌, ◌-◌, ◌≤◌, ◌<◌, ◌≡◌, ◌⊎◌, refl, ap, ◌∙◌, true, false, ◌&&◌, List, [], ◌∷◌, Option, none,
  some, leb, arith,
}
use krab_pub.Common.Text.{Text}
use krab_pub.Store.Interface.{contains, Unique}
use krab_pub.Entries.{lookup}
use krab_pub.Orchestrator.Configuration.{
  ServiceDefinition, Services, effective_max_restart_attempts, effective_restart_backoff_ms,
  effective_restart_on_exit, effective_restart_stability_window, from_millis,
}
use krab_pub.Orchestrator.Supervision.{
  ServiceSupervision, exited, budget_reset, after_exit, attempted, is_due, or_started, Supervisor,
  Reaping, Spawning, supervise_children, run, restarts, is_restarted,
}
use krab_pub.Orchestrator.Supervision.View.{view, reap_view, spawned_view, due_view, tick_view}
use krab_pub.Orchestrator.Supervision.Tick.{supervise_children-view, is_restarted-view}

abbrev dead : ServiceDefinition → ℕ → ServiceSupervision → Option ServiceSupervision
dead service now entry = some (after_exit service now entry)

is_due_never :
    (now : ℕ) (entry : ServiceSupervision) → entry.retry_at ≡ none → is_due now (some entry) ≡ false
unfolding is_due
is_due_never now entry h = rw h refl

is_due_at :
    (now at : ℕ) (entry : ServiceSupervision)
    → entry.retry_at ≡ some at
    → is_due now (some entry) ≡ leb at now
unfolding is_due
is_due_at now at entry h = rw h refl

module _ {Child : Type 0} (services : Services) (order : List Text) (k : Text)
    (service : ServiceDefinition) where
  -- No tick of the run is one at which the bookkeeping asks for a restart.
  abbrev pub Dormant : Option ServiceSupervision → List (Reaping × Spawning Child) → Type 0
  Dormant entry [] = Unit {0}
  Dormant entry (t ∷ ts) = (is_due t.1.now entry ≡ false) × Dormant entry ts

  stays_down :
      (ts : List (Reaping × Spawning Child)) (s : Supervisor Child)
      (entry : Option ServiceSupervision)
      → Unique order
      → view k s ≡ (none, entry)
      → Dormant entry ts
      → (view k (run services order ts s) ≡ (none, entry)) × (restarts services order ts k s ≡ 0)
  unfolding run restarts
  stays_down [] s entry u down d = (down, refl)
  stays_down (t ∷ ts) s entry u down d =
      let s' = supervise_children services order t s in
      let same : view k s' ≡ (none, entry) =
        supervise_children-view services order t k s u ∙ rw down (ground arith) in
      let quiet : is_restarted services order t k s ≡ false =
        is_restarted-view services order t k s ∙ rw down (ground arith) in
      let rest = stays_down ts s' entry u same d.1 in ground (arith, rest, quiet)

  reap_dead :
      (r : Reaping) (s : Supervisor Child) (child : Child) (entry : ServiceSupervision)
      → view k s ≡ (some child, some entry)
      → r.poll k ≡ exited
      → reap_view (some service) r k (view k s) ≡ (none, dead service r.now entry)
  unfolding or_started
  reap_dead r s child entry up gone = ap (reap_view (some service) r k) up ∙ rw gone refl

  -- After the tick that finds the service dead and the ticks that ask for no restart, it is down.
  down_after_exit :
      (t : Reaping × Spawning Child) (ts : List (Reaping × Spawning Child)) (s : Supervisor Child)
      (child : Child) (entry : ServiceSupervision)
      → Unique order
      → lookup k services ≡ some service
      → view k s ≡ (some child, some entry)
      → t.0.poll k ≡ exited
      → Dormant (dead service t.0.now entry) (t ∷ ts)
      → (view k (run services order (t ∷ ts) s) ≡ (none, dead service t.0.now entry))
        × (restarts services order (t ∷ ts) k s ≡ 0)
  unfolding run restarts
  down_after_exit t ts s child entry u found up gone d =
      let reaped : reap_view (lookup k services) t.0 k (view k s)
          ≡ (none, dead service t.0.now entry) =
        rw found (reap_dead t.0 s child entry up gone) in
      let down : view k (supervise_children services order t s)
          ≡ (none, dead service t.0.now entry) =
        supervise_children-view services order t k s u ∙ rw reaped (ground arith) in
      let quiet : is_restarted services order t k s ≡ false =
        is_restarted-view services order t k s ∙ rw reaped (ground arith) in
      let rest = stays_down ts (supervise_children services order t s) _ u down d.1 in
      (rest.0, ground (arith, rest.1, quiet))

  -- A service that does not restart on exit, or whose budget is spent and that did not live for a
  -- stability window, is left down once it is found dead: no later tick tries to start it.
  pub given_up :
      (t : Reaping × Spawning Child) (ts : List (Reaping × Spawning Child)) (s : Supervisor Child)
      (child : Child) (entry : ServiceSupervision)
      → Unique order
      → lookup k services ≡ some service
      → lookup k s.children ≡ some child
      → lookup k s.supervision ≡ some entry
      → t.0.poll k ≡ exited
      → (effective_restart_on_exit service ≡ false)
        ⊎ ((effective_max_restart_attempts service ≤ entry.attempts)
            × (t.0.now - entry.started_at < effective_restart_stability_window service))
      → (lookup k (run services order (t ∷ ts) s).children ≡ none)
        × (restarts services order (t ∷ ts) k s ≡ 0)
  unfolding after_exit
  given_up t ts s child entry u found has_child has_entry gone why =
      let down = down_after_exit t ts s child entry u found (ground arith) gone (never (t ∷ ts)) in
      (ap (λ v. v.0) down.0, down.1)
    where
      hopeless : (after_exit service t.0.now entry).retry_at ≡ none
      hopeless = ground arith

      never : (ts : List (Reaping × Spawning Child)) → Dormant (dead service t.0.now entry) ts
      never [] = tt
      never (t' ∷ ts) = (is_due_never t'.1.now _ hopeless, never ts)

  -- The spawns of all these ticks come before the deadline.
  abbrev pub AllBefore : ℕ → List (Reaping × Spawning Child) → Type 0
  AllBefore deadline [] = Unit {0}
  AllBefore deadline (t ∷ ts) = (t.1.now < deadline) × AllBefore deadline ts

  due_child :
      (t : Reaping × Spawning Child) (s : Supervisor Child) (entry : ServiceSupervision)
      → Unique order
      → lookup k services ≡ some service
      → contains k order ≡ true
      → view k s ≡ (none, some entry)
      → is_due t.1.now (some entry) ≡ true
      → (is_restarted services order t k s ≡ true)
        × (lookup k (supervise_children services order t s).children ≡ t.1.child k)
  due_child t s entry u found listed down due =
      let seen : view k (supervise_children services order t s)
          ≡ spawned_view service t.1 k (attempted entry) (t.1.child k) (none, some entry) =
        supervise_children-view services order t k s u
        ∙ ap (tick_view (lookup k services) (contains k order) t k) down
        ∙ rw (found, listed, due) refl in
      (
        is_restarted-view services order t k s
            ∙ ap (λ v. contains k order && due_view t.1.now (reap_view (lookup k services) t.0 k v))
                down
            ∙ rw listed due,
        ap (λ v. v.0) seen ∙ child (t.1.child k),
      )
    where
      child :
          (o : Option Child)
          → (spawned_view service t.1 k (attempted entry) o (none, some entry)).0 ≡ o
      child none = refl
      child (some c) = refl

  -- The restart of a crashed service: when it is found dead, restarts on exit and has budget left
  -- (given back, if it had lived for a stability window), then no tick before the end of its backoff
  -- tries to start it, and the first tick from then on does, with the child of that spawn.
  pub restarted_after_backoff :
      (t later : Reaping × Spawning Child) (ts : List (Reaping × Spawning Child))
      (s : Supervisor Child) (child : Child) (entry : ServiceSupervision)
      → Unique order
      → lookup k services ≡ some service
      → contains k order ≡ true
      → lookup k s.children ≡ some child
      → lookup k s.supervision ≡ some entry
      → t.0.poll k ≡ exited
      → effective_restart_on_exit service ≡ true
      → (budget_reset service t.0.now entry).attempts < effective_max_restart_attempts service
      → AllBefore (t.0.now + from_millis (effective_restart_backoff_ms service)) (t ∷ ts)
      → t.0.now + from_millis (effective_restart_backoff_ms service) ≤ later.1.now
      → let s' = run services order (t ∷ ts) s in
        (restarts services order (t ∷ ts) k s ≡ 0)
        × (is_restarted services order later k s' ≡ true)
        × (lookup k (supervise_children services order later s').children ≡ later.1.child k)
  unfolding after_exit
  restarted_after_backoff t later ts s child entry u found listed has_child has_entry gone policy
        budget before after =
      let down =
        down_after_exit t ts s child entry u found (ground arith) gone (asleep (t ∷ ts) before) in
      let due =
        due_child later _ (after_exit service t.0.now entry) u found listed down.0
          (is_due_at later.1.now deadline _ planned ∙ ground arith) in
      (down.1, due.0, due.1)
    where
      deadline : ℕ
      deadline = t.0.now + from_millis (effective_restart_backoff_ms service)

      planned : (after_exit service t.0.now entry).retry_at ≡ some deadline
      planned = ground arith

      asleep :
          (ts : List (Reaping × Spawning Child))
          → AllBefore deadline ts
          → Dormant (dead service t.0.now entry) ts
      asleep [] b = tt
      asleep (t' ∷ ts) b = (is_due_at t'.1.now deadline _ planned ∙ ground arith, asleep ts b.1)

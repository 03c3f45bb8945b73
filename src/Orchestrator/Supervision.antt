-- ===== src/Orchestrator/Supervision.antt =====
-- The supervision of services in process_runtime.rs. What the operating system does is an input:
-- how each child is found, whether a spawn succeeds, and the readings of `Instant::now`.
pub mod View
pub mod Reaped
pub mod Spawned
pub mod Tick
pub mod Budget
pub mod Restarts
pub mod Backoff
use krab_pub.Common.{
  ℕ, ◌+◌, ◌-◌, ◌%◌, ◌^◌, Bool, true, false, not, ◌&&◌, List, [], ◌∷◌, ◌++◌, Option, none, some, ltb,
  leb, if◌then◌else◌, filter,
}
use krab_pub.Common.Text.{Text}
use krab_pub.Entries.{lookup, insert, remove, contains_key}
use krab_pub.Orchestrator.Configuration.{
  ServiceDefinition, Services, from_millis, effective_restart_on_exit, effective_restart_backoff_ms,
  effective_max_restart_attempts, effective_restart_stability_window,
}
use krab_pub.Store.Interface.{contains}

pub record ServiceSupervision : Type 0 where
  pub attempts : ℕ
  pub started_at : ℕ
  pub retry_at : Option ℕ

abbrev pub started_now : ℕ → ServiceSupervision
started_now now = record { attempts = 0; started_at = now; retry_at = none }

abbrev pub mark_started : ℕ → ServiceSupervision → ServiceSupervision
mark_started now entry = record entry { started_at = now; retry_at = none }

-- What `try_wait` reports of a child.
pub data Poll : Type 0 where
  running exited wait_failed : Poll

-- A stable run gives the restart budget back.
unfoldable pub budget_reset : ServiceDefinition → ℕ → ServiceSupervision → ServiceSupervision
budget_reset service now entry =
    if ltb 0 entry.attempts
      && leb (effective_restart_stability_window service) (now - entry.started_at)
    then record entry { attempts = 0 }
    else entry

-- The rest of the loop in `reap_exited_children`: whether the exit leads to a restart, and when.
unfoldable pub scheduled : ServiceDefinition → ℕ → ServiceSupervision → ServiceSupervision
scheduled service now entry =
    let give_up = record entry { retry_at = none } in
    let retry = some (now + from_millis (effective_restart_backoff_ms service)) in
    if not (effective_restart_on_exit service)
    then give_up
    else if leb (effective_max_restart_attempts service) entry.attempts
    then give_up
    else record entry { retry_at = retry }

unfoldable pub after_exit : ServiceDefinition → ℕ → ServiceSupervision → ServiceSupervision
unfolding budget_reset scheduled
after_exit service now entry = scheduled service now (budget_reset service now entry)

-- One more attempt, a u32 that the wrap-around is written out for.
unfoldable pub attempted : ServiceSupervision → ServiceSupervision
attempted entry = record entry { attempts = (entry.attempts + 1) % 2 ^ 32; retry_at = none }

-- After a failed spawn: the backoff again, until the budget is spent.
unfoldable pub rearmed : ServiceDefinition → ℕ → ServiceSupervision → ServiceSupervision
rearmed service now entry =
    if ltb entry.attempts (effective_max_restart_attempts service)
    then record entry { retry_at = some (now + from_millis (effective_restart_backoff_ms service)) }
    else record entry { retry_at = none }

unfoldable pub is_due : ℕ → Option ServiceSupervision → Bool
is_due now none = false
is_due now (some entry) = elim entry.retry_at [ none ↦ false | some at ↦ leb at now ]

unfoldable pub or_started : Option ServiceSupervision → ℕ → ServiceSupervision
or_started none now = started_now now
or_started (some entry) now = entry

pub record Supervisor (Child : Type 0) : Type 0 where
  pub children : List (Text × Child)
  pub supervision : List (Text × ServiceSupervision)

-- The reapings: `now` at the start, and later readings for services without an entry.
pub record Reaping : Type 0 where
  pub now : ℕ
  pub poll : Text → Poll
  pub entered : Text → ℕ

-- The spawns: `now` at the start, the child that a spawn gives if it succeeds, and the time then.
pub record Spawning (Child : Type 0) : Type 0 where
  pub now : ℕ
  pub child : Text → Option Child
  pub later : Text → ℕ

module _ {Child : Type 0} where
  -- A child that has exited is dropped; the service's entry decides about a restart.
  unfoldable pub reap_exited :
      Option ServiceDefinition → Reaping → Text → Supervisor Child → Supervisor Child
  unfolding after_exit or_started
  reap_exited none r name s = record s { children = remove name s.children }
  reap_exited (some service) r name s = record {
    children = remove name s.children;
    supervision =
        insert name
          (after_exit service r.now (or_started (lookup name s.supervision) (r.entered name)))
          s.supervision;
  }

  unfoldable pub reap_polled :
      Option ServiceDefinition → Reaping → Text → Poll → Supervisor Child → Supervisor Child
  unfolding reap_exited
  reap_polled service r name running s = s
  reap_polled service r name wait_failed s = s
  reap_polled service r name exited s = reap_exited service r name s

  unfoldable pub reap_one : Services → Reaping → Text → Supervisor Child → Supervisor Child
  unfolding reap_polled
  reap_one services r name s =
      if contains_key name s.children
      then reap_polled (lookup name services) r name (r.poll name) s
      else s

  unfoldable pub reap_each : Services → Reaping → List Text → Supervisor Child → Supervisor Child
  unfolding reap_one
  reap_each services r [] s = s
  reap_each services r (name ∷ names) s = reap_each services r names (reap_one services r name s)

  abbrev pub child_names : List (Text × Child) → List Text
  child_names [] = []
  child_names ((name, child) ∷ children) = name ∷ child_names children

  unfoldable pub reap_exited_children : Services → Reaping → Supervisor Child → Supervisor Child
  unfolding reap_each
  reap_exited_children services r s = reap_each services r (child_names s.children) s

  unfoldable pub due_names : ℕ → List Text → Supervisor Child → List Text
  unfolding is_due
  due_names now startup_order s =
      filter (λ name. not (contains_key name s.children) && is_due now (lookup name s.supervision))
        startup_order

  unfoldable pub spawned :
      ServiceDefinition
      → Spawning Child
      → Text
      → ServiceSupervision
      → Option Child
      → Supervisor Child
      → Supervisor Child
  unfolding rearmed
  spawned service w name entry (some child) s = record {
    children = insert name child s.children;
    supervision = insert name (mark_started (w.later name) entry) s.supervision;
  }
  spawned service w name entry none s = record s {
    supervision = insert name (rearmed service (w.later name) entry) s.supervision;
  }

  unfoldable pub spawn_attempt :
      Option ServiceDefinition
      → Option ServiceSupervision
      → Spawning Child
      → Text
      → Supervisor Child
      → Supervisor Child
  unfolding spawned attempted
  spawn_attempt none entry w name s = s
  spawn_attempt (some service) none w name s = s
  spawn_attempt (some service) (some entry) w name s =
      spawned service w name (attempted entry) (w.child name) s

  unfoldable pub spawn_one : Services → Spawning Child → Text → Supervisor Child → Supervisor Child
  unfolding spawn_attempt
  spawn_one services w name s =
      spawn_attempt (lookup name services) (lookup name s.supervision) w name s

  unfoldable pub spawn_each :
      Services → Spawning Child → List Text → Supervisor Child → Supervisor Child
  unfolding spawn_one
  spawn_each services w [] s = s
  spawn_each services w (name ∷ names) s = spawn_each services w names (spawn_one services w name s)

  unfoldable pub spawn_due_restarts :
      Services → List Text → Spawning Child → Supervisor Child → Supervisor Child
  unfolding spawn_each due_names
  spawn_due_restarts services startup_order w s =
      spawn_each services w (due_names w.now startup_order s) s

  unfoldable pub supervise_children :
      Services → List Text → Reaping × Spawning Child → Supervisor Child → Supervisor Child
  unfolding reap_exited_children spawn_due_restarts
  supervise_children services startup_order (r, w) s =
      spawn_due_restarts services startup_order w (reap_exited_children services r s)

  -- The supervision loop of `run_supervisor`: a tick every interval, while no source changes.
  unfoldable pub run :
      Services → List Text → List (Reaping × Spawning Child) → Supervisor Child → Supervisor Child
  unfolding supervise_children
  run services startup_order [] s = s
  run services startup_order (t ∷ ts) s =
      run services startup_order ts (supervise_children services startup_order t s)

  -- Whether the tick tries to spawn the service.
  unfoldable pub is_restarted :
      Services → List Text → Reaping × Spawning Child → Text → Supervisor Child → Bool
  unfolding due_names reap_exited_children
  is_restarted services startup_order (r, w) name s =
      contains name (due_names w.now startup_order (reap_exited_children services r s))

  -- How many of the ticks try to spawn it.
  unfoldable pub restarts :
      Services → List Text → List (Reaping × Spawning Child) → Text → Supervisor Child → ℕ
  unfolding is_restarted supervise_children
  restarts services startup_order [] name s = 0
  restarts services startup_order (t ∷ ts) name s =
      let rest =
        restarts services startup_order ts name (supervise_children services startup_order t s) in
      if is_restarted services startup_order t name s then rest + 1 else rest

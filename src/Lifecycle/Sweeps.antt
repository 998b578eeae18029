-- ===== src/Lifecycle/Sweeps.antt =====
-- A sweep that handles the selected rows one by one is one pass over the table.
use asynchronnous_agent_os.Prelude.{
  ℕ, ◌≡◌, refl, true, List, [], ◌∷◌, arith, map, if◌then◌else◌, All, ◌&&◌, sql_eq,
}
use asynchronnous_agent_os.Domain.{status_eq, waiting, running}
use asynchronnous_agent_os.Table.Laws.{Rows}
use asynchronnous_agent_os.Table.Loops.{each-keep}
use asynchronnous_agent_os.Store.{Store, Task, task_key}
use asynchronnous_agent_os.Lifecycle.Evolve.{IsValid, Evolves, Grows, IsSound}
use asynchronnous_agent_os.Lifecycle.Sweep.{
  lease_is_over, returned, recover_lease, recover_expired_leases, timer_is_due, awake, wake,
  wake_due_timers, recover_orphan, recover_orphaned_tasks,
}

Rows-map :
    (f : Task → Task)
    → ((t : Task) → Evolves t (f t))
    → (ts : List Task) → Rows Evolves ts (map f ts)
Rows-map f h [] = tt
Rows-map f h (t ∷ ts) = (h t, Rows-map f h ts)

All-pure : (P : Task → Type 0) → ((t : Task) → P t) → (ts : List Task) → All P ts
All-pure P h [] = tt
All-pure P h (t ∷ ts) = (h t, All-pure P h ts)

All-imp : (P Q : Task → Type 0) → ((t : Task) → P t → Q t) → (ts : List Task) → All P ts → All Q ts
All-imp P Q h [] all = tt
All-imp P Q h (t ∷ ts) all = (h t all.0, All-imp P Q h ts all.1)

module _ (now : ℕ) (s : Store) (h : IsSound s) where
  -- The timers' sweep wakes exactly the tasks whose timer is due.
  pub wake_due_timers-map :
      (wake_due_timers s now).0.tasks
      ≡ map (λ t. if timer_is_due now t then awake now t else t) s.tasks
  unfolding wake_due_timers wake
  wake_due_timers-map =
      each-keep (λ (r : Store). r.tasks) (wake now) (λ t r. status_eq r.status waiting) (awake now)
        (λ r t. refl) (λ t. refl) (timer_is_due now) s h.distinct
        (All-pure _ (λ t e. ground arith) s.tasks)

  selects_lease :
      (t : Task)
      → IsValid t
      → lease_is_over now t ≡ true
      → (status_eq t.status running && sql_eq t.lease_token t.lease_token) ≡ true
  selects_lease t v e = ground arith

  -- The leases' sweep returns exactly the tasks whose lease has expired.
  pub recover_expired_leases-map :
      (recover_expired_leases s now).0.tasks
      ≡ map (λ t. if lease_is_over now t then returned now t else t) s.tasks
  unfolding recover_expired_leases recover_lease
  recover_expired_leases-map =
      each-keep (λ (r : Store). r.tasks) (recover_lease now)
        (λ t r. status_eq r.status running && sql_eq r.lease_token t.lease_token) (returned now)
        (λ r t. refl) (λ t. refl) (lease_is_over now) s h.distinct
        (All-imp IsValid _ (λ t v. selects_lease t v) s.tasks h.valid)

  -- The recovery at a start returns every running task.
  pub recover_orphaned_tasks-map :
      (recover_orphaned_tasks s now).0.tasks
      ≡ map (λ t. if status_eq t.status running then returned now t else t) s.tasks
  unfolding recover_orphaned_tasks recover_orphan
  recover_orphaned_tasks-map =
      each-keep (λ (r : Store). r.tasks) (recover_orphan now) (λ t r. true) (returned now)
        (λ r t. refl) (λ t. refl) (λ t. status_eq t.status running) s h.distinct
        (All-pure _ (λ t e. refl) s.tasks)

  pub wake_due_timers-Grows : Grows s (wake_due_timers s now).0
  wake_due_timers-Grows = rw wake_due_timers-map (Rows-map _ (λ t. ground arith) s.tasks)

  pub recover_expired_leases-Grows : Grows s (recover_expired_leases s now).0
  recover_expired_leases-Grows =
      rw recover_expired_leases-map (Rows-map _ (λ t. ground arith) s.tasks)

  pub recover_orphaned_tasks-Grows : Grows s (recover_orphaned_tasks s now).0
  recover_orphaned_tasks-Grows =
      rw recover_orphaned_tasks-map (Rows-map _ (λ t. ground arith) s.tasks)

-- ===== src/Lifecycle/Sweep.antt =====
-- src/infra/store.js: the sweeps of the scheduler's tick and start. A sweep selects rows, then
-- handles each one. `now` is one reading of the clock.
use Prim.Native.String.{String, ◌++◌}
use asynchronnous_agent_os.Prelude.{
  ℕ, Bool, true, false, ◌&&◌, List, Option, none, some, map, keep, sql_eq, sql_le, length,
}
use asynchronnous_agent_os.Domain.{WaitKind, timer, event, status_eq, ready, running, waiting}
use asynchronnous_agent_os.Table.{each}
use asynchronnous_agent_os.Store.{
  Store, Task, append_audit, update_task, drop_lease, touch, lease_expired, timer_fired,
  task_recovered, task_key,
}
use asynchronnous_agent_os.Lifecycle.Turn.{fail_task}

abbrev pub ids : List Task → List ℕ
ids = map (λ t. t.id)

abbrev pub lease_is_over : ℕ → Task → Bool
lease_is_over now t = status_eq t.status running && sql_le t.lease_expires_at now

abbrev pub returned : ℕ → Task → Task
returned now t = record (touch now (drop_lease t)) { status = ready; next_run_at = now }

unfoldable pub recover_lease : ℕ → Store → Task → Store
recover_lease now s t =
    append_audit
      (update_task s t.id (λ r. status_eq r.status running && sql_eq r.lease_token t.lease_token)
        (returned now))
      t lease_expired

unfoldable pub recover_expired_leases : Store → ℕ → Store × List ℕ
unfolding each
recover_expired_leases s now =
    let rows = keep (lease_is_over now) s.tasks in (each (recover_lease now) s rows, ids rows)

abbrev pub waits_for : WaitKind → Option WaitKind → Bool
waits_for timer (some timer) = true
waits_for event (some event) = true
waits_for _ _ = false

abbrev pub timer_is_due : ℕ → Task → Bool
timer_is_due now t =
    status_eq t.status waiting && (waits_for timer t.wait_kind && sql_le t.wake_at now)

abbrev pub awake : ℕ → Task → Task
awake now t = record t {
  status = ready;
  wait_kind = none;
  wake_at = none;
  next_run_at = now;
  updated_at = now;
}

unfoldable pub wake : ℕ → Store → Task → Store
wake now s t =
    append_audit (update_task s t.id (λ r. status_eq r.status waiting) (awake now)) t timer_fired

unfoldable pub wake_due_timers : Store → ℕ → Store × List ℕ
unfolding each
wake_due_timers s now =
    let rows = keep (timer_is_due now) s.tasks in (each (wake now) s rows, ids rows)

abbrev pub wait_is_over : ℕ → Task → Bool
wait_is_over now t =
    status_eq t.status waiting && (waits_for event t.wait_kind && sql_le t.wake_at now)

-- `${task.wait_topic}`
abbrev pub timeout_text : Task → String
timeout_text t =
    "Timed out while waiting for event " ++ elim t.wait_topic [ none ↦ "null" | some topic ↦ topic ]

unfoldable pub expire_wait : ℕ → Store → Task → Store
expire_wait now s t = (fail_task s t.id (timeout_text t) false none now).0

unfoldable pub expire_event_waits : Store → ℕ → Store × List ℕ
unfolding each
expire_event_waits s now =
    let rows = keep (wait_is_over now) s.tasks in (each (expire_wait now) s rows, ids rows)

unfoldable pub recover_orphan : ℕ → Store → Task → Store
recover_orphan now s t =
    append_audit (update_task s t.id (λ _. true) (returned now)) t task_recovered

unfoldable pub recover_orphaned_tasks : Store → ℕ → Store × ℕ
unfolding each
recover_orphaned_tasks s now =
    let rows = keep (λ t. status_eq t.status running) s.tasks in
    (each (recover_orphan now) s rows, length rows)

-- ===== src/Workflow/Rounds.antt =====
-- How a round of the workflow engine goes on, and what it does at a request to stop.
use asynchronnous_agent_os.Prelude.{
  suc, ◌≡◌, ◌⊎◌, refl, inl, inr, true, false, some, arith, Bool-cases, ◌||◌, ==_refl,
}
use asynchronnous_agent_os.Domain.{ready, running, paused, cancelled}
use asynchronnous_agent_os.Table.Laws.{find-update, key-find}
use asynchronnous_agent_os.Store.{
  Store, Task, Snapshot, PendingEvent, get_task, task_key, append_audit, update_task,
  task_cancelled,
}
use asynchronnous_agent_os.Lifecycle.Evolve.{IsSound, Grows, Grows-IsSound}
use asynchronnous_agent_os.Lifecycle.Settle.{update-Rows}
use asynchronnous_agent_os.Lifecycle.Goals.{reconcile}
use asynchronnous_agent_os.Lifecycle.Dependents.{reconcile-Stands}
use asynchronnous_agent_os.Lifecycle.Controls.{Evolves-cancelled_at_checkpoint}
use asynchronnous_agent_os.Lifecycle.Control.{
  runs_with, preempted, preempt_running_task, paused_at_checkpoint, pause_running_task,
  cancelled_at_checkpoint, cancel_running_task,
}
use asynchronnous_agent_os.Events.{Outcome as Publishing}
use asynchronnous_agent_os.Workflow.Types.{Moment, Job, stops, Outcome, finish}
use asynchronnous_agent_os.Workflow.Turn.{run_round}

-- The snapshot has moved on by one step, or it has an event for the action that waits at its step.
abbrev pub MovesOn : Snapshot → Snapshot → Type 0
MovesOn n n' =
    (n'.pc ≡ suc n.pc) ⊎ ((n'.pc ≡ n.pc) × ((p : PendingEvent) × (n'.pending_event ≡ some p)))

module _ (j : Job) (m : Moment) where
  cancelled_row :
      (s : Store) (n : Snapshot) (t : Task)
      → IsSound s
      → get_task s j.id ≡ some t
      → t.status ≡ running
      → t.lease_token ≡ some j.lease_token
      → get_task (cancel_running_task s j.id n (some j.lease_token) m.now).0 j.id
        ≡ some (cancelled_at_checkpoint n m.now t)
  unfolding cancel_running_task
  cancelled_row s n t h e r l =
      let lease = some j.lease_token in
      let write = cancelled_at_checkpoint n m.now in
      let s' : Store = append_audit (update_task s j.id (runs_with lease) write) t task_cancelled in
      let g : Grows s s' =
        update-Rows s j.id (runs_with lease) write
          (Evolves-cancelled_at_checkpoint n lease m.now) in
      let found = find-update j.id j.id (runs_with lease) write (λ x. refl) s.tasks in
      let own : t.id ≡ j.id = key-find j.id s.tasks t e in
      let row : get_task s' j.id ≡ some (write t) =
        ground (arith, found, ==_refl j.id, ==_refl j.lease_token) in
      let stands : get_task (reconcile s' t.goal_id m.now) t.id ≡ some (write t) =
        reconcile-Stands t.goal_id m.now s' (write t) (Grows-IsSound s s' g h).distinct
          (cc (own, row)) refl in
      ground (arith, own, stands, ==_refl j.lease_token)

  -- What becomes of the task at a request: to cancel first, else to pause, else to preempt.
  abbrev pub Obeys : Snapshot → Task → Task → Type 0
  Obeys n t u =
      ((t.cancel_requested ≡ true) × (u.status ≡ cancelled))
      ⊎ ((t.cancel_requested ≡ false)
          × (t.pause_requested ≡ true)
          × (u.status ≡ paused)
          × (u.snapshot ≡ n))
      ⊎ ((t.cancel_requested ≡ false)
          × (t.pause_requested ≡ false)
          × (u.status ≡ ready)
          × (u.snapshot ≡ n))

  -- Where the rows are valid and the task runs under the worker's lease, a request to cancel, to pause
  -- or to preempt the task ends the turn at the next round, whatever the step is: the task is then
  -- cancelled if that was asked, else paused if that was asked, else ready, and keeps the snapshot if
  -- it was not cancelled.
  pub run_round-Obeys :
      (s : Store) (n : Snapshot) (t : Task)
      → IsSound s
      → get_task s j.id ≡ some t
      → t.status ≡ running
      → t.lease_token ≡ some j.lease_token
      → (t.cancel_requested || (t.pause_requested || t.preempt_requested)) ≡ true
      → (r : Store × Outcome) × (run_round j m s n ≡ stops r)
        × ((u : Task) × (get_task r.0 j.id ≡ some u) × Obeys n t u)
  unfolding run_round pause_running_task preempt_running_task
  run_round-Obeys s n t h e r l q =
      let lease = some j.lease_token in
      let fenced = ==_refl j.lease_token in
      elim (Bool-cases t.cancel_requested) [
        | inl c ↦ (
          finish (cancel_running_task s j.id n lease m.now),
          ground (arith, fenced),
          (cancelled_at_checkpoint n m.now t, cancelled_row s n t h e r l, inl (c, refl)),
        )
        | inr c ↦ elim (Bool-cases t.pause_requested) [
          | inl p ↦
              let found =
                find-update j.id j.id (runs_with lease) (paused_at_checkpoint n m.now) (λ x. refl)
                  s.tasks in
              (
                finish (pause_running_task s j.id n lease m.now),
                ground (arith, fenced),
                (
                  paused_at_checkpoint n m.now t,
                  ground (arith, found, ==_refl j.id, fenced),
                  inr (inl (c, p, refl, refl)),
                ),
              )
          | inr p ↦
              let found =
                find-update j.id j.id (runs_with lease) (preempted n m.now) (λ x. refl) s.tasks in
              (
                finish (preempt_running_task s j.id n lease m.now),
                ground (arith, fenced),
                (
                  preempted n m.now t,
                  ground (arith, found, ==_refl j.id, fenced),
                  inr (inr (c, p, refl, refl)),
                ),
              )
        ]
      ]

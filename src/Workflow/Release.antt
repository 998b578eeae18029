-- ===== src/Workflow/Release.antt =====
-- The calls with which a turn ends give up the worker's lease.
use asynchronnous_agent_os.Prelude.{
  ℕ, ◌≡◌, ◌≢◌, true, String, Option, some, arith, Option-cases, Bool-cases, inl, inr, is_some, refl,
}
use asynchronnous_agent_os.Domain.{status_eq, is_terminal, running}
use asynchronnous_agent_os.Json.{Json}
use asynchronnous_agent_os.Table.Laws.{find-update}
use asynchronnous_agent_os.Store.{
  Store, Task, Snapshot, get_task, task_key, runs_under, append_audit, update_task, task_succeeded,
  task_cancelled,
}
use asynchronnous_agent_os.Lifecycle.Evolve.{
  IsSound, find-IsValid, Grows, find-Evolves, Grows-IsSound,
}
use asynchronnous_agent_os.Lifecycle.Settle.{update-Rows, reconcile-Grows}
use asynchronnous_agent_os.Lifecycle.Goals.{reconcile}
use asynchronnous_agent_os.Lifecycle.Writes.{Evolves-completed}
use asynchronnous_agent_os.Lifecycle.Controls.{Evolves-cancelled_at_checkpoint}
use asynchronnous_agent_os.Lifecycle.Turn.{
  yielded, yield_task, waits_for_timer, wait_for_timer, waits_for_event, wait_for_event, completed,
  complete_task,
}
use asynchronnous_agent_os.Lifecycle.Control.{
  runs_with, preempted, preempt_running_task, paused_at_checkpoint, pause_running_task,
  cancelled_at_checkpoint, cancel_running_task,
}

-- No row of the task holds the lease.
abbrev pub IsReleased : ℕ → ℕ → Store → Type 0
IsReleased id lease s = (u : Task) → get_task s id ≡ some u → u.lease_token ≢ some lease

-- A task whose status is final has no lease after the reconciliation of its goal.
pub reconcile-IsReleased :
    (s : Store) (id lease goal now : ℕ) (t : Task)
    → IsSound s
    → get_task s id ≡ some t
    → is_terminal t.status ≡ true
    → IsReleased id lease (reconcile s goal now)
reconcile-IsReleased s id lease goal now t h e final u f =
    let s' : Store = reconcile s goal now in
    let g : Grows s s' = reconcile-Grows goal now s h in
    let (v, f', ev) = find-Evolves id t s.tasks s'.tasks g e in
    let same : v ≡ u = cc (f, f') in
    let kept = (ev.outcome (find-IsValid id t s.tasks h.valid e) final).status in
    let valid = (find-IsValid id u s'.tasks (Grows-IsSound s s' g h).valid f).leased in
    ground (arith, kept, valid, same, final)

module _ (s : Store) (id lease now : ℕ) (h : IsSound s) where
  leased : (t : Task) → get_task s id ≡ some t → is_some t.lease_token ≡ status_eq t.status running
  leased t e = (find-IsValid id t s.tasks h.valid e).leased

  pub yield_task-IsReleased :
      (n : Snapshot) → IsReleased id lease (yield_task s id n (some lease) now).0
  unfolding yield_task
  yield_task-IsReleased n u e f = elim (Option-cases (get_task s id)) [
    | inl a ↦ ground arith
    | inr (t, a) ↦ ground (
      arith,
      leased t a,
      find-update id id (runs_under (some lease)) (yielded n now) (λ x. refl) s.tasks,
    )
  ]

  pub wait_for_timer-IsReleased :
      (n : Snapshot) (wake : ℕ)
      → IsReleased id lease (wait_for_timer s id n wake (some lease) now).0
  unfolding wait_for_timer
  wait_for_timer-IsReleased n wake u e f = elim (Option-cases (get_task s id)) [
    | inl a ↦ ground arith
    | inr (t, a) ↦ ground (
      arith,
      leased t a,
      find-update id id (runs_under (some lease)) (waits_for_timer n wake now) (λ x. refl) s.tasks,
    )
  ]

  pub wait_for_event-IsReleased :
      (n : Snapshot) (topic key : String) (deadline : Option ℕ)
      → IsReleased id lease (wait_for_event s id n topic key deadline (some lease) now).0
  unfolding wait_for_event
  wait_for_event-IsReleased n topic key deadline u e f = elim (Option-cases (get_task s id)) [
    | inl a ↦ ground arith
    | inr (t, a) ↦ ground (
      arith,
      leased t a,
      find-update id id (runs_under (some lease)) (waits_for_event n topic key deadline now)
          (λ x. refl) s.tasks,
    )
  ]

  pub preempt_running_task-IsReleased :
      (n : Snapshot) → IsReleased id lease (preempt_running_task s id n (some lease) now).0
  unfolding preempt_running_task
  preempt_running_task-IsReleased n u e f = elim (Option-cases (get_task s id)) [
    | inl a ↦ ground arith
    | inr (t, a) ↦ ground (
      arith,
      leased t a,
      find-update id id (runs_with (some lease)) (preempted n now) (λ x. refl) s.tasks,
    )
  ]

  pub pause_running_task-IsReleased :
      (n : Snapshot) → IsReleased id lease (pause_running_task s id n (some lease) now).0
  unfolding pause_running_task
  pause_running_task-IsReleased n u e f = elim (Option-cases (get_task s id)) [
    | inl a ↦ ground arith
    | inr (t, a) ↦ ground (
      arith,
      leased t a,
      find-update id id (runs_with (some lease)) (paused_at_checkpoint n now) (λ x. refl) s.tasks,
    )
  ]

  pub complete_task-IsReleased :
      (n : Snapshot) (result : Json)
      → IsReleased id lease (complete_task s id n result (some lease) now).0
  unfolding complete_task
  complete_task-IsReleased n result u e f = elim (Option-cases (get_task s id)) [
    | inl a ↦ ground arith
    | inr (t, a) ↦
        let s' : Store =
          append_audit (update_task s id (runs_under (some lease)) (completed n result now)) t
            task_succeeded in
        let g : Grows s s' =
          update-Rows s id (runs_under (some lease)) (completed n result now)
            (Evolves-completed n result (some lease) now) in
        let sound : IsSound s' = Grows-IsSound s s' g h in
        let found =
          find-update id id (runs_under (some lease)) (completed n result now) (λ x. refl)
            s.tasks in
        elim (Bool-cases (runs_under (some lease) t)) [
          | inl b ↦
              let row : get_task s' id ≡ some (completed n result now t) = ground (arith, found) in
              let ended = reconcile-IsReleased s' id lease t.goal_id now _ sound row refl in
              ground (arith, ended u)
          | inr b ↦ ground (arith, leased t a, found)
        ]
  ]

  pub cancel_running_task-IsReleased :
      (n : Snapshot) → IsReleased id lease (cancel_running_task s id n (some lease) now).0
  unfolding cancel_running_task
  cancel_running_task-IsReleased n u e f = elim (Option-cases (get_task s id)) [
    | inl a ↦ ground arith
    | inr (t, a) ↦
        let s' : Store =
          append_audit (update_task s id (runs_with (some lease)) (cancelled_at_checkpoint n now)) t
            task_cancelled in
        let g : Grows s s' =
          update-Rows s id (runs_with (some lease)) (cancelled_at_checkpoint n now)
            (Evolves-cancelled_at_checkpoint n (some lease) now) in
        let sound : IsSound s' = Grows-IsSound s s' g h in
        let found =
          find-update id id (runs_with (some lease)) (cancelled_at_checkpoint n now) (λ x. refl)
            s.tasks in
        elim (Bool-cases (runs_with (some lease) t)) [
          | inl b ↦
              let row : get_task s' id ≡ some (cancelled_at_checkpoint n now t) =
                ground (arith, found) in
              let ended = reconcile-IsReleased s' id lease t.goal_id now _ sound row refl in
              ground (arith, ended u)
          | inr b ↦ ground (arith, leased t a, found)
        ]
  ]

-- ===== src/Lifecycle/Controls.antt =====
-- Every call of an operator or of an interrupt takes the rows of `tasks` to rows that they may
-- become.
use asynchronnous_agent_os.Prelude.{
  ℕ, ◌≡◌, inl, inr, min, true, false, ◌||◌, String, Option, arith, Bool-cases, Option-cases,
}
use asynchronnous_agent_os.Domain.{is_terminal, status_eq, paused}
use asynchronnous_agent_os.Store.{
  Store, Task, Snapshot, get_task, append_audit, update_task, task_cancelled, task_resumed,
}
use asynchronnous_agent_os.Lifecycle.Evolve.{
  Evolves, Grows, Grows-refl, IsSound, Grows-trans, Grows-IsSound,
}
use asynchronnous_agent_os.Lifecycle.Settle.{
  update-Rows, update-Rows_found, update-Rows_read, reconcile_after, reconcile_blocked-Grows,
}
use asynchronnous_agent_os.Lifecycle.Goals.{reconcile, reconcile_blocked}
use asynchronnous_agent_os.Lifecycle.Control.{
  runs, runs_with, asked_to_preempt, request_task_preemption, preempted, preempt_running_task,
  asked_to_pause, paused_now, pause_task, paused_at_checkpoint, pause_running_task, resume_status,
  resumed, resume_task, asked_to_cancel, cancelled_now, cancel_task, cancelled_at_checkpoint,
  cancel_running_task, reprioritised, update_task_priority,
}

Evolves-preempted :
    (snapshot : Snapshot) (lease : Option ℕ) (now : ℕ) (t : Task)
    → runs_with lease t ≡ true
    → Evolves t (preempted snapshot now t)
Evolves-preempted snapshot lease now t h = ground arith

Evolves-paused_at_checkpoint :
    (snapshot : Snapshot) (lease : Option ℕ) (now : ℕ) (t : Task)
    → runs_with lease t ≡ true
    → Evolves t (paused_at_checkpoint snapshot now t)
Evolves-paused_at_checkpoint snapshot lease now t h = ground arith

pub Evolves-cancelled_at_checkpoint :
    (snapshot : Snapshot) (lease : Option ℕ) (now : ℕ) (t : Task)
    → runs_with lease t ≡ true
    → Evolves t (cancelled_at_checkpoint snapshot now t)
Evolves-cancelled_at_checkpoint snapshot lease now t h = ground arith

Evolves-asked_to_preempt :
    (interrupt : Option ℕ) (reason : String) (now : ℕ) (t : Task)
    → Evolves t (asked_to_preempt interrupt reason now t)
Evolves-asked_to_preempt interrupt reason now t = ground arith

Evolves-asked_to_pause : (now : ℕ) (t : Task) → Evolves t (asked_to_pause now t)
Evolves-asked_to_pause now t = ground arith

Evolves-asked_to_cancel : (now : ℕ) (t : Task) → Evolves t (asked_to_cancel now t)
Evolves-asked_to_cancel now t = ground arith

Evolves-reprioritised : (priority now : ℕ) (t : Task) → Evolves t (reprioritised priority now t)
Evolves-reprioritised priority now t = ground arith

Evolves-paused_now :
    (now : ℕ) (t : Task)
    → (is_terminal t.status || status_eq t.status paused) ≡ false
    → runs t ≡ false
    → Evolves t (paused_now now t)
Evolves-paused_now now t h k = ground arith

Evolves-cancelled_now :
    (now : ℕ) (t : Task)
    → is_terminal t.status ≡ false
    → runs t ≡ false
    → Evolves t (cancelled_now now t)
Evolves-cancelled_now now t h k = ground arith

Evolves-resumed :
    (now : ℕ) (t : Task)
    → status_eq t.status paused ≡ true
    → Evolves t (resumed (resume_status t now) now t)
Evolves-resumed now t h = ground arith

module _ (s : Store) (id : ℕ) where
  pub request_task_preemption-Grows :
      (interrupt : Option ℕ) (reason : String) (now : ℕ)
      → Grows s (request_task_preemption s id interrupt reason now).0
  unfolding request_task_preemption
  request_task_preemption-Grows interrupt reason now = ground (
    arith,
    Grows-refl s,
    update-Rows s id runs (asked_to_preempt interrupt reason now)
        (λ t _. Evolves-asked_to_preempt interrupt reason now t),
  )

  pub preempt_running_task-Grows :
      (snapshot : Snapshot) (lease : Option ℕ) (now : ℕ)
      → Grows s (preempt_running_task s id snapshot lease now).0
  unfolding preempt_running_task
  preempt_running_task-Grows snapshot lease now = ground (
    arith,
    Grows-refl s,
    update-Rows s id (runs_with lease) (preempted snapshot now)
        (Evolves-preempted snapshot lease now),
  )

  pub pause_running_task-Grows :
      (snapshot : Snapshot) (lease : Option ℕ) (now : ℕ)
      → Grows s (pause_running_task s id snapshot lease now).0
  unfolding pause_running_task
  pause_running_task-Grows snapshot lease now = ground (
    arith,
    Grows-refl s,
    update-Rows s id (runs_with lease) (paused_at_checkpoint snapshot now)
        (Evolves-paused_at_checkpoint snapshot lease now),
  )

  pub update_task_priority-Grows :
      (priority now : ℕ) → Grows s (update_task_priority s id priority now).0
  unfolding update_task_priority
  update_task_priority-Grows priority now = ground (
    arith,
    Grows-refl s,
    update-Rows s id (λ _. true) (reprioritised (min 100 priority) now)
        (λ t _. Evolves-reprioritised (min 100 priority) now t),
  )

  pub pause_task-Grows : (now : ℕ) → Grows s (pause_task s id now).0
  unfolding pause_task
  pause_task-Grows now = elim (Option-cases (get_task s id)) [
    | inl e ↦ rw (e, pause_task) (Grows-refl s)
    | inr (t, e) ↦ elim (Bool-cases (is_terminal t.status || status_eq t.status paused)) [
      | inl done ↦ ground (arith, Grows-refl s)
      | inr live ↦ elim (Bool-cases (runs t)) [
        | inl r ↦
            let g : Grows s (update_task s id (λ _. true) (asked_to_pause now)) =
              update-Rows s id (λ _. true) (asked_to_pause now)
                (λ u _. Evolves-asked_to_pause now u) in
            ground arith
        | inr r ↦
            let g : Grows s (update_task s id (λ _. true) (paused_now now)) =
              update-Rows_found s id (paused_now now) t e (Evolves-paused_now now t live r) in
            ground arith
      ]
    ]
  ]

  pub resume_task-Grows : (now : ℕ) → IsSound s → Grows s (resume_task s id now).0
  unfolding resume_task
  resume_task-Grows now h = elim (Option-cases (get_task s id)) [
    | inl e ↦ rw (e, resume_task) (Grows-refl s)
    | inr (t, e) ↦ elim (Bool-cases (status_eq t.status paused)) [
      | inr other ↦ ground (arith, Grows-refl s)
      | inl is_paused ↦
          let status = resume_status t now in
          let s' : Store =
            append_audit (update_task s id (λ r. status_eq r.status paused) (resumed status now)) t
              task_resumed in
          let g : Grows s s' =
            update-Rows_read s id (λ r. status_eq r.status paused) (resumed status now) t e
              (Evolves-resumed now t is_paused) in
          let b : Grows s (reconcile_blocked s' t.goal_id now) =
            Grows-trans s s' (reconcile_blocked s' t.goal_id now) g
              (reconcile_blocked-Grows t.goal_id now s' (Grows-IsSound s s' g h)) in
          ground arith
    ]
  ]

  pub cancel_task-Grows : (now : ℕ) → IsSound s → Grows s (cancel_task s id now).0
  unfolding cancel_task
  cancel_task-Grows now h = elim (Option-cases (get_task s id)) [
    | inl e ↦ rw (e, cancel_task) (Grows-refl s)
    | inr (t, e) ↦ elim (Bool-cases (is_terminal t.status)) [
      | inl done ↦ ground (arith, Grows-refl s)
      | inr live ↦ elim (Bool-cases (runs t)) [
        | inl r ↦
            let g : Grows s (update_task s id (λ _. true) (asked_to_cancel now)) =
              update-Rows s id (λ _. true) (asked_to_cancel now)
                (λ u _. Evolves-asked_to_cancel now u) in
            ground arith
        | inr r ↦
            let s' : Store = update_task s id (λ _. true) (cancelled_now now) in
            let ended : Grows s (reconcile (append_audit s' t task_cancelled) t.goal_id now) =
              reconcile_after s (append_audit s' t task_cancelled) t.goal_id now h (
                update-Rows_found s id (cancelled_now now) t e
                  (Evolves-cancelled_now now t live r)) in
            ground arith
      ]
    ]
  ]

  pub cancel_running_task-Grows :
      (snapshot : Snapshot) (lease : Option ℕ) (now : ℕ)
      → IsSound s
      → Grows s (cancel_running_task s id snapshot lease now).0
  unfolding cancel_running_task
  cancel_running_task-Grows snapshot lease now h =
      let s' : Store = update_task s id (runs_with lease) (cancelled_at_checkpoint snapshot now) in
      let g : Grows s s' =
        update-Rows s id (runs_with lease) (cancelled_at_checkpoint snapshot now)
          (Evolves-cancelled_at_checkpoint snapshot lease now) in
      elim (Option-cases (get_task s id)) [
        | inl e ↦ rw (e, cancel_running_task) (Grows-refl s)
        | inr (t, e) ↦
            let ended : Grows s (reconcile (append_audit s' t task_cancelled) t.goal_id now) =
              reconcile_after s (append_audit s' t task_cancelled) t.goal_id now h g in
            ground (arith, Grows-refl s)
      ]

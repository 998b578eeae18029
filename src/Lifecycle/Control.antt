-- ===== src/Lifecycle/Control.antt =====
-- src/infra/store.js: pause, resume, cancel and preempt a task, and change its priority.
use asynchronnous_agent_os.Prelude.{
  ℕ, suc, min, Bool, true, false, ◌&&◌, ◌||◌, not, String, Option, none, some, if◌then◌else◌, ltb,
  sql_eq, same,
}
use asynchronnous_agent_os.Domain.{
  TaskStatus, WaitKind, timer, status_eq, is_terminal, ready, running, waiting, blocked, paused,
  cancelled,
}
use asynchronnous_agent_os.Store.{
  Store, Task, Snapshot, get_task, append_audit, update_task, drop_lease, touch, preempt_requested,
  task_preempted, pause_requested, task_paused, task_resumed, cancel_requested, task_cancelled,
  task_priority_revised, task_key,
}
use asynchronnous_agent_os.Lifecycle.Goals.{reconcile, reconcile_blocked}

abbrev pub runs : Task → Bool
runs t = status_eq t.status running

-- `status = 'RUNNING' AND lease_token = ?`
abbrev pub runs_with : Option ℕ → Task → Bool
runs_with lease t = status_eq t.status running && sql_eq t.lease_token lease

-- `task.status !== 'RUNNING' || task.lease_token !== leaseToken`
abbrev pub not_held : Option ℕ → Task → Bool
not_held lease t = not (runs t) || not (same t.lease_token lease)

abbrev pub asked_to_preempt : Option ℕ → String → ℕ → Task → Task
asked_to_preempt interrupt reason now t = record (touch now t) {
  preempt_requested = true;
  preempt_reason = some reason;
  preempted_by = interrupt;
}

unfoldable pub request_task_preemption : Store → ℕ → Option ℕ → String → ℕ → Store × Option Task
request_task_preemption s id interrupt reason now = elim (get_task s id) [
  | none ↦ (s, none)
  | some t ↦
      if not (runs t)
      then (s, some t)
      else let s' = update_task s id runs (asked_to_preempt interrupt reason now) in
        (append_audit s' t preempt_requested, get_task s' id)
]

abbrev pub preempted : Snapshot → ℕ → Task → Task
preempted snapshot now t = record (touch now (drop_lease t)) {
  status = ready;
  snapshot = snapshot;
  preempt_requested = false;
  preempt_reason = none;
  next_run_at = now;
  preemption_count = suc t.preemption_count;
}

unfoldable pub preempt_running_task : Store → ℕ → Snapshot → Option ℕ → ℕ → Store × Option Task
preempt_running_task s id snapshot lease now = elim (get_task s id) [
  | none ↦ (s, none)
  | some t ↦
      if not_held lease t
      then (s, some t)
      else let s' = update_task s id (runs_with lease) (preempted snapshot now) in
        if runs_with lease t
        then (append_audit s' t task_preempted, get_task s' id)
        else (s', get_task s' id)
]

abbrev pub asked_to_pause : ℕ → Task → Task
asked_to_pause now t = record (touch now t) { pause_requested = true }

abbrev pub paused_now : ℕ → Task → Task
paused_now now t = record (touch now t) { status = paused; paused_from_status = some t.status }

unfoldable pub pause_task : Store → ℕ → ℕ → Store × Option Task
pause_task s id now = elim (get_task s id) [
  | none ↦ (s, none)
  | some t ↦
      if is_terminal t.status || status_eq t.status paused
      then (s, some t)
      else if runs t
      then (let s' = update_task s id (λ _. true) (asked_to_pause now) in
          (append_audit s' t pause_requested, get_task s' id))
      else let s' = update_task s id (λ _. true) (paused_now now) in
        (append_audit s' t task_paused, get_task s' id)
]

abbrev pub paused_at_checkpoint : Snapshot → ℕ → Task → Task
paused_at_checkpoint snapshot now t = record (touch now (drop_lease t)) {
  status = paused;
  paused_from_status = some ready;
  pause_requested = false;
  snapshot = snapshot;
}

unfoldable pub pause_running_task : Store → ℕ → Snapshot → Option ℕ → ℕ → Store × Option Task
pause_running_task s id snapshot lease now = elim (get_task s id) [
  | none ↦ (s, none)
  | some t ↦
      if not_held lease t
      then (s, some t)
      else let s' = update_task s id (runs_with lease) (paused_at_checkpoint snapshot now) in
        if runs_with lease t
        then (append_audit s' t task_paused, get_task s' id)
        else (s', get_task s' id)
]

abbrev pub was : TaskStatus → Option TaskStatus → Bool
was status none = false
was status (some from) = status_eq from status

-- `task.wait_kind === TIMER && task.wake_at > now()`: a null `wake_at` is not greater.
abbrev pub timer_runs : Option WaitKind → Option ℕ → ℕ → Bool
timer_runs (some timer) (some wake) now = ltb now wake
timer_runs _ _ now = false

abbrev pub resume_status : Task → ℕ → TaskStatus
resume_status t now =
    if was waiting t.paused_from_status && timer_runs t.wait_kind t.wake_at now
    then waiting
    else if was blocked t.paused_from_status
    then blocked
    else ready

abbrev pub resumed : TaskStatus → ℕ → Task → Task
resumed status now t = record (touch now t) {
  status = status;
  paused_from_status = none;
  pause_requested = false;
  next_run_at = now;
}

unfoldable pub resume_task : Store → ℕ → ℕ → Store × Option Task
resume_task s id now = elim (get_task s id) [
  | none ↦ (s, none)
  | some t ↦
      if not (status_eq t.status paused)
      then (s, some t)
      else let status = resume_status t now in
        let s' =
          append_audit (update_task s id (λ r. status_eq r.status paused) (resumed status now)) t
            task_resumed in
        let s'' = if status_eq status blocked then reconcile_blocked s' t.goal_id now else s' in
        (s'', get_task s'' id)
]

abbrev pub asked_to_cancel : ℕ → Task → Task
asked_to_cancel now t = record (touch now t) { cancel_requested = true }

abbrev pub cancelled_now : ℕ → Task → Task
cancelled_now now t = record (touch now t) { status = cancelled; completed_at = some now }

unfoldable pub cancel_task : Store → ℕ → ℕ → Store × Option Task
cancel_task s id now = elim (get_task s id) [
  | none ↦ (s, none)
  | some t ↦
      if is_terminal t.status
      then (s, some t)
      else if runs t
      then (let s' = update_task s id (λ _. true) (asked_to_cancel now) in
          (append_audit s' t cancel_requested, get_task s' id))
      else let s' = update_task s id (λ _. true) (cancelled_now now) in
        let s'' = reconcile (append_audit s' t task_cancelled) t.goal_id now in
        (s'', get_task s'' id)
]

abbrev pub cancelled_at_checkpoint : Snapshot → ℕ → Task → Task
cancelled_at_checkpoint snapshot now t = record (touch now (drop_lease t)) {
  status = cancelled;
  snapshot = snapshot;
  cancel_requested = false;
  completed_at = some now;
}

unfoldable pub cancel_running_task : Store → ℕ → Snapshot → Option ℕ → ℕ → Store × Option Task
cancel_running_task s id snapshot lease now = elim (get_task s id) [
  | none ↦ (s, none)
  | some t ↦
      if not_held lease t
      then (s, some t)
      else let s' = update_task s id (runs_with lease) (cancelled_at_checkpoint snapshot now) in
        if not (runs_with lease t)
        then (s', get_task s' id)
        else let s'' = reconcile (append_audit s' t task_cancelled) t.goal_id now in
          (s'', get_task s'' id)
]

abbrev pub reprioritised : ℕ → ℕ → Task → Task
reprioritised priority now t = record (touch now t) { priority = priority }

-- A finite priority, rounded to a non-negative integer by the caller.
unfoldable pub update_task_priority : Store → ℕ → ℕ → ℕ → Store × Option Task
update_task_priority s id priority now = elim (get_task s id) [
  | none ↦ (s, none)
  | some t ↦
      let s' = update_task s id (λ _. true) (reprioritised (min 100 priority) now) in
      (append_audit s' t task_priority_revised, get_task s' id)
]

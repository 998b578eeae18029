-- ===== src/Lifecycle/Machine.antt =====
-- The task table as a state machine: one step for each call, and the states that calls can reach.
use asynchronnous_agent_os.Prelude.{ℕ, ◌≤◌, ◌≡◌, Bool, true, false, String, ◌∷◌, Option, none, some}
use asynchronnous_agent_os.Domain.{is_terminal}
use asynchronnous_agent_os.Json.{Json}
use asynchronnous_agent_os.Store.{Store, Task, Snapshot, Audit, get_task, task_key}
use asynchronnous_agent_os.Lifecycle.Evolve.{
  SameOutcome, Evolves-refl, Grows-refl, IsSound, find-IsValid, Later, Later-grown, Later-refl,
  Later-trans,
}
use asynchronnous_agent_os.Lifecycle.Turn.{
  claim_task, checkpoint_task, yield_task, defer_ready_task, wait_for_timer, wait_for_event,
  complete_task, fail_task, renew_lease,
}
use asynchronnous_agent_os.Lifecycle.Control.{
  request_task_preemption, preempt_running_task, pause_task, pause_running_task, resume_task,
  cancel_task, cancel_running_task, update_task_priority,
}
use asynchronnous_agent_os.Lifecycle.Sweep.{
  recover_expired_leases, wake_due_timers, expire_event_waits, recover_orphaned_tasks,
}
use asynchronnous_agent_os.Lifecycle.Notice.{inject_cognitive_notice}
use asynchronnous_agent_os.Lifecycle.Notices.{inject_cognitive_notice-Grows}
use asynchronnous_agent_os.Usage.Books.{Books}
use asynchronnous_agent_os.GoalGraph.Creation.{NewGoal, made, create_goal_with_tasks}
use asynchronnous_agent_os.GoalGraph.Rows.{
  create_goal_with_tasks-IsSound, create_goal_with_tasks-kept,
}
use asynchronnous_agent_os.Events.{Publication, Surroundings, publish_event}
use asynchronnous_agent_os.Events.Consume.{consume_event_and_checkpoint}
use asynchronnous_agent_os.Events.Growth.{publish_event-Grows, consume_event_and_checkpoint-Grows}
use asynchronnous_agent_os.Lifecycle.Turns
use asynchronnous_agent_os.Lifecycle.Controls
use asynchronnous_agent_os.Lifecycle.Sweeps
use asynchronnous_agent_os.Lifecycle.Expiry

-- A call of the store, with any arguments, at any time. A task is failed by a worker that names
-- its lease (`runTask`), or without a token as long as the task has not ended: so the scheduler
-- (`drain`, at a ready task) and the store (`expireEventWaits`, at a waiting one) call it.
pub data Step (s : Store) : Store → Type 0 where
  claim : (id worker token lease_ms now : ℕ) → Step s (claim_task s id worker token lease_ms now).0
  checkpoint :
      (id : ℕ) (snapshot : Snapshot) (message : Option String) (lease : Option ℕ) (now : ℕ)
      → Step s (checkpoint_task s id snapshot message lease now).0
  yields :
      (id : ℕ) (snapshot : Snapshot) (lease : Option ℕ) (now : ℕ)
      → Step s (yield_task s id snapshot lease now).0
  defer :
      (id next : ℕ) (reason : String) (now : ℕ) → Step s (defer_ready_task s id next reason now).0
  sleep :
      (id : ℕ) (snapshot : Snapshot) (wake : ℕ) (lease : Option ℕ) (now : ℕ)
      → Step s (wait_for_timer s id snapshot wake lease now).0
  listen :
      (id : ℕ) (snapshot : Snapshot) (topic key : String) (deadline lease : Option ℕ) (now : ℕ)
      → Step s (wait_for_event s id snapshot topic key deadline lease now).0
  complete :
      (id : ℕ) (snapshot : Snapshot) (result : Json) (lease : Option ℕ) (now : ℕ)
      → Step s (complete_task s id snapshot result lease now).0
  fail :
      (id : ℕ) (error : String) (retryable : Bool) (lease now : ℕ)
      → Step s (fail_task s id error retryable (some lease) now).0
  reject :
      (id : ℕ) (t : Task) (error : String) (retryable : Bool) (now : ℕ)
      → get_task s id ≡ some t
      → is_terminal t.status ≡ false
      → Step s (fail_task s id error retryable none now).0
  renew :
      (id : ℕ) (lease : Option ℕ) (lease_ms now : ℕ)
      → Step s (renew_lease s id lease lease_ms now).0
  ask_preempt :
      (id : ℕ) (interrupt : Option ℕ) (reason : String) (now : ℕ)
      → Step s (request_task_preemption s id interrupt reason now).0
  preempt :
      (id : ℕ) (snapshot : Snapshot) (lease : Option ℕ) (now : ℕ)
      → Step s (preempt_running_task s id snapshot lease now).0
  pause : (id now : ℕ) → Step s (pause_task s id now).0
  pause_running :
      (id : ℕ) (snapshot : Snapshot) (lease : Option ℕ) (now : ℕ)
      → Step s (pause_running_task s id snapshot lease now).0
  resume : (id now : ℕ) → Step s (resume_task s id now).0
  cancel : (id now : ℕ) → Step s (cancel_task s id now).0
  cancel_running :
      (id : ℕ) (snapshot : Snapshot) (lease : Option ℕ) (now : ℕ)
      → Step s (cancel_running_task s id snapshot lease now).0
  reprioritise : (id priority now : ℕ) → Step s (update_task_priority s id priority now).0
  recover_leases : (now : ℕ) → Step s (recover_expired_leases s now).0
  wake_timers : (now : ℕ) → Step s (wake_due_timers s now).0
  expire_waits : (now : ℕ) → Step s (expire_event_waits s now).0
  recover_orphans : (now : ℕ) → Step s (recover_orphaned_tasks s now).0
  publish : (w : Surroundings) (i : Publication) → Step s (publish_event w s i).0
  consume :
      (id e : ℕ) (snapshot : Snapshot) (lease : Option ℕ) (now : ℕ)
      → Step s (consume_event_and_checkpoint s id e snapshot lease now).0
  creates :
      (b b' : Books) (g : NewGoal) (now : ℕ) (s' : Store)
      → create_goal_with_tasks s b g now ≡ made s' b'
      → Step s s'
  injects :
      (notice : Snapshot → Option Snapshot) (goal now : ℕ)
      → Step s (inject_cognitive_notice notice s goal now)
  -- `appendAudit` by another component.
  notes : (a : Audit) → Step s (record s { audit = a ∷ s.audit })

pub data Reach (s : Store) : Store → Type 0 where
  here : Reach s s
  next : {t u : Store} → Reach s t → Step t u → Reach s u

pub Step-Later : {s s' : Store} → IsSound s → Step s s' → Later s s'
Step-Later {s} h (claim id worker token lease_ms now) =
    Later-grown h (Turns.claim_task-Grows s id worker token lease_ms now)
Step-Later {s} h (checkpoint id snapshot message lease now) =
    Later-grown h (Turns.checkpoint_task-Grows s id snapshot message lease now)
Step-Later {s} h (yields id snapshot lease now) =
    Later-grown h (Turns.yield_task-Grows s id snapshot lease now)
Step-Later {s} h (defer id until reason now) =
    Later-grown h (Turns.defer_ready_task-Grows s id until reason now)
Step-Later {s} h (sleep id snapshot wake lease now) =
    Later-grown h (Turns.wait_for_timer-Grows s id snapshot wake lease now)
Step-Later {s} h (listen id snapshot topic key deadline lease now) =
    Later-grown h (Turns.wait_for_event-Grows s id snapshot topic key deadline lease now)
Step-Later {s} h (complete id snapshot result lease now) =
    Later-grown h (Turns.complete_task-Grows s id snapshot result lease now h)
Step-Later {s} h (fail id error retryable lease now) =
    Later-grown h (Turns.fail_task-Grows_lease s id error retryable lease now h)
Step-Later {s} h (reject id t error retryable now e r) = Later-grown h (
    Turns.fail_task-Grows s id error retryable none now h
      (λ u f _ _. let same : u ≡ t = cc (e, f) in rw same r))
Step-Later {s} h (renew id lease lease_ms now) =
    Later-grown h (Turns.renew_lease-Grows s id lease lease_ms now)
Step-Later {s} h (ask_preempt id interrupt reason now) =
    Later-grown h (Controls.request_task_preemption-Grows s id interrupt reason now)
Step-Later {s} h (preempt id snapshot lease now) =
    Later-grown h (Controls.preempt_running_task-Grows s id snapshot lease now)
Step-Later {s} h (pause id now) = Later-grown h (Controls.pause_task-Grows s id now)
Step-Later {s} h (pause_running id snapshot lease now) =
    Later-grown h (Controls.pause_running_task-Grows s id snapshot lease now)
Step-Later {s} h (resume id now) = Later-grown h (Controls.resume_task-Grows s id now h)
Step-Later {s} h (cancel id now) = Later-grown h (Controls.cancel_task-Grows s id now h)
Step-Later {s} h (cancel_running id snapshot lease now) =
    Later-grown h (Controls.cancel_running_task-Grows s id snapshot lease now h)
Step-Later {s} h (reprioritise id priority now) =
    Later-grown h (Controls.update_task_priority-Grows s id priority now)
Step-Later {s} h (recover_leases now) = Later-grown h (Sweeps.recover_expired_leases-Grows now s h)
Step-Later {s} h (wake_timers now) = Later-grown h (Sweeps.wake_due_timers-Grows now s h)
Step-Later {s} h (expire_waits now) = Later-grown h (Expiry.expire_event_waits-Grows now s h)
Step-Later {s} h (recover_orphans now) = Later-grown h (Sweeps.recover_orphaned_tasks-Grows now s h)
Step-Later {s} h (publish w i) = Later-grown h (publish_event-Grows w s i)
Step-Later {s} h (consume id e snapshot lease now) =
    Later-grown h (consume_event_and_checkpoint-Grows s id e snapshot lease now)
Step-Later {s} h (notes a) = Later-grown h (Grows-refl s)
Step-Later {s} h (creates b b' g now s' e) = record {
  kept = λ id t f. (t, create_goal_with_tasks-kept s s' b b' g now id t f e, Evolves-refl t);
  sound = create_goal_with_tasks-IsSound s s' b b' g now h e;
}
Step-Later {s} h (injects notice goal now) =
    Later-grown h (inject_cognitive_notice-Grows notice now s goal)

pub Reach-Later : {s s' : Store} → IsSound s → Reach s s' → Later s s'
Reach-Later h here = Later-refl h
Reach-Later h (next r st) = let l = Reach-Later h r in Later-trans l (Step-Later (l.sound) st)

pub Reach-IsSound : {s s' : Store} → IsSound s → Reach s s' → IsSound s'
Reach-IsSound h r = (Reach-Later h r).sound

-- A task that has succeeded, failed or been cancelled stays so: no sequence of calls without
-- `purgeSession`, of which those of `failTask` without a token name no ended task, removes it or
-- changes its status, its result, its end time or its count of failures.
pub final_stays :
    {s s' : Store} (id : ℕ) (t : Task)
    → IsSound s
    → Reach s s'
    → get_task s id ≡ some t
    → is_terminal t.status ≡ true
    → (u : Task) × (get_task s' id ≡ some u) × SameOutcome t u
final_stays {s} {s'} id t h r e final =
    let (u, f, g) = (Reach-Later h r).kept id t e in
    (u, f, g.outcome (find-IsValid id t s.tasks h.valid e) final)

-- From a store whose rows are valid, every sequence of calls without `purgeSession`, of which those of
-- `failTask` without a token name no ended task, keeps a task and its place in the plan: its goal, its
-- dependencies and its limit of attempts; and neither its revision nor its count of claimed quanta goes back.
pub identity_stays :
    {s s' : Store} (id : ℕ) (t : Task)
    → IsSound s
    → Reach s s'
    → get_task s id ≡ some t
    → (u : Task) × (get_task s' id ≡ some u)
      × (u.goal_id ≡ t.goal_id)
      × (u.depends_on ≡ t.depends_on)
      × (u.max_attempts ≡ t.max_attempts)
      × (t.revision ≤ u.revision)
      × (t.attempt ≤ u.attempt)
identity_stays {s} {s'} id t h r e =
    let (u, f, g) = (Reach-Later h r).kept id t e in
    (u, f, g.goal_id, g.depends_on, g.max_attempts, g.revision, g.attempt)

pub Reach-trans : {s t u : Store} → Reach s t → Reach t u → Reach s u
Reach-trans r here = r
Reach-trans r (next q st) = next (Reach-trans r q) st

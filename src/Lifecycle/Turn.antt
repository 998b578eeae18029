-- ===== src/Lifecycle/Turn.antt =====
-- src/infra/store.js: the calls that a worker makes in an execution quantum. A call returns the
-- task that the source returns, `none` for null. `now` is the call's reading of the clock.
use asynchronnous_agent_os.Prelude.{
  ℕ, suc, ◌+◌, ◌-◌, ◌*◌, ◌^◌, min, Bool, true, false, ◌&&◌, not, String, Option, none, some,
  if◌then◌else◌, leb, ltb, sql_eq, same, is_some,
}
use asynchronnous_agent_os.Domain.{
  timer, event, status_eq, ready, running, waiting, succeeded, failed,
}
use asynchronnous_agent_os.Json.{Json}
use asynchronnous_agent_os.Store.{
  Store, Task, Snapshot, get_task, append_audit, update_task, unfenced, runs_under, drop_lease,
  touch, task_running, checkpoint_saved, task_yielded, task_resource_deferred, task_waiting,
  task_succeeded, task_retry_scheduled, task_failed, task_key,
}
use asynchronnous_agent_os.Lifecycle.Goals.{reconcile}

abbrev pub claimable : ℕ → Task → Bool
claimable now t = status_eq t.status ready && leb t.next_run_at now

abbrev pub claimed : ℕ → ℕ → ℕ → ℕ → Task → Task
claimed worker token lease_ms now t = record (touch now t) {
  status = running;
  lease_owner = some worker;
  lease_token = some token;
  lease_expires_at = some (now + lease_ms);
  attempt = suc t.attempt;
}

-- `token` is the UUID drawn for the lease.
unfoldable pub claim_task : Store → ℕ → ℕ → ℕ → ℕ → ℕ → Store × Option Task
claim_task s id worker token lease_ms now = elim (get_task s id) [
  | none ↦ (s, none)
  | some t ↦
      if not (claimable now t)
      then (s, none)
      else let s' = update_task s id (claimable now) (claimed worker token lease_ms now) in
        (append_audit s' t task_running, get_task s' id)
]

abbrev pub checkpointed : Snapshot → ℕ → Task → Task
checkpointed snapshot now t = record (touch now t) { snapshot = snapshot }

unfoldable pub checkpoint_task :
    Store → ℕ → Snapshot → Option String → Option ℕ → ℕ → Store × Option Task
checkpoint_task s id snapshot message lease now = elim (get_task s id) [
  | none ↦ (s, none)
  | some t ↦
      let s' = update_task s id (unfenced lease) (checkpointed snapshot now) in
      if unfenced lease t && is_some message
      then (append_audit s' t checkpoint_saved, get_task s' id)
      else (s', get_task s' id)
]

abbrev pub yielded : Snapshot → ℕ → Task → Task
yielded snapshot now t = record (touch now (drop_lease t)) {
  status = ready;
  snapshot = snapshot;
  next_run_at = now;
}

unfoldable pub yield_task : Store → ℕ → Snapshot → Option ℕ → ℕ → Store × Option Task
yield_task s id snapshot lease now = elim (get_task s id) [
  | none ↦ (s, none)
  | some t ↦
      if not (status_eq t.status running)
      then (s, none)
      else let s' = update_task s id (runs_under lease) (yielded snapshot now) in
        if runs_under lease t
        then (append_audit s' t task_yielded, get_task s' id)
        else (s', get_task s' id)
]

abbrev pub deferred : ℕ → String → ℕ → Task → Task
deferred next reason now t = record (touch now t) { next_run_at = next; last_error = some reason }

unfoldable pub defer_ready_task : Store → ℕ → ℕ → String → ℕ → Store × Option Task
defer_ready_task s id next reason now = elim (get_task s id) [
  | none ↦ (s, none)
  | some t ↦
      if not (status_eq t.status ready)
      then (s, some t)
      else let s' = update_task s id (λ r. status_eq r.status ready) (deferred next reason now) in
        (append_audit s' t task_resource_deferred, get_task s' id)
]

abbrev pub waits_for_timer : Snapshot → ℕ → ℕ → Task → Task
waits_for_timer snapshot wake now t = record (touch now (drop_lease t)) {
  status = waiting;
  snapshot = snapshot;
  wait_kind = some timer;
  wake_at = some wake;
}

unfoldable pub wait_for_timer : Store → ℕ → Snapshot → ℕ → Option ℕ → ℕ → Store × Option Task
wait_for_timer s id snapshot wake lease now = elim (get_task s id) [
  | none ↦ (s, none)
  | some t ↦
      if not (status_eq t.status running)
      then (s, none)
      else let s' = update_task s id (runs_under lease) (waits_for_timer snapshot wake now) in
        if runs_under lease t
        then (append_audit s' t task_waiting, get_task s' id)
        else (s', get_task s' id)
]

abbrev pub waits_for_event : Snapshot → String → String → Option ℕ → ℕ → Task → Task
waits_for_event snapshot topic key deadline now t = record (touch now (drop_lease t)) {
  status = waiting;
  snapshot = snapshot;
  wait_kind = some event;
  wait_topic = some topic;
  wait_key = some key;
  wake_at = deadline;
}

unfoldable pub wait_for_event :
    Store → ℕ → Snapshot → String → String → Option ℕ → Option ℕ → ℕ → Store × Option Task
wait_for_event s id snapshot topic key deadline lease now = elim (get_task s id) [
  | none ↦ (s, none)
  | some t ↦
      if not (status_eq t.status running)
      then (s, none)
      else let s' =
          update_task s id (runs_under lease) (waits_for_event snapshot topic key deadline now) in
        if runs_under lease t
        then (append_audit s' t task_waiting, get_task s' id)
        else (s', get_task s' id)
]

abbrev pub completed : Snapshot → Json → ℕ → Task → Task
completed snapshot result now t = record (touch now (drop_lease t)) {
  status = succeeded;
  snapshot = snapshot;
  result = some result;
  wait_kind = none;
  wait_topic = none;
  wait_key = none;
  wake_at = none;
  completed_at = some now;
}

unfoldable pub complete_task : Store → ℕ → Snapshot → Json → Option ℕ → ℕ → Store × Option Task
complete_task s id snapshot result lease now = elim (get_task s id) [
  | none ↦ (s, none)
  | some t ↦
      if not (status_eq t.status running)
      then (s, none)
      else let s' = update_task s id (runs_under lease) (completed snapshot result now) in
        if not (runs_under lease t)
        then (s', get_task s' id)
        else let s'' = reconcile (append_audit s' t task_succeeded) t.goal_id now in
          (s'', get_task s'' id)
]

abbrev pub can_retry : Bool → Task → Bool
can_retry retryable t = retryable && ltb (t.failure_count + 1) t.max_attempts

-- `Math.min(30_000, 500 * 2 ** Math.max(0, task.attempt - 1))`
abbrev pub backoff : Bool → Task → ℕ
backoff true t = min 30000 (500 * 2 ^ (t.attempt - 1))
backoff false t = 0

abbrev pub failure : Bool → String → ℕ → Task → Task
failure retry error now t = record (touch now (drop_lease t)) {
  status = if retry then ready else failed;
  wait_kind = none;
  wait_topic = none;
  wait_key = none;
  wake_at = none;
  next_run_at = now + backoff retry t;
  last_error = some error;
  failure_count = t.failure_count + 1;
  completed_at = if retry then none else some now;
}

-- `leaseToken && task.lease_token !== leaseToken`
abbrev pub fenced : Option ℕ → Task → Bool
fenced lease t = is_some lease && not (same t.lease_token lease)

unfoldable pub fail_task : Store → ℕ → String → Bool → Option ℕ → ℕ → Store × Option Task
fail_task s id error retryable lease now = elim (get_task s id) [
  | none ↦ (s, none)
  | some t ↦
      if fenced lease t
      then (s, some t)
      else let retry = can_retry retryable t in
        let s' = update_task s id (λ _. true) (failure retry error now) in
        let s'' =
          if retry
          then append_audit s' t task_retry_scheduled
          else reconcile (append_audit s' t task_failed) t.goal_id now in
        (s'', get_task s'' id)
]

unfoldable pub renew_lease : Store → ℕ → Option ℕ → ℕ → ℕ → Store × Bool
renew_lease s id lease lease_ms now = (
  update_task s id holds
      (λ t. record t { lease_expires_at = some (now + lease_ms); updated_at = now }),
  elim (get_task s id) [ none ↦ false | some t ↦ holds t ],
)
  where
    holds : Task → Bool
    holds t = status_eq t.status running && sql_eq t.lease_token lease

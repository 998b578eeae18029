-- ===== src/Scheduler/Quantum.antt =====
-- src/runtime/scheduler.js: runTask. The timers that renew the lease and that abort at the deadline
-- act while the turn waits; they are part of what the turn's moments hold.
use asynchronnous_agent_os.Prelude.{
  ℕ, Bool, true, false, ◌&&◌, not, String, Option, none, some, if◌then◌else◌, keep, ◌==◌,
}
use Prim.Native.String.{◌++◌}
use asynchronnous_agent_os.Domain.{status_eq, running}
use asynchronnous_agent_os.Domain.Goal.{GoalStatus, is_final}
use asynchronnous_agent_os.Json.{text, object, field, no_fields}
use asynchronnous_agent_os.Store.{Store, Task, Goal, get_task, get_goal, task_key, goal_key}
use asynchronnous_agent_os.Lifecycle.Turn.{fail_task}
use asynchronnous_agent_os.Lifecycle.Control.{
  cancel_running_task, pause_running_task, preempt_running_task,
}
use asynchronnous_agent_os.Events.{Publication, Surroundings, publish_event}
use asynchronnous_agent_os.Claims.{release_resource_claims}
use asynchronnous_agent_os.Workflow.Types.{Job, Moment, Outcome, returns, raises}
use asynchronnous_agent_os.Workflow.Turn.{execute_turn}
use asynchronnous_agent_os.Scheduler.Drain.{Runtime}

-- The `code` of an error.
pub data ErrorCode : Type 0 where
  resource_limit capability_denied other : ErrorCode

abbrev pub is_limit : ErrorCode → Bool
is_limit resource_limit = true
is_limit _ = false

abbrev pub is_limit_or_denial : ErrorCode → Bool
is_limit_or_denial other = false
is_limit_or_denial _ = true

-- The end of a turn: the clock, whether the signal was aborted, the code of the error that the turn
-- threw, and the surroundings of a publication.
pub record Ending : Type 0 where
  pub now : ℕ
  pub aborted : Bool
  pub code : ErrorCode
  pub publication : Surroundings

module _ (j : Job) (e : Ending) where
  abbrev lease : Option ℕ
  lease = some j.lease_token

  -- The signal was aborted, and the task still runs: `t` is the row that is read.
  unfoldable pub interrupted : Store → Task → String → Store
  interrupted s t message =
      if t.cancel_requested
      then (cancel_running_task s j.id t.snapshot lease e.now).0
      else if t.pause_requested
      then (pause_running_task s j.id t.snapshot lease e.now).0
      else if t.preempt_requested
      then (preempt_running_task s j.id t.snapshot lease e.now).0
      else (fail_task s j.id message (not (is_limit e.code)) lease e.now).0

  -- `catch (error)`
  unfoldable pub caught : Store → String → Store
  caught s message = elim (get_task s j.id) [
    | none ↦ (fail_task s j.id message (not (is_limit_or_denial e.code)) lease e.now).0
    | some t ↦
        if e.aborted && status_eq t.status running
        then interrupted s t message
        else (fail_task s j.id message (not (is_limit_or_denial e.code)) lease e.now).0
  ]

  unfoldable pub concluded : Store × Outcome → Store
  concluded (s, returns t) = s
  concluded (s, raises message) = caught s message

  abbrev status_text : GoalStatus → String
  status_text GoalStatus.active = "ACTIVE"
  status_text GoalStatus.succeeded = "SUCCEEDED"
  status_text GoalStatus.failed = "FAILED"
  status_text GoalStatus.cancelled = "CANCELLED"

  abbrev pub completion : Goal → Publication
  completion g = record {
    topic = "goal.completed";
    correlation_key = j.text_of g.id;
    payload = object (
        field "goalId" (text (j.text_of g.id))
          (field "status" (text (status_text g.status)) no_fields));
    source = "scheduler";
    idempotency_key = some ("goal-terminal:" ++ j.text_of g.id ++ ":" ++ status_text g.status);
    tenant_id = some g.tenant_id;
    agent_id = some g.agent_id;
    nonce = none;
    authenticated = true;
    auth_subject = some "kernel:scheduler";
    decision = none;
    claimed_status = none;
  }

  unfoldable pub announce : Store → Store
  announce s = elim (get_goal s j.goal_id) [
    | none ↦ s
    | some g ↦ if is_final g.status then (publish_event e.publication s (completion g)).0 else s
  ]

  -- The quantum: the turn, what becomes of an error, and `finally`.
  unfoldable pub run_task : (ℕ → Moment) → Runtime → Runtime
  run_task moments k =
      let s = concluded (execute_turn j moments k.store) in
      record {
        store = announce s;
        claims = (release_resource_claims k.claims j.id e.now).0;
        active = keep (λ id. not (id == j.id)) k.active;
      }

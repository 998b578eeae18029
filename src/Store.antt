-- ===== src/Store.antt =====
-- src/infra/store.js: the rows of the tables `tasks`, `goals`, `events`, `event_deliveries` and
-- `audit_log`, and the access by key. Row keys, lease tokens and owners are UUID texts that the code
-- only compares: they are numbers here. Columns that no modelled operation reads or writes (title,
-- kind, workflow, session) are left out, and so are the texts and details of audit rows.
pub mod Sample
use asynchronnous_agent_os.Prelude.{
  ℕ, Bool, ◌&&◌, ◌||◌, not, String, List, ◌∷◌, Option, none, some, is_some, sql_eq,
}
use asynchronnous_agent_os.Domain.{TaskStatus, WaitKind, status_eq, running}
use asynchronnous_agent_os.Domain.Goal.{GoalStatus}
use asynchronnous_agent_os.Json.{Json, Items, Fields}
use asynchronnous_agent_os.Table.{Keyed, find, update}

pub record PendingEvent : Type 0 where
  pub id : ℕ
  pub topic : String
  pub correlation_key : String
  pub payload : Json
  pub created_at : ℕ

pub record Snapshot : Type 0 where
  pub pc : ℕ
  pub variables : Fields
  pub checkpoints : Items
  pub pending_event : Option PendingEvent
  pub action_states : Fields

pub record Task : Type 0 where
  pub id : ℕ
  pub goal_id : ℕ
  pub status : TaskStatus
  pub priority : ℕ
  pub snapshot : Snapshot
  pub result : Option Json
  pub depends_on : List ℕ
  pub wait_kind : Option WaitKind
  pub wait_topic : Option String
  pub wait_key : Option String
  pub wake_at : Option ℕ
  pub lease_owner : Option ℕ
  pub lease_token : Option ℕ
  pub lease_expires_at : Option ℕ
  pub attempt : ℕ
  pub failure_count : ℕ
  pub max_attempts : ℕ
  pub next_run_at : ℕ
  pub last_error : Option String
  pub revision : ℕ
  pub pause_requested : Bool
  pub cancel_requested : Bool
  pub paused_from_status : Option TaskStatus
  pub preempt_requested : Bool
  pub preempt_reason : Option String
  pub preempted_by : Option ℕ
  pub preemption_count : ℕ
  pub created_at : ℕ
  pub updated_at : ℕ
  pub completed_at : Option ℕ

pub record Goal : Type 0 where
  pub id : ℕ
  pub status : GoalStatus
  pub tenant_id : String
  pub agent_id : String
  pub updated_at : ℕ
  pub completed_at : Option ℕ

pub record Event : Type 0 where
  pub id : ℕ
  pub topic : String
  pub correlation_key : String
  pub payload : Json
  pub source : String
  pub idempotency_key : Option String
  pub tenant_id : Option String
  pub agent_id : Option String
  pub nonce : Option String
  pub authenticated : Bool
  pub auth_subject : Option String
  pub created_at : ℕ

pub record Delivery : Type 0 where
  pub event_id : ℕ
  pub task_id : ℕ

pub data AuditType : Type 0 where
  task_created task_running checkpoint_saved task_yielded task_resource_deferred : AuditType
  task_waiting task_succeeded task_retry_scheduled task_failed event_received : AuditType
  lease_expired preempt_requested task_preempted pause_requested task_paused : AuditType
  task_resumed cancel_requested task_cancelled timer_fired dependencies_resolved : AuditType
  goal_succeeded goal_failed task_recovered task_priority_revised : AuditType
  step_recorded action_completed event_consumed cognitive_notice_injected : AuditType

pub record Audit : Type 0 where
  pub goal_id : ℕ
  pub task_id : Option ℕ
  pub type : AuditType

-- The rows of each table stand in the order of insertion, those of the audit log newest first.
pub record Store : Type 0 where
  pub tasks : List Task
  pub goals : List Goal
  pub events : List Event
  pub deliveries : List Delivery
  pub audit : List Audit

instance abbrev pub task_key : Keyed Task
task_key = record { key = λ t. t.id }

instance abbrev pub goal_key : Keyed Goal
goal_key = record { key = λ g. g.id }

abbrev pub get_task : Store → ℕ → Option Task
get_task s id = find id s.tasks

abbrev pub get_goal : Store → ℕ → Option Goal
get_goal s id = find id s.goals

-- `appendAudit` on behalf of a task.
abbrev pub append_audit : Store → Task → AuditType → Store
append_audit s t type = record s {
  audit = record { goal_id = t.goal_id; task_id = some t.id; type = type } ∷ s.audit;
}

-- `UPDATE tasks SET ... WHERE id = ? AND ...`
abbrev pub update_task : Store → ℕ → (Task → Bool) → (Task → Task) → Store
update_task s id test write = record s { tasks = update id test write s.tasks }

-- `? IS NULL OR lease_token = ?`
abbrev pub unfenced : Option ℕ → Task → Bool
unfenced lease t = not (is_some lease) || sql_eq t.lease_token lease

-- `status = 'RUNNING' AND (? IS NULL OR lease_token = ?)`
abbrev pub runs_under : Option ℕ → Task → Bool
runs_under lease t = status_eq t.status running && unfenced lease t

-- `lease_owner = NULL, lease_token = NULL, lease_expires_at = NULL`
abbrev pub drop_lease : Task → Task
drop_lease t = record t { lease_owner = none; lease_token = none; lease_expires_at = none }

-- `revision = revision + 1, updated_at = ?`
abbrev pub touch : ℕ → Task → Task
touch now t = record t { revision = Prim.Native.Nat.suc t.revision; updated_at = now }

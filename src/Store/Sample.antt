-- ===== src/Store/Sample.antt =====
-- Rows of `tasks` and `goals` for the examples.
use asynchronnous_agent_os.Prelude.{ℕ, String, false, none, [], ◌∷◌}
use asynchronnous_agent_os.Domain.{ready}
use asynchronnous_agent_os.Domain.Goal.{GoalStatus}
use asynchronnous_agent_os.Json.{no_items, no_fields}
use asynchronnous_agent_os.Store.{Store, Task, Goal, Snapshot}

abbrev pub start : Snapshot
start = record {
  pc = 0;
  variables = no_fields;
  checkpoints = no_items;
  pending_event = none;
  action_states = no_fields;
}

-- A ready task of goal 7, as `createGoalWithTasks` inserts it.
abbrev pub fresh : ℕ → Task
fresh id = record {
  id = id;
  goal_id = 7;
  status = ready;
  priority = 50;
  snapshot = start;
  result = none;
  depends_on = [];
  wait_kind = none;
  wait_topic = none;
  wait_key = none;
  wake_at = none;
  lease_owner = none;
  lease_token = none;
  lease_expires_at = none;
  attempt = 0;
  failure_count = 0;
  max_attempts = 3;
  next_run_at = 100;
  last_error = none;
  revision = 0;
  pause_requested = false;
  cancel_requested = false;
  paused_from_status = none;
  preempt_requested = false;
  preempt_reason = none;
  preempted_by = none;
  preemption_count = 0;
  created_at = 100;
  updated_at = 100;
  completed_at = none;
}

abbrev pub goal_of_tenant : ℕ → String → Goal
goal_of_tenant id tenant = record {
  id = id;
  status = GoalStatus.active;
  tenant_id = tenant;
  agent_id = "agent";
  updated_at = 100;
  completed_at = none;
}

-- One goal with one ready task.
abbrev pub one_task : Store
one_task = record {
  tasks = fresh 1 ∷ [];
  goals = goal_of_tenant 7 "default" ∷ [];
  events = [];
  deliveries = [];
  audit = [];
}

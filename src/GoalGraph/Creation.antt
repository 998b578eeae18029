-- ===== src/GoalGraph/Creation.antt =====
-- src/infra/store.js, createGoalWithTasks: the transaction that inserts the rows of a goal. The
-- defaults of the input are filled in by the caller; the bounds on texts, the plan's version, the
-- assumptions and the audit rows are left out. The transaction is rolled back where the code throws.
use asynchronnous_agent_os.Prelude.{
  ℕ, Bool, true, false, ◌&&◌, ◌||◌, not, List, [], ◌∷◌, ◌++◌, Option, none, some, str_eq, ltb, leb,
  same, if◌then◌else◌, length, keep, map,
}
use asynchronnous_agent_os.Domain.{ready, blocked}
use asynchronnous_agent_os.Domain.Goal.{GoalStatus}
use asynchronnous_agent_os.Table.{find}
use asynchronnous_agent_os.Store.{Store, Task, Goal, Snapshot, task_key, goal_key}
use asynchronnous_agent_os.Usage.Books.{Books, Contract, contract_key, get_goal_contract, used}
use asynchronnous_agent_os.Usage.Ledger.{open_contract}
use asynchronnous_agent_os.GoalGraph.{TaskInput, Refusal, check_tasks}

pub record NewTask : Type 0 where
  pub id : ℕ
  pub depends_on : List ℕ
  pub priority : ℕ
  pub max_attempts : ℕ
  pub snapshot : Snapshot

-- The contract holds the goal's id, its owner and its parent.
pub record NewGoal : Type 0 where
  pub contract : Contract
  pub spawn_depth : ℕ
  pub tasks : List NewTask

pub data CreationError : Type 0 where
  refused : Refusal → CreationError
  missing_parent other_owner fan_out_exhausted too_deep goal_in_use bad_task : CreationError

pub data Creation : Type 0 where
  made : Store → Books → Creation
  fails : CreationError → Creation

abbrev pub input_of : NewTask → TaskInput
input_of t = record { id = t.id; depends_on = t.depends_on }

abbrev pub children : Books → ℕ → ℕ
children b parent = length (keep (λ c. same c.parent_goal_id (some parent)) b.contracts)

-- The checks of a goal with a parent.
unfoldable pub check_parent : Books → NewGoal → Option CreationError
check_parent b g = elim g.contract.parent_goal_id [
  | none ↦ none
  | some id ↦ elim (get_goal_contract b id) [
    | none ↦ some missing_parent
    | some parent ↦
        if not (
          str_eq parent.agent_id g.contract.agent_id
          && str_eq parent.tenant_id g.contract.tenant_id)
        then some other_owner
        else if leb (used "maxFanOut" parent.budget) (children b id)
        then some fan_out_exhausted
        else if ltb g.spawn_depth 1 || ltb (used "maxDepth" parent.budget) g.spawn_depth
        then some too_deep
        else none
  ]
]

abbrev pub has_dependencies : List ℕ → Bool
has_dependencies [] = false
has_dependencies (d ∷ deps) = true

abbrev pub task_of : ℕ → ℕ → NewTask → Task
task_of goal now t = record {
  id = t.id;
  goal_id = goal;
  status = if has_dependencies t.depends_on then blocked else ready;
  priority = t.priority;
  snapshot = t.snapshot;
  result = none;
  depends_on = t.depends_on;
  wait_kind = none;
  wait_topic = none;
  wait_key = none;
  wake_at = none;
  lease_owner = none;
  lease_token = none;
  lease_expires_at = none;
  attempt = 0;
  failure_count = 0;
  max_attempts = t.max_attempts;
  next_run_at = now;
  last_error = none;
  revision = 0;
  pause_requested = false;
  cancel_requested = false;
  paused_from_status = none;
  preempt_requested = false;
  preempt_reason = none;
  preempted_by = none;
  preemption_count = 0;
  created_at = now;
  updated_at = now;
  completed_at = none;
}

-- `INSERT INTO tasks`, one by one: `none` where a check fails or the id is in use.
unfoldable pub insert_tasks : ℕ → ℕ → List Task → List NewTask → Option (List Task)
insert_tasks goal now rows [] = some rows
insert_tasks goal now rows (t ∷ tasks) =
    let rest = insert_tasks goal now (rows ++ (task_of goal now t ∷ [])) tasks in
    if ltb 100 t.priority || (ltb t.max_attempts 1 || ltb 100 t.max_attempts)
    then none
    else elim (find t.id rows) [ some r ↦ none | none ↦ rest ]

abbrev pub goal_of : Contract → ℕ → Goal
goal_of c now = record {
  id = c.goal_id;
  status = GoalStatus.active;
  tenant_id = c.tenant_id;
  agent_id = c.agent_id;
  updated_at = now;
  completed_at = none;
}

unfoldable pub insert_rows : Store → Books → NewGoal → ℕ → Creation
insert_rows s b g now = elim (find g.contract.goal_id s.goals) [
  | some other ↦ fails goal_in_use
  | none ↦ elim (insert_tasks g.contract.goal_id now s.tasks g.tasks) [
    | none ↦ fails bad_task
    | some tasks ↦ elim (open_contract b g.contract) [
      | none ↦ fails goal_in_use
      | some b' ↦
          made (record s { tasks = tasks; goals = s.goals ++ (goal_of g.contract now ∷ []) }) b'
    ]
  ]
]

unfoldable pub create_goal_with_tasks : Store → Books → NewGoal → ℕ → Creation
create_goal_with_tasks s b g now = elim (check_tasks (map input_of g.tasks)) [
  | some e ↦ fails (refused e)
  | none ↦ elim (check_parent b g) [ some e ↦ fails e | none ↦ insert_rows s b g now ]
]

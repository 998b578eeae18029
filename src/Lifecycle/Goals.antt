-- ===== src/Lifecycle/Goals.antt =====
-- src/infra/store.js: reconcileBlocked and reconcileGoal. Each takes one reading of the clock.
use asynchronnous_agent_os.Prelude.{
  ℕ, Bool, true, ◌&&◌, ◌||◌, not, List, [], ◌∷◌, none, some, ◌==◌, if◌then◌else◌, keep, all, any,
  length,
}
use asynchronnous_agent_os.Domain.{
  status_eq, is_terminal, ready, blocked, succeeded, failed, cancelled,
}
use asynchronnous_agent_os.Domain.Goal.{GoalStatus}
use asynchronnous_agent_os.Table.{update, each}
use asynchronnous_agent_os.Store.{
  Task, Goal, Store, AuditType, task_failed, dependencies_resolved, goal_succeeded, goal_failed,
  get_task, append_audit, update_task, goal_key, task_key,
}

-- `task.dependsOn.map((id) => this.getTask(id)).filter(Boolean)`
abbrev pub get_tasks : Store → List ℕ → List Task
get_tasks s [] = []
get_tasks s (i ∷ ids) = elim (get_task s i) [
  | none ↦ get_tasks s ids
  | some t ↦ t ∷ get_tasks s ids
]

abbrev pub is_lost : Task → Bool
is_lost t = status_eq t.status failed || status_eq t.status cancelled

abbrev pub is_done : Task → Bool
is_done t = status_eq t.status succeeded

abbrev pub has_failed : Store → Task → Bool
has_failed s t = any is_lost (get_tasks s t.depends_on)

abbrev pub all_succeeded : Store → Task → Bool
all_succeeded s t =
    length (get_tasks s t.depends_on) == length t.depends_on
    && all is_done (get_tasks s t.depends_on)

abbrev pub upstream_failed : ℕ → Task → Task
upstream_failed now t = record t {
  status = failed;
  last_error = some "An upstream dependency failed";
  updated_at = now;
  completed_at = some now;
}

abbrev pub unblocked : ℕ → Task → Task
unblocked now t = record t { status = ready; next_run_at = now; updated_at = now }

-- The body of the loop of `reconcileBlocked`, for one row that was read before the loop.
unfoldable pub reconcile_one : ℕ → Store → Task → Store
reconcile_one now s t =
    if has_failed s t
    then append_audit (update_task s t.id (λ _. true) (upstream_failed now)) t task_failed
    else if all_succeeded s t
    then append_audit (update_task s t.id (λ _. true) (unblocked now)) t dependencies_resolved
    else s

abbrev pub is_blocked_in : ℕ → Task → Bool
is_blocked_in goal t = t.goal_id == goal && status_eq t.status blocked

-- The SELECT has no ORDER BY: the rows are taken in the order of the table.
unfoldable pub reconcile_blocked : Store → ℕ → ℕ → Store
unfolding each
reconcile_blocked s goal now = each (reconcile_one now) s (keep (is_blocked_in goal) s.tasks)

abbrev pub tasks_of : Store → ℕ → List Task
tasks_of s goal = keep (λ t. t.goal_id == goal) s.tasks

abbrev pub goal_ended : GoalStatus → ℕ → Goal → Goal
goal_ended status now g = record g { status = status; updated_at = now; completed_at = some now }

abbrev pub end_goal : Store → ℕ → ℕ → GoalStatus → AuditType → Store
end_goal s goal now status type = record s {
  goals = update goal (λ _. true) (goal_ended status now) s.goals;
  audit = record { goal_id = goal; task_id = none; type = type } ∷ s.audit;
}

abbrev pub settle_goal : Store → ℕ → ℕ → List Task → Store
settle_goal s goal now [] = s
settle_goal s goal now (t ∷ rows) =
    if not (all (λ r. is_terminal r.status) (t ∷ rows))
    then s
    else if all is_done (t ∷ rows)
    then end_goal s goal now GoalStatus.succeeded goal_succeeded
    else end_goal s goal now GoalStatus.failed goal_failed

-- `listTasks` sorts the rows; the tests on them do not depend on their order.
unfoldable pub reconcile_goal : Store → ℕ → ℕ → Store
reconcile_goal s goal now = settle_goal s goal now (tasks_of s goal)

-- The two calls that follow every final status of a task.
unfoldable pub reconcile : Store → ℕ → ℕ → Store
reconcile s goal now = reconcile_goal (reconcile_blocked s goal now) goal now

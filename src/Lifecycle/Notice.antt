-- ===== src/Lifecycle/Notice.antt =====
-- src/infra/store.js, injectCognitiveNotice and purgeSession: what other parts of the program do to
-- the tasks of a goal, and to all goals of a session.
use asynchronnous_agent_os.Prelude.{
  ℕ, Bool, true, false, ◌&&◌, ◌||◌, not, List, ◌∷◌, Option, none, some, ◌==◌, keep, any,
  if◌then◌else◌,
}
use asynchronnous_agent_os.Domain.{status_eq, is_terminal, running}
use asynchronnous_agent_os.Domain.Goal.{GoalStatus}
use asynchronnous_agent_os.Table.{each}
use asynchronnous_agent_os.Store.{
  Store, Task, Goal, Delivery, Snapshot, update_task, task_key, cognitive_notice_injected,
}
use asynchronnous_agent_os.Lifecycle.Goals.{tasks_of}
use asynchronnous_agent_os.Lifecycle.Turn.{checkpointed}

-- `status NOT IN ('RUNNING', 'SUCCEEDED', 'FAILED', 'CANCELLED')`
abbrev pub is_resumable : Task → Bool
is_resumable t = not (status_eq t.status running || is_terminal t.status)

-- `notice` puts the notice into a snapshot; it is none for a snapshot that has the notice already.
unfoldable pub notify : (Snapshot → Option Snapshot) → ℕ → Store → Task → Store
notify notice now s t = elim (notice t.snapshot) [
  | none ↦ s
  | some snapshot ↦ update_task s t.id is_resumable (checkpointed snapshot now)
]

unfoldable pub inject_cognitive_notice : (Snapshot → Option Snapshot) → Store → ℕ → ℕ → Store
unfolding each
inject_cognitive_notice notice s goal now =
    let s' = each (notify notice now) s (keep is_resumable (tasks_of s goal)) in
    record s' {
      audit =
          record { goal_id = goal; task_id = none; type = cognitive_notice_injected } ∷ s'.audit;
    }

abbrev pub is_active : GoalStatus → Bool
is_active GoalStatus.active = true
is_active _ = false

-- The goal that the row belongs to is one of the session.
abbrev pub of_session : (Goal → Bool) → Store → ℕ → Bool
of_session in_session s goal = any (λ g. g.id == goal && in_session g) s.goals

-- A delivery goes with its task.
abbrev pub delivered_to : List Task → Delivery → Bool
delivered_to tasks d = any (λ t. t.id == d.task_id) tasks

-- `in_session` tells whether the goal's column `session_id` names the session. None where the code
-- throws, at a session with an active goal. The rows of tasks, deliveries and the audit log that
-- belong to a deleted goal go with it (`ON DELETE CASCADE`).
unfoldable pub purge_session : (Goal → Bool) → Store → Option Store
purge_session in_session s =
    if any (λ g. in_session g && is_active g.status) s.goals
    then none
    else some (record s {
      goals = keep (λ g. not (in_session g)) s.goals;
      tasks = keep (λ t. not (of_session in_session s t.goal_id)) s.tasks;
      deliveries =
          keep (λ d. not (delivered_to (keep (λ t. of_session in_session s t.goal_id) s.tasks) d))
            s.deliveries;
      audit = keep (λ a. not (of_session in_session s a.goal_id)) s.audit;
    })

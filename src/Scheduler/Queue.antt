-- ===== src/Scheduler/Queue.antt =====
-- src/infra/store.js, getReadyTasks. The deadlines of goals are an argument: the column
-- `deadline_at` of the goal, if there is one. Rows that tie stand in the order of the table.
use asynchronnous_agent_os.Prelude.{
  ℕ, ◌+◌, ◌-◌, ◌/◌, min, Bool, true, false, ◌&&◌, List, [], ◌∷◌, Option, none, some, ltb, leb,
  if◌then◌else◌, keep, is_some,
}
use asynchronnous_agent_os.Domain.{status_eq, ready}
use asynchronnous_agent_os.Store.{Store, Task, get_goal, goal_key}
use asynchronnous_agent_os.Usage.Quota.{take}

abbrev pub urgency : Option ℕ → ℕ → ℕ
urgency none now = 0
urgency (some deadline) now = if leb deadline now then 500 else 120 - (deadline - now) / 30000

abbrev pub score : (ℕ → Option ℕ) → ℕ → Task → ℕ
score deadline now t =
    t.priority + min 30 ((now - t.next_run_at) / 1000) + urgency (deadline t.goal_id) now

-- `deadline_at IS NULL, deadline_at ASC`: a goal with a deadline is first.
abbrev pub sooner : Option ℕ → Option ℕ → Bool
sooner none b = false
sooner (some a) none = true
sooner (some a) (some b) = ltb a b

-- The first row stands strictly before the second in the order of the query.
unfoldable pub precedes : (ℕ → Option ℕ) → ℕ → Task → Task → Bool
precedes deadline now t u =
    let a = score deadline now t in
    let b = score deadline now u in
    if ltb b a
    then true
    else if ltb a b
    then false
    else if sooner (deadline t.goal_id) (deadline u.goal_id)
    then true
    else if sooner (deadline u.goal_id) (deadline t.goal_id)
    then false
    else if ltb t.next_run_at u.next_run_at
    then true
    else if ltb u.next_run_at t.next_run_at
    then false
    else ltb t.created_at u.created_at

unfoldable pub place : (Task → Task → Bool) → Task → List Task → List Task
place before t [] = t ∷ []
place before t (u ∷ us) =
    let rest = place before t us in if before u t then u ∷ rest else t ∷ u ∷ us

unfoldable pub sort : (Task → Task → Bool) → List Task → List Task
sort before [] = []
sort before (t ∷ ts) = place before t (sort before ts)

-- The join drops a task without a goal.
abbrev pub is_candidate : Store → ℕ → Task → Bool
is_candidate s now t =
    status_eq t.status ready && (leb t.next_run_at now && is_some (get_goal s t.goal_id))

unfoldable pub get_ready_tasks : Store → (ℕ → Option ℕ) → ℕ → ℕ → List Task
get_ready_tasks s deadline limit now =
    take limit (sort (precedes deadline now) (keep (is_candidate s now) s.tasks))

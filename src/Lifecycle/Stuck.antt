-- ===== src/Lifecycle/Stuck.antt =====
-- A goal that the reconciliation leaves open behind a failed task.
use asynchronnous_agent_os.Prelude.{
  ℕ, ◌≡◌, ◌≢◌, refl, true, false, List, [], ◌∷◌, some, arith, keep, all, ◌==◌, ==_refl, All,
}
use asynchronnous_agent_os.Domain.{is_terminal, blocked, failed}
use asynchronnous_agent_os.Table.{find, each, Distinct}
use asynchronnous_agent_os.Table.Laws.{find-update}
use asynchronnous_agent_os.Table.Keys.{Picked, All-Stands, All-Picked, Distinct-keep}
use asynchronnous_agent_os.Store.{
  Store, Task, task_key, get_task, append_audit, update_task, task_failed,
}
use asynchronnous_agent_os.Lifecycle.Goals.{
  upstream_failed, reconcile_one, is_blocked_in, reconcile_blocked, tasks_of, settle_goal,
  reconcile_goal, reconcile,
}

-- A goal with a failed task and two blocked ones: the last of the chain of dependencies stands before
-- the middle one. Other tasks, of this goal or another, may stand anywhere.
pub record Chain (s : Store) (goal : ℕ) (root last middle : Task) : Type 0 where
  pub distinct : Distinct s.tasks
  pub selected : keep (is_blocked_in goal) s.tasks ≡ last ∷ middle ∷ []
  pub found_root : get_task s root.id ≡ some root
  pub root_failed : root.status ≡ failed
  pub last_needs : last.depends_on ≡ middle.id ∷ []
  pub middle_needs : middle.depends_on ≡ root.id ∷ []

-- A task of the goal that has not ended keeps the goal open.
some_open :
    (goal i : ℕ) (t : Task) (ts : List Task)
    → find i ts ≡ some t
    → (t.goal_id == goal) ≡ true
    → is_terminal t.status ≡ false
    → all (λ r. is_terminal r.status) (keep (λ r. r.goal_id == goal) ts) ≡ false
unfolding find
some_open goal i t [] e own live = ground arith
some_open goal i t (x ∷ ts) e own live = ground (arith, some_open goal i t ts)

settle_goal-open :
    (s : Store) (goal now : ℕ) (rows : List Task)
    → all (λ r. is_terminal r.status) rows ≡ false
    → settle_goal s goal now rows ≡ s
settle_goal-open s goal now [] e = refl
settle_goal-open s goal now (t ∷ rows) e = ground arith

module _ (s : Store) (goal now : ℕ) (root last middle : Task)
    (c : Chain s goal root last middle) where
  abbrev Taken : List Task → Type 0
  Taken = All (Picked (is_blocked_in goal) s.tasks)

  both : Taken (last ∷ middle ∷ [])
  both =
      rw (c.selected) at
        (All-Picked (is_blocked_in goal) s.tasks s.tasks (All-Stands s.tasks c.distinct))

  apart : middle.id ≢ last.id
  unfolding find
  apart =
      let d : Distinct (last ∷ middle ∷ []) =
        rw (c.selected) at (Distinct-keep (is_blocked_in goal) s.tasks c.distinct) in
      let e = d.0 in ground arith

  blocked_middle : middle.status ≡ blocked
  blocked_middle = let e = both.1.0.1 in ground arith

  last_waits : reconcile_one now s last ≡ s
  unfolding reconcile_one
  last_waits =
      let e = c.last_needs in
      let f = both.1.0.0 in let b = blocked_middle in ground (arith, e, f, b)

  abbrev after : Store
  after =
      append_audit (update_task s middle.id (λ _. true) (upstream_failed now)) middle task_failed

  middle_fails : reconcile_one now s middle ≡ after
  unfolding reconcile_one
  middle_fails =
      let e = c.middle_needs in
      let f = c.found_root in let b = c.root_failed in ground (arith, e, f, b)

  blocked-after : reconcile_blocked s goal now ≡ after
  unfolding reconcile_blocked each
  blocked-after = rw (c.selected) (rw last_waits middle_fails)

  last-after : get_task after last.id ≡ some last
  last-after =
      let ne = apart in
      let f = both.0.0 in
      ground (
        arith,
        ne,
        f,
        find-update middle.id last.id (λ _. true) (upstream_failed now) (λ x. refl) s.tasks,
      )

  middle-after : get_task after middle.id ≡ some (upstream_failed now middle)
  middle-after =
      let f = both.1.0.0 in
      ground (
        arith,
        f,
        ==_refl middle.id,
        find-update middle.id middle.id (λ _. true) (upstream_failed now) (λ x. refl) s.tasks,
      )

  goal-after : reconcile_goal after goal now ≡ after
  unfolding reconcile_goal
  goal-after =
      let e = both.0.1 in
      settle_goal-open after goal now (tasks_of after goal)
        (some_open goal last.id last after.tasks last-after (ground arith) (ground arith))

  -- Where a goal has a failed task, and its blocked tasks are two, of which the last of the chain of
  -- dependencies stands before the middle one, whatever other tasks there are, the reconciliation
  -- fails the middle task; the last one stays blocked, though it depends on a failed task, and no
  -- goal is ended.
  pub reconcile_stuck :
      (get_task (reconcile s goal now) last.id ≡ some last)
      × (last.status ≡ blocked)
      × ((m : Task) × (get_task (reconcile s goal now) middle.id ≡ some m) × (m.status ≡ failed))
      × ((reconcile s goal now).goals ≡ s.goals)
  unfolding reconcile
  reconcile_stuck =
      let e = both.0.1 in
      (
        rw (blocked-after, goal-after) last-after,
        ground arith,
        (upstream_failed now middle, rw (blocked-after, goal-after) middle-after, refl),
        rw (blocked-after, goal-after),
      )

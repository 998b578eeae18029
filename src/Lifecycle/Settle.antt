-- ===== src/Lifecycle/Settle.antt =====
-- `reconcileBlocked` and `reconcileGoal` take rows to rows that they may become.
use asynchronnous_agent_os.Prelude.{ℕ, ◌≡◌, refl, ◌≢◌, Bool, true, List, ◌∷◌, some, arith}
use asynchronnous_agent_os.Domain.{status_eq, blocked}
use asynchronnous_agent_os.Table.{find, update}
use asynchronnous_agent_os.Table.Laws.{Rows, Rows-update, Rows-update_found, find-update}
use asynchronnous_agent_os.Table.Keys.{Stands}
use asynchronnous_agent_os.Table.Loops.{each-Rows}
use asynchronnous_agent_os.Store.{Store, Task, task_key}
use asynchronnous_agent_os.Lifecycle.Evolve.{
  Evolves, Evolves-refl, Evolves-trans, Grows, Grows-refl, Grows-trans, Grows-IsSound, IsSound,
}
use asynchronnous_agent_os.Lifecycle.Goals.{
  upstream_failed, unblocked, reconcile_one, is_blocked_in, reconcile_blocked, tasks_of,
  settle_goal, reconcile_goal, reconcile,
}

-- What an update does to the rows, given what it does to the row of its key.
pub update-Rows :
    (s : Store) (id : ℕ) (test : Task → Bool) (write : Task → Task)
    → ((t : Task) → test t ≡ true → Evolves t (write t))
    → Rows Evolves s.tasks (update id test write s.tasks)
update-Rows s id test write h = Rows-update Evolves Evolves-refl id test write h s.tasks

-- The same for the row that was read before.
pub update-Rows_read :
    (s : Store) (id : ℕ) (test : Task → Bool) (write : Task → Task) (t : Task)
    → find id s.tasks ≡ some t
    → Evolves t (write t)
    → Rows Evolves s.tasks (update id test write s.tasks)
update-Rows_read s id test write t e h =
    Rows-update_found Evolves Evolves-refl id test write s.tasks (λ a f _. same a f)
  where
    same : (a : Task) → find id s.tasks ≡ some a → Evolves a (write a)
    same a f = let p : a ≡ t = cc (e, f) in rw p h

pub update-Rows_found :
    (s : Store) (id : ℕ) (write : Task → Task) (t : Task)
    → find id s.tasks ≡ some t
    → Evolves t (write t)
    → Rows Evolves s.tasks (update id (λ _. true) write s.tasks)
update-Rows_found s id write t e h = update-Rows_read s id (λ _. true) write t e h

Evolves-upstream_failed :
    (now : ℕ) (t : Task) → status_eq t.status blocked ≡ true → Evolves t (upstream_failed now t)
Evolves-upstream_failed now t h = ground arith

Evolves-unblocked :
    (now : ℕ) (t : Task) → status_eq t.status blocked ≡ true → Evolves t (unblocked now t)
Evolves-unblocked now t h = ground arith

module _ (goal now : ℕ) where
  blocked_of : (t : Task) → is_blocked_in goal t ≡ true → status_eq t.status blocked ≡ true
  blocked_of t h = ground arith

  reconcile_one-Grows :
      (s : Store) (t : Task)
      → Stands s.tasks t
      → is_blocked_in goal t ≡ true
      → Grows s (reconcile_one now s t)
  unfolding reconcile_one
  reconcile_one-Grows s t e h = ground (
    arith,
    Grows-refl s,
    update-Rows_found s t.id (upstream_failed now) t e
        (Evolves-upstream_failed now t (blocked_of t h)),
    update-Rows_found s t.id (unblocked now) t e (Evolves-unblocked now t (blocked_of t h)),
  )

  pub reconcile_one-frame :
      (s : Store) (t r : Task)
      → Stands s.tasks t
      → is_blocked_in goal t ≡ true
      → r.id ≢ t.id
      → Stands s.tasks r
      → is_blocked_in goal r ≡ true
      → Stands (reconcile_one now s t).tasks r
  unfolding reconcile_one
  reconcile_one-frame s t r e h ne f g = ground (
    arith,
    find-update t.id r.id (λ _. true) (upstream_failed now) (λ _. refl) s.tasks,
    find-update t.id r.id (λ _. true) (unblocked now) (λ _. refl) s.tasks,
  )

  pub reconcile_blocked-Grows : (s : Store) → IsSound s → Grows s (reconcile_blocked s goal now)
  unfolding reconcile_blocked
  reconcile_blocked-Grows s h =
      (each-Rows (λ r. r.tasks) (reconcile_one now) Evolves Evolves-refl Evolves-trans
        (is_blocked_in goal) (λ _. Unit {0}) (λ r t _ _ _. tt) (λ r t _. reconcile_one-Grows r t)
        (λ r t u _. reconcile_one-frame r t u) s tt h.distinct).1

  settle_goal-tasks : (s : Store) (rows : List Task) → (settle_goal s goal now rows).tasks ≡ s.tasks
  settle_goal-tasks s List.[] = refl
  settle_goal-tasks s (t ∷ rows) = ground arith

  pub reconcile_goal-tasks : (s : Store) → (reconcile_goal s goal now).tasks ≡ s.tasks
  unfolding reconcile_goal
  reconcile_goal-tasks s = settle_goal-tasks s (tasks_of s goal)

  pub reconcile-Grows : (s : Store) → IsSound s → Grows s (reconcile s goal now)
  unfolding reconcile
  reconcile-Grows s h =
      rw (reconcile_goal-tasks (reconcile_blocked s goal now)) (reconcile_blocked-Grows s h)

-- A change of one row, and then the reconciliation of its goal.
pub reconcile_after :
    (s s' : Store) (goal now : ℕ) → IsSound s → Grows s s' → Grows s (reconcile s' goal now)
reconcile_after s s' goal now h g =
    Grows-trans s s' (reconcile s' goal now) g
      (reconcile-Grows goal now s' (Grows-IsSound s s' g h))

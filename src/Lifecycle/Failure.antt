-- ===== src/Lifecycle/Failure.antt =====
-- How a failure is recorded, retried and given up.
use mathlib.Core.Path.{subst}
use asynchronnous_agent_os.Prelude.{
  ℕ, ◌+◌, ◌≤◌, ◌<◌, ◌≡◌, refl, sym, ◌⊎◌, inl, inr, Bool, true, false, String, Option, none, some,
  arith, Bool-cases,
}
use asynchronnous_agent_os.Domain.{is_terminal, ready, failed}
use asynchronnous_agent_os.Table.{find}
use asynchronnous_agent_os.Table.Laws.{find-update, key-find}
use asynchronnous_agent_os.Store.{
  Store, Task, get_task, task_key, append_audit, update_task, task_failed,
}
use asynchronnous_agent_os.Lifecycle.Evolve.{IsSound, Grows, Grows-IsSound}
use asynchronnous_agent_os.Lifecycle.Settle.{update-Rows_found}
use asynchronnous_agent_os.Lifecycle.Writes.{Evolves-failure}
use asynchronnous_agent_os.Lifecycle.Goals.{reconcile}
use asynchronnous_agent_os.Lifecycle.Dependents.{reconcile-Stands}
use asynchronnous_agent_os.Lifecycle.Turn.{fail_task, failure, fenced, can_retry, backoff}

backoff-le : (retry : Bool) (t : Task) → backoff retry t ≤ 30000
backoff-le true t = omega arith
backoff-le false t = omega arith

retried :
    (retryable : Bool) (error : String) (now : ℕ) (t : Task)
    → can_retry retryable t ≡ true
    → ((failure (can_retry retryable t) error now t).status ≡ ready)
      × (retryable ≡ true)
      × (t.failure_count + 1 < t.max_attempts)
retried retryable error now t e = ground arith

given_up :
    (retryable : Bool) (error : String) (now : ℕ) (t : Task)
    → can_retry retryable t ≡ false
    → ((failure (can_retry retryable t) error now t).status ≡ failed)
      × ((failure (can_retry retryable t) error now t).completed_at ≡ some now)
      × ((retryable ≡ false) ⊎ (t.max_attempts ≤ t.failure_count + 1))
given_up retryable error now t e = ground arith

fail_task-returns :
    (s : Store) (id : ℕ) (error : String) (retryable : Bool) (lease : Option ℕ) (now : ℕ) (t : Task)
    → IsSound s
    → get_task s id ≡ some t
    → fenced lease t ≡ false
    → is_terminal t.status ≡ false
    → (fail_task s id error retryable lease now).1
      ≡ some (failure (can_retry retryable t) error now t)
unfolding fail_task
fail_task-returns s id error retryable lease now t h e held live =
    let u = failure (can_retry retryable t) error now t in
    let s' : Store =
      append_audit (update_task s id (λ _. true) (failure (can_retry retryable t) error now)) t
        task_failed in
    let g : Grows s s' =
      update-Rows_found s id (failure (can_retry retryable t) error now) t e
        (Evolves-failure retryable error now t (λ _. live)) in
    let key : t.id ≡ id = key-find id s.tasks t e in
    let written : find id s'.tasks ≡ some u = ground (
      arith,
      find-update id id (λ _. true) (failure (can_retry retryable t) error now) (λ _. refl) s.tasks,
    ) in
    elim (Bool-cases (can_retry retryable t)) [
      | inl again ↦ ground arith
      | inr over ↦
          let stays : find u.id (reconcile s' t.goal_id now).tasks ≡ some u =
            reconcile-Stands t.goal_id now s' u (Grows-IsSound s s' g h).distinct
              (subst (λ i. find i s'.tasks ≡ some u) (sym key) written) (ground arith) in
          let stays' : find id (reconcile s' t.goal_id now).tasks ≡ some u =
            subst (λ i. find i (reconcile s' t.goal_id now).tasks ≡ some u) key stays in
          ground arith
    ]

-- A failure that is not fenced off is recorded in one way: the call returns the task with one more
-- failure and no lease, ready again if the failure is retryable and attempts are left and failed if
-- not; and a task that is ready again is due at most thirty seconds later.
pub fail_task_lem :
    (s : Store) (id : ℕ) (error : String) (retryable : Bool) (lease : Option ℕ) (now : ℕ) (t : Task)
    → IsSound s
    → get_task s id ≡ some t
    → fenced lease t ≡ false
    → is_terminal t.status ≡ false
    → (u : Task) × ((fail_task s id error retryable lease now).1 ≡ some u)
      × (u.failure_count ≡ t.failure_count + 1)
      × (u.lease_token ≡ none)
      × (u.last_error ≡ some error)
      × (u.next_run_at ≤ now + 30000)
      × (((u.status ≡ ready) × (retryable ≡ true) × (t.failure_count + 1 < t.max_attempts))
          ⊎ ((u.status ≡ failed)
              × (u.completed_at ≡ some now)
              × ((retryable ≡ false) ⊎ (t.max_attempts ≤ t.failure_count + 1))))
fail_task_lem s id error retryable lease now t h e held live = (
  failure (can_retry retryable t) error now t,
  fail_task-returns s id error retryable lease now t h e held live,
  refl,
  refl,
  refl,
  omega (arith, backoff-le (can_retry retryable t) t),
  elim (Bool-cases (can_retry retryable t)) [
    | inl again ↦ inl (retried retryable error now t again)
    | inr over ↦ inr (given_up retryable error now t over)
  ],
)

-- ===== src/Lifecycle/Expiry.antt =====
-- The sweep of the event waits that have timed out.
use asynchronnous_agent_os.Prelude.{ℕ, ◌≡◌, refl, ◌≢◌, true, false, none, arith}
use asynchronnous_agent_os.Domain.{is_terminal}
use asynchronnous_agent_os.Table.Laws.{find-update}
use asynchronnous_agent_os.Table.Keys.{Stands}
use asynchronnous_agent_os.Table.Loops.{each-Rows}
use asynchronnous_agent_os.Store.{Store, Task, append_audit, update_task, task_failed, task_key}
use asynchronnous_agent_os.Lifecycle.Evolve.{
  Evolves, Evolves-refl, Evolves-trans, Grows, Grows-IsSound, IsSound,
}
use asynchronnous_agent_os.Lifecycle.Settle.{update-Rows_found}
use asynchronnous_agent_os.Lifecycle.Turn.{failure, fail_task}
use asynchronnous_agent_os.Lifecycle.Writes.{Evolves-failure}
use asynchronnous_agent_os.Lifecycle.Turns.{fail_task-Grows}
use asynchronnous_agent_os.Lifecycle.Goals.{reconcile}
use asynchronnous_agent_os.Lifecycle.Dependents.{reconcile-Stands}
use asynchronnous_agent_os.Lifecycle.Sweep.{
  wait_is_over, expire_wait, timeout_text, expire_event_waits,
}

module _ (now : ℕ) where
  still_waits : (t : Task) → wait_is_over now t ≡ true → is_terminal t.status ≡ false
  still_waits t h = ground arith

  expire_wait-Grows :
      (s : Store) (t : Task)
      → IsSound s
      → Stands s.tasks t
      → wait_is_over now t ≡ true
      → Grows s (expire_wait now s t)
  unfolding expire_wait
  expire_wait-Grows s t h e over =
      fail_task-Grows s t.id (timeout_text t) false none now h
        (λ u f _ _. let same : u ≡ t = cc (e, f) in rw same (still_waits t over))

  abbrev timed_out : Task → Task → Task
  timed_out t = failure false (timeout_text t) now

  -- What `failTask` comes to for a row that waits.
  expire_wait_lem :
      (s : Store) (t : Task)
      → Stands s.tasks t
      → expire_wait now s t
        ≡ reconcile
            (append_audit (update_task s t.id (λ _. true) (timed_out t)) t task_failed)
            t.goal_id
            now
  unfolding expire_wait fail_task
  expire_wait_lem s t e = rw (e, expire_wait, fail_task)

  expire_wait-frame :
      (s : Store) (t r : Task)
      → IsSound s
      → Stands s.tasks t
      → wait_is_over now t ≡ true
      → r.id ≢ t.id
      → Stands s.tasks r
      → wait_is_over now r ≡ true
      → Stands (expire_wait now s t).tasks r
  expire_wait-frame s t r h e over ne f g =
      let s' : Store = append_audit (update_task s t.id (λ _. true) (timed_out t)) t task_failed in
      let grown : Grows s s' =
        update-Rows_found s t.id (timed_out t) t e
          (Evolves-failure false (timeout_text t) now t (λ _. still_waits t over)) in
      rw (expire_wait_lem s t e) (
        reconcile-Stands t.goal_id now s' r (Grows-IsSound s s' grown h).distinct
          (ground (arith, find-update t.id r.id (λ _. true) (timed_out t) (λ _. refl) s.tasks))
          (ground arith))

  pub expire_event_waits-Grows : (s : Store) → IsSound s → Grows s (expire_event_waits s now).0
  unfolding expire_event_waits
  expire_event_waits-Grows s h =
      (each-Rows (λ r. r.tasks) (expire_wait now) Evolves Evolves-refl Evolves-trans
        (wait_is_over now) IsSound
        (λ r t v e o. Grows-IsSound r (expire_wait now r t) (expire_wait-Grows r t v e o) v)
        expire_wait-Grows expire_wait-frame s h h.distinct).1

-- ===== src/Scheduler/Ends.antt =====
-- A quantum gives up the worker's lease on every path.
use asynchronnous_agent_os.Prelude.{
  ℕ, ◌≡◌, ◌≢◌, refl, Bool, true, not, String, List, [], ◌∷◌, ◌++◌, Option, some, arith, keep,
  Option-cases, Bool-cases, inl, inr, ==_refl,
}
use asynchronnous_agent_os.Domain.{status_eq, waiting}
use asynchronnous_agent_os.Table.{each}
use asynchronnous_agent_os.Table.Laws.{find-update}
use asynchronnous_agent_os.Store.{
  Store, Task, Event, get_task, get_goal, task_key, goal_key, append_audit, update_task,
  task_failed,
}
use asynchronnous_agent_os.Lifecycle.Evolve.{IsSound, Grows, Grows-IsSound, find-IsValid}
use asynchronnous_agent_os.Lifecycle.Settle.{update-Rows_found}
use asynchronnous_agent_os.Lifecycle.Writes.{Evolves-failure, live_of_lease}
use asynchronnous_agent_os.Lifecycle.Turn.{fail_task, failure, fenced, can_retry}
use asynchronnous_agent_os.Lifecycle.Machine.{Reach-IsSound}
use asynchronnous_agent_os.Events.{
  Publication, Surroundings, publish_event, awaken, deliver, received, awaits, event_of,
}
use asynchronnous_agent_os.Workflow.Types.{Job, Moment, Outcome, returns, raises}
use asynchronnous_agent_os.Workflow.Turn.{execute_turn}
use asynchronnous_agent_os.Workflow.Path.{IsPath, execute_turn-Reach}
use asynchronnous_agent_os.Workflow.Release.{
  IsReleased, reconcile-IsReleased, preempt_running_task-IsReleased, pause_running_task-IsReleased,
  cancel_running_task-IsReleased,
}
use asynchronnous_agent_os.Workflow.Ends.{execute_turn-IsReleased}
use asynchronnous_agent_os.Scheduler.Drain.{Runtime}
use asynchronnous_agent_os.Scheduler.Quantum.{
  Ending, is_limit_or_denial, interrupted, caught, concluded, completion, announce, run_task,
}

module _ (id lease : ℕ) where
  fail_task-IsReleased :
      (now : ℕ) (s : Store) (error : String) (retryable : Bool)
      → IsSound s
      → IsReleased id lease (fail_task s id error retryable (some lease) now).0
  unfolding fail_task
  fail_task-IsReleased now s error retryable h u e f = elim (Option-cases (get_task s id)) [
    | inl a ↦ ground arith
    | inr (t, a) ↦ elim (Bool-cases (fenced (some lease) t)) [
      | inl b ↦ ground arith
      | inr b ↦
          let retry = can_retry retryable t in
          let live = live_of_lease lease t b (find-IsValid id t s.tasks h.valid a) in
          let s' : Store =
            append_audit (update_task s id (λ _. true) (failure retry error now)) t task_failed in
          let g : Grows s s' =
            update-Rows_found s id (failure retry error now) t a
              (Evolves-failure retryable error now t (λ _. live)) in
          let sound : IsSound s' = Grows-IsSound s s' g h in
          let found = find-update id id (λ _. true) (failure retry error now) (λ x. refl) s.tasks in
          let row : get_task s' id ≡ some (failure retry error now t) =
            ground (arith, found, ==_refl id) in
          elim (Bool-cases retry) [
            | inl c ↦ ground (arith, found)
            | inr c ↦
                let ended =
                  reconcile-IsReleased s' id lease t.goal_id now _ sound row (ground arith) in
                ground (arith, ended u)
          ]
    ]
  ]

  awaken-IsReleased :
      (e : Event) (at : ℕ) (s : Store) (t : Task)
      → IsReleased id lease s
      → IsReleased id lease (awaken e at s t)
  unfolding awaken deliver
  awaken-IsReleased e at s t h u f g =
      let found =
        find-update t.id id (λ r. status_eq r.status waiting) (received e t at) (λ x. refl)
          s.tasks in
      elim (Option-cases (get_task s id)) [
        | inl a ↦ ground (arith, found)
        | inr (v, a) ↦ ground (arith, found, h v a)
      ]

  each-awaken-IsReleased :
      (e : Event) (at : ℕ) (rows : List Task) (s : Store)
      → IsReleased id lease s
      → IsReleased id lease (each (awaken e at) s rows)
  unfolding each
  each-awaken-IsReleased e at [] s h = h
  each-awaken-IsReleased e at (t ∷ rows) s h =
      each-awaken-IsReleased e at rows (awaken e at s t) (awaken-IsReleased e at s t h)

  publish_event-IsReleased :
      (w : Surroundings) (s : Store) (i : Publication)
      → IsReleased id lease s
      → IsReleased id lease (publish_event w s i).0
  unfolding publish_event
  publish_event-IsReleased w s i h u f =
      let e : Event = event_of w i in
      let s' : Store = record s { events = s.events ++ (e ∷ []) } in
      let after = each-awaken-IsReleased e w.now (keep (awaits s e) s.tasks) s' h u in
      ground (arith, after, h u)

module _ (j : Job) (e : Ending) where
  interrupted-IsReleased :
      (s : Store) (t : Task) (message : String)
      → IsSound s
      → IsReleased j.id j.lease_token (interrupted j e s t message)
  unfolding interrupted
  interrupted-IsReleased s t message h = elim (Bool-cases t.cancel_requested) [
    | inl a ↦ rw a (cancel_running_task-IsReleased s j.id j.lease_token e.now h t.snapshot)
    | inr a ↦ elim (Bool-cases t.pause_requested) [
      | inl b ↦ rw (a, b) (pause_running_task-IsReleased s j.id j.lease_token e.now h t.snapshot)
      | inr b ↦ elim (Bool-cases t.preempt_requested) [
        | inl c ↦
            rw (a, b, c) (preempt_running_task-IsReleased s j.id j.lease_token e.now h t.snapshot)
        | inr c ↦ rw (a, b, c) (fail_task-IsReleased j.id j.lease_token e.now s message _ h)
      ]
    ]
  ]

  caught-IsReleased :
      (s : Store) (message : String)
      → IsSound s
      → IsReleased j.id j.lease_token (caught j e s message)
  unfolding caught
  caught-IsReleased s message h u f =
      let failed =
        fail_task-IsReleased j.id j.lease_token e.now s message (not (is_limit_or_denial e.code)) h
          u in
      elim (Option-cases (get_task s j.id)) [
        | inl a ↦ ground (arith, failed)
        | inr (t, a) ↦ ground (arith, failed, interrupted-IsReleased s t message h u)
      ]

announce-IsReleased :
    (j : Job) (e : Ending) (s : Store)
    → IsReleased j.id j.lease_token s
    → IsReleased j.id j.lease_token (announce j e s)
unfolding announce
announce-IsReleased j e s h u f = elim (Option-cases (get_goal s j.goal_id)) [
  | inl a ↦ ground (arith, h u)
  | inr (g, a) ↦ ground (
    arith,
    h u,
    publish_event-IsReleased j.id j.lease_token e.publication s (completion j e g) h u,
  )
]

outcome-IsReleased :
    (j : Job) (e : Ending) (r : Store × Outcome)
    → IsSound r.0
    → ((t : Option Task) → r.1 ≡ returns t → IsReleased j.id j.lease_token r.0)
    → IsReleased j.id j.lease_token (concluded j e r)
unfolding concluded
outcome-IsReleased j e (s, returns t) h g = g t refl
outcome-IsReleased j e (s, raises message) h g = caught-IsReleased j e s message h

concluded-IsReleased :
    (j : Job) (e : Ending) (moments : ℕ → Moment) (s : Store)
    → ((n : ℕ) → IsPath (moments n))
    → IsSound s
    → IsReleased j.id j.lease_token (concluded j e (execute_turn j moments s))
concluded-IsReleased j e moments s p h =
    outcome-IsReleased j e (execute_turn j moments s)
      (Reach-IsSound h (execute_turn-Reach j moments s p))
      (λ t r u f. execute_turn-IsReleased j moments s t u p h r f)

-- Where the rows are valid, and other components change them only by calls of the store, a quantum
-- gives up its lease however it ends: whether the turn returns or throws, and whatever the error,
-- the task's row no longer holds the worker's token afterwards.
pub run_task-IsReleased :
    (j : Job) (e : Ending) (moments : ℕ → Moment) (k : Runtime) (u : Task)
    → ((n : ℕ) → IsPath (moments n))
    → IsSound k.store
    → get_task (run_task j e moments k).store j.id ≡ some u
    → u.lease_token ≢ some j.lease_token
unfolding run_task
run_task-IsReleased j e moments k u p h =
    announce-IsReleased j e (concluded j e (execute_turn j moments k.store))
      (concluded-IsReleased j e moments k.store p h) u

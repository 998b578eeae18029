-- ===== src/Lifecycle/Turns.antt =====
-- Every call of a worker takes the rows of `tasks` to rows that they may become.
use asynchronnous_agent_os.Prelude.{
  ℕ, ◌≡◌, inl, inr, Bool, true, false, String, Option, some, arith, Bool-cases, Option-cases,
  sql_eq, ◌&&◌, ◌+◌,
}
use asynchronnous_agent_os.Domain.{is_terminal, status_eq, ready, running}
use asynchronnous_agent_os.Json.{Json}
use asynchronnous_agent_os.Store.{
  Store, Task, Snapshot, get_task, task_key, runs_under, unfenced, append_audit, update_task,
  task_succeeded, task_failed,
}
use asynchronnous_agent_os.Lifecycle.Evolve.{IsValid, Grows, Grows-refl, IsSound}
use asynchronnous_agent_os.Lifecycle.Settle.{update-Rows, update-Rows_found, reconcile_after}
use asynchronnous_agent_os.Lifecycle.Goals.{reconcile}
use asynchronnous_agent_os.Lifecycle.Writes.{
  Evolves-claimed, Evolves-yielded, Evolves-checkpointed, Evolves-deferred, Evolves-waits_for_timer,
  Evolves-waits_for_event, Evolves-completed, Evolves-failure, live_of_lease,
}
use asynchronnous_agent_os.Lifecycle.Turn.{
  claimable, claimed, claim_task, yielded, yield_task, checkpointed, checkpoint_task, deferred,
  defer_ready_task, waits_for_timer, wait_for_timer, waits_for_event, wait_for_event, completed,
  complete_task, can_retry, failure, fenced, fail_task, renew_lease,
}

module _ (s : Store) (id : ℕ) where
  pub claim_task-Grows :
      (worker token lease_ms now : ℕ) → Grows s (claim_task s id worker token lease_ms now).0
  unfolding claim_task
  claim_task-Grows worker token lease_ms now = ground (
    arith,
    Grows-refl s,
    update-Rows s id (claimable now) (claimed worker token lease_ms now)
        (Evolves-claimed worker token lease_ms now),
  )

  pub checkpoint_task-Grows :
      (snapshot : Snapshot) (message : Option String) (lease : Option ℕ) (now : ℕ)
      → Grows s (checkpoint_task s id snapshot message lease now).0
  unfolding checkpoint_task
  checkpoint_task-Grows snapshot message lease now = ground (
    arith,
    Grows-refl s,
    update-Rows s id (unfenced lease) (checkpointed snapshot now)
        (λ t _. Evolves-checkpointed snapshot now t),
  )

  pub yield_task-Grows :
      (snapshot : Snapshot) (lease : Option ℕ) (now : ℕ)
      → Grows s (yield_task s id snapshot lease now).0
  unfolding yield_task
  yield_task-Grows snapshot lease now = ground (
    arith,
    Grows-refl s,
    update-Rows s id (runs_under lease) (yielded snapshot now) (Evolves-yielded snapshot lease now),
  )

  pub defer_ready_task-Grows :
      (next : ℕ) (reason : String) (now : ℕ) → Grows s (defer_ready_task s id next reason now).0
  unfolding defer_ready_task
  defer_ready_task-Grows next reason now = ground (
    arith,
    Grows-refl s,
    update-Rows s id (λ r. status_eq r.status ready) (deferred next reason now)
        (λ t _. Evolves-deferred next reason now t),
  )

  pub wait_for_timer-Grows :
      (snapshot : Snapshot) (wake : ℕ) (lease : Option ℕ) (now : ℕ)
      → Grows s (wait_for_timer s id snapshot wake lease now).0
  unfolding wait_for_timer
  wait_for_timer-Grows snapshot wake lease now = ground (
    arith,
    Grows-refl s,
    update-Rows s id (runs_under lease) (waits_for_timer snapshot wake now)
        (Evolves-waits_for_timer snapshot wake lease now),
  )

  pub wait_for_event-Grows :
      (snapshot : Snapshot) (topic key : String) (deadline lease : Option ℕ) (now : ℕ)
      → Grows s (wait_for_event s id snapshot topic key deadline lease now).0
  unfolding wait_for_event
  wait_for_event-Grows snapshot topic key deadline lease now = ground (
    arith,
    Grows-refl s,
    update-Rows s id (runs_under lease) (waits_for_event snapshot topic key deadline now)
        (Evolves-waits_for_event snapshot topic key deadline lease now),
  )

  pub complete_task-Grows :
      (snapshot : Snapshot) (result : Json) (lease : Option ℕ) (now : ℕ)
      → IsSound s
      → Grows s (complete_task s id snapshot result lease now).0
  unfolding complete_task
  complete_task-Grows snapshot result lease now h =
      let s' : Store = update_task s id (runs_under lease) (completed snapshot result now) in
      let g : Grows s s' =
        update-Rows s id (runs_under lease) (completed snapshot result now)
          (Evolves-completed snapshot result lease now) in
      elim (Option-cases (get_task s id)) [
        | inl e ↦ rw (e, complete_task) (Grows-refl s)
        | inr (t, e) ↦
            let ended : Grows s (reconcile (append_audit s' t task_succeeded) t.goal_id now) =
              reconcile_after s (append_audit s' t task_succeeded) t.goal_id now h g in
            ground (arith, Grows-refl s)
      ]

  pub fail_task-Grows :
      (error : String) (retryable : Bool) (lease : Option ℕ) (now : ℕ)
      → IsSound s
      → ((t : Task)
          → get_task s id ≡ some t
          → fenced lease t ≡ false
          → IsValid t
          → is_terminal t.status ≡ false)
      → Grows s (fail_task s id error retryable lease now).0
  unfolding fail_task
  fail_task-Grows error retryable lease now h live = elim (Option-cases (get_task s id)) [
    | inl e ↦ rw (e, fail_task) (Grows-refl s)
    | inr (t, e) ↦ elim (Bool-cases (fenced lease t)) [
      | inl stale ↦ ground (arith, Grows-refl s)
      | inr held ↦
          let retry = can_retry retryable t in
          let s' : Store = update_task s id (λ _. true) (failure retry error now) in
          let g : Grows s s' =
            update-Rows_found s id (failure retry error now) t e
              (Evolves-failure retryable error now t (live t e held)) in
          let ended : Grows s (reconcile (append_audit s' t task_failed) t.goal_id now) =
            reconcile_after s (append_audit s' t task_failed) t.goal_id now h g in
          ground arith
    ]
  ]

  -- With a lease token the call fails a task only while the token is current.
  pub fail_task-Grows_lease :
      (error : String) (retryable : Bool) (lease : ℕ) (now : ℕ)
      → IsSound s
      → Grows s (fail_task s id error retryable (some lease) now).0
  fail_task-Grows_lease error retryable lease now h =
      fail_task-Grows error retryable (some lease) now h
        (λ t _ held v. live_of_lease lease t held v)

  pub renew_lease-Grows :
      (lease : Option ℕ) (lease_ms now : ℕ) → Grows s (renew_lease s id lease lease_ms now).0
  unfolding renew_lease
  renew_lease-Grows lease lease_ms now =
      update-Rows s id (λ t. status_eq t.status running && sql_eq t.lease_token lease)
        (λ t. record t { lease_expires_at = some (now + lease_ms); updated_at = now })
        (λ t h. ground arith)

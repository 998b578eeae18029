-- ===== src/Lifecycle/Fencing.antt =====
-- The lease token as a fence: a worker whose lease was taken away changes nothing.
use asynchronnous_agent_os.Prelude.{
  ℕ, ◌+◌, ◌≡◌, refl, ap, ◌≢◌, ◌⊎◌, inl, inr, Bool, true, false, ◌&&◌, String, List, [], ◌∷◌, Option,
  none, some, arith, ◌==◌, Bool-cases, sql_eq,
}
use asynchronnous_agent_os.Domain.{status_eq, running}
use asynchronnous_agent_os.Json.{Json}
use asynchronnous_agent_os.Table.{find, update}
use asynchronnous_agent_os.Table.Laws.{find-update}
use asynchronnous_agent_os.Store.{Store, Task, Snapshot, get_task, task_key, unfenced, runs_under}
use asynchronnous_agent_os.Lifecycle.Turn.{
  claimable, claimed, claim_task, checkpointed, checkpoint_task, yielded, yield_task,
  waits_for_timer, wait_for_timer, waits_for_event, wait_for_event, completed, complete_task,
  fail_task, renew_lease,
}
use asynchronnous_agent_os.Lifecycle.Control.{
  preempt_running_task, pause_running_task, cancel_running_task,
}
use asynchronnous_agent_os.Events.Consume.{consume_event_and_checkpoint}

-- What a worker calls under its token for the task that it holds.
pub data WorkerCall : Type 0 where
  checkpoints : Snapshot → Option String → WorkerCall
  yields : Snapshot → WorkerCall
  sleeps : Snapshot → ℕ → WorkerCall
  listens : Snapshot → String → String → Option ℕ → WorkerCall
  completes : Snapshot → Json → WorkerCall
  fails : String → Bool → WorkerCall
  renews : ℕ → WorkerCall
  preempts pauses cancels : Snapshot → WorkerCall
  -- The id of the event.
  consumes : Snapshot → ℕ → WorkerCall

abbrev pub perform : Store → ℕ → ℕ → ℕ → WorkerCall → Store
perform s id lease now (checkpoints n m) = (checkpoint_task s id n m (some lease) now).0
perform s id lease now (yields n) = (yield_task s id n (some lease) now).0
perform s id lease now (sleeps n wake) = (wait_for_timer s id n wake (some lease) now).0
perform s id lease now (listens n topic key deadline) =
    (wait_for_event s id n topic key deadline (some lease) now).0
perform s id lease now (completes n result) = (complete_task s id n result (some lease) now).0
perform s id lease now (fails error retryable) = (fail_task s id error retryable (some lease) now).0
perform s id lease now (renews lease_ms) = (renew_lease s id (some lease) lease_ms now).0
perform s id lease now (preempts n) = (preempt_running_task s id n (some lease) now).0
perform s id lease now (pauses n) = (pause_running_task s id n (some lease) now).0
perform s id lease now (cancels n) = (cancel_running_task s id n (some lease) now).0
perform s id lease now (consumes n e) = (consume_event_and_checkpoint s id e n (some lease) now).0

update-misses :
    (i : ℕ) (test : Task → Bool) (write : Task → Task) (t : Task) (ts : List Task)
    → find i ts ≡ some t
    → test t ≡ false
    → update i test write ts ≡ ts
unfolding find update
update-misses i test write t [] e f = refl
update-misses i test write t (x ∷ ts) e f = elim (Bool-cases (x.id == i)) [
  | inl found ↦
      let e' : some x ≡ some t = rw found at e in let same : x ≡ t = cc e' in rw (found, same, f)
  | inr later ↦
      let e' : find i ts ≡ some t = rw later at e in
      rw later (ap (◌∷◌ x) (update-misses i test write t ts e' f))
]

-- Whatever a worker calls under a token that is no longer that of the task's lease changes nothing in
-- the store. The calls without a token are not among these: `appendAudit` and the release of the
-- worker's resource claims.
pub stale_worker :
    (s : Store) (id : ℕ) (t : Task) (lease now : ℕ) (call : WorkerCall)
    → get_task s id ≡ some t
    → t.lease_token ≢ some lease
    → perform s id lease now call ≡ s
unfolding checkpoint_task yield_task wait_for_timer wait_for_event complete_task fail_task
    renew_lease preempt_running_task pause_running_task cancel_running_task
    consume_event_and_checkpoint
stale_worker s id t lease now (checkpoints n m) e h =
    ground (arith, update-misses id (unfenced (some lease)) (checkpointed n now) t s.tasks e)
stale_worker s id t lease now (yields n) e h =
    ground (arith, update-misses id (runs_under (some lease)) (yielded n now) t s.tasks e)
stale_worker s id t lease now (sleeps n wake) e h =
    ground
      (arith, update-misses id (runs_under (some lease)) (waits_for_timer n wake now) t s.tasks e)
stale_worker s id t lease now (listens n topic key deadline) e h = ground (
  arith,
  update-misses id (runs_under (some lease)) (waits_for_event n topic key deadline now) t s.tasks e,
)
stale_worker s id t lease now (completes n result) e h =
    ground (arith, update-misses id (runs_under (some lease)) (completed n result now) t s.tasks e)
stale_worker s id t lease now (fails error retryable) e h = ground arith
stale_worker s id t lease now (renews lease_ms) e h = ground (
  arith,
  update-misses id (λ r. status_eq r.status running && sql_eq r.lease_token (some lease))
      (λ r. record r { lease_expires_at = some (now + lease_ms); updated_at = now }) t s.tasks e,
)
stale_worker s id t lease now (preempts n) e h = ground arith
stale_worker s id t lease now (pauses n) e h = ground arith
stale_worker s id t lease now (cancels n) e h = ground arith
stale_worker s id t lease now (consumes n event) e h =
    ground (arith, update-misses id (runs_under (some lease)) (checkpointed n now) t s.tasks e)

-- A claim gives the caller a running task under its own token exactly when the task is ready and
-- due; otherwise it gives nothing and changes nothing.
pub claim_task_lem :
    (s : Store) (id worker token lease_ms now : ℕ) (t : Task)
    → get_task s id ≡ some t
    → ((claimable now t ≡ true)
        × ((claim_task s id worker token lease_ms now).1
            ≡ some (claimed worker token lease_ms now t)))
      ⊎ ((claimable now t ≡ false) × (claim_task s id worker token lease_ms now ≡ (s, none)))
unfolding claim_task
claim_task_lem s id worker token lease_ms now t e = ground (
  arith,
  find-update id id (claimable now) (claimed worker token lease_ms now) (λ _. refl) s.tasks,
)

-- Of two claims of one task without another call between them, at most one succeeds.
pub claim_twice :
    (s : Store) (id worker token lease_ms now worker' token' lease_ms' later : ℕ) (t : Task)
    → (claim_task s id worker token lease_ms now).1 ≡ some t
    → (claim_task (claim_task s id worker token lease_ms now).0 id worker' token' lease_ms' later).1
      ≡ none
unfolding claim_task
claim_twice s id worker token lease_ms now worker' token' lease_ms' later t h = ground (
  arith,
  find-update id id (claimable now) (claimed worker token lease_ms now) (λ _. refl) s.tasks,
)

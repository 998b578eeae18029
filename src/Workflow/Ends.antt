-- ===== src/Workflow/Ends.antt =====
-- When a turn of the workflow engine returns, the worker's lease on the task is given up.
use asynchronnous_agent_os.Prelude.{
  ℕ, zero, suc, ◌≡◌, ◌≢◌, Bool, true, false, String, Option, none, some, arith, same, not, refl,
  if◌then◌else◌,
}
use asynchronnous_agent_os.Store.{Store, Task, Snapshot, get_task, task_key}
use asynchronnous_agent_os.Lifecycle.Evolve.{IsSound}
use asynchronnous_agent_os.Lifecycle.Machine.{Reach, Reach-IsSound}
use asynchronnous_agent_os.Events.{Outcome as Publishing, published}
use asynchronnous_agent_os.Events.Consume.{consume_queued_event}
use asynchronnous_agent_os.Workflow.Types.{
  Step, recorded, assigned, called, delayed, awaits_event, emits, completes, unsupported, Reply,
  gives, waits_until, waits_for, throws, Moment, Job, Outcome, returns, raises, Round, goes_on,
  stops, step_at,
}
use asynchronnous_agent_os.Workflow.Turn.{
  suspend, settle, answered, incoming, receive, after_emission, emit, run_step, run_round,
  run_rounds, continue_with, execute_turn, first_snapshot,
}
use asynchronnous_agent_os.Workflow.Path.{IsPath, RoundPath, run_round-path}
use asynchronnous_agent_os.Workflow.Release.{
  IsReleased, yield_task-IsReleased, wait_for_timer-IsReleased, wait_for_event-IsReleased,
  preempt_running_task-IsReleased, pause_running_task-IsReleased, complete_task-IsReleased,
  cancel_running_task-IsReleased,
}

-- What has returned has given up the lease.
abbrev GivesUp : Job → Store × Outcome → Type 0
GivesUp j (s, returns t) = IsReleased j.id j.lease_token s
GivesUp j (s, raises message) = Unit {0}

abbrev RoundGivesUp : Job → Round → Type 0
RoundGivesUp j (goes_on s n) = Unit {0}
RoundGivesUp j (stops r) = GivesUp j r

module _ (j : Job) where
  RoundGivesUp-test :
      (b : Bool) (x y : Round)
      → (b ≡ true → RoundGivesUp j x)
      → RoundGivesUp j y
      → RoundGivesUp j (if b then x else y)
  RoundGivesUp-test true x y p q = p refl
  RoundGivesUp-test false x y p q = q

  RoundGivesUp-read {ℓ} :
      {A : Type ℓ} (o : Option A) (x : Round) (f : A → Round)
      → (o ≡ none → RoundGivesUp j x)
      → ((a : A) → o ≡ some a → RoundGivesUp j (f a))
      → RoundGivesUp j (elim o [ none ↦ x | some a ↦ f a ])
  RoundGivesUp-read none x f p q = p refl
  RoundGivesUp-read (some a) x f p q = q a refl

  module _ (m : Moment) (s : Store) (h : IsSound s) (n : Snapshot) where
    suspend-end :
        (topic key : String) (deadline : Option ℕ)
        → RoundGivesUp j (suspend j m s n topic key deadline)
    unfolding suspend
    suspend-end topic key deadline =
        RoundGivesUp-read (consume_queued_event s j.id topic key) _ _
          (λ _. wait_for_event-IsReleased s j.id j.lease_token m.now h n topic key deadline)
          (λ e _. tt)

    receive-end :
        (topic key : String) (save_as : Option String) (timeout : ℕ)
        → RoundGivesUp j (receive j m s n topic key save_as timeout)
    unfolding receive
    receive-end topic key save_as timeout =
        RoundGivesUp-read (incoming j m s n topic key) _ _
          (λ _. wait_for_event-IsReleased s j.id j.lease_token m.now h _ topic key _) (λ p _. tt)

  after_emission-end :
      (m : Moment) (s : Store) (n : Snapshot) (o : Publishing)
      → RoundGivesUp j (after_emission j m s n o)
  unfolding after_emission
  after_emission-end m s n (published e awakened duplicate) = tt
  after_emission-end m s n _ = tt

  answered-end :
      (m : Moment) (s : Store) (h : IsSound s) (n : Snapshot) (action : String)
      (save_as : Option String) (r : Reply)
      → RoundGivesUp j (answered j m s n action save_as r)
  unfolding answered settle
  answered-end m s h n action save_as (gives value) = tt
  answered-end m s h n action save_as (throws message) = tt
  answered-end m s h n action save_as (waits_until state wake_at duration) =
      wait_for_timer-IsReleased s j.id j.lease_token m.now h _ _
  answered-end m s h n action save_as (waits_for state topic key deadline) =
      suspend-end m s h _ topic key deadline

  module _ (m : Moment) (p : IsPath m) (s : Store) (h : IsSound s) (n : Snapshot) where
    run_step-end : (step : Step) → RoundGivesUp j (run_step j m s n step)
    unfolding run_step emit
    run_step-end (recorded message) = tt
    run_step-end (assigned name value) = tt
    run_step-end (called action input save_as) =
        answered-end m (m.meanwhile s) (Reach-IsSound h (p s)) n action save_as m.reply
    run_step-end (delayed duration) = wait_for_timer-IsReleased s j.id j.lease_token m.now h _ _
    run_step-end (awaits_event topic key save_as timeout) = receive-end m s h n _ _ save_as timeout
    run_step-end (emits topic key payload) = after_emission-end m _ _ _
    run_step-end (completes result) = complete_task-IsReleased s j.id j.lease_token m.now h _ _
    run_step-end (unsupported type) = tt

    run_round-end : RoundGivesUp j (run_round j m s n)
    unfolding run_round
    run_round-end =
        RoundGivesUp-read (get_task s j.id) _ _ (λ a u e. ground arith)
          (λ t a.
            RoundGivesUp-test (not (same t.lease_token (some j.lease_token))) _ _
              (λ b u e. ground arith)
              (RoundGivesUp-test t.cancel_requested _ _
                (λ _. cancel_running_task-IsReleased s j.id j.lease_token m.now h n)
                (RoundGivesUp-test t.pause_requested _ _
                  (λ _. pause_running_task-IsReleased s j.id j.lease_token m.now h n)
                  (RoundGivesUp-test t.preempt_requested _ _
                    (λ _. preempt_running_task-IsReleased s j.id j.lease_token m.now h n)
                    (RoundGivesUp-read m.aborted _ _
                      (λ _.
                        RoundGivesUp-read (step_at n.pc j.workflow) _ _
                          (λ _. complete_task-IsReleased s j.id j.lease_token m.now h n _)
                          (λ step _. run_step-end step))
                      (λ message _. tt))))))

  continue_with-end :
      (rest : Store → Snapshot → Store × Outcome) (s : Store) (r : Round)
      → ((t : Store) (n : Snapshot) → Reach s t → GivesUp j (rest t n))
      → RoundPath s r
      → RoundGivesUp j r
      → GivesUp j (continue_with rest r)
  unfolding continue_with
  continue_with-end rest s (goes_on t n) h p g = h t n p
  continue_with-end rest s (stops r) h p g = g

  run_rounds-end :
      (moments : ℕ → Moment)
      → ((k : ℕ) → IsPath (moments k))
      → (k : ℕ) (s : Store) (n : Snapshot) → IsSound s
      → GivesUp j (run_rounds j moments k s n)
  unfolding run_rounds
  run_rounds-end moments p zero s n h =
      yield_task-IsReleased s j.id j.lease_token (moments 0).now h n
  run_rounds-end moments p (suc k) s n h =
      let m = moments (suc k) in
      continue_with-end _ s (run_round j m s n)
        (λ t n' r. run_rounds-end moments p k t n' (Reach-IsSound h r))
        (run_round-path j m (p (suc k)) s n) (run_round-end m (p (suc k)) s h n)

GivesUp_lem :
    (j : Job) (r : Store × Outcome) (t : Option Task)
    → GivesUp j r
    → r.1 ≡ returns t
    → IsReleased j.id j.lease_token r.0
GivesUp_lem j (s, returns u) t g e = g
GivesUp_lem j (s, raises message) t g e = cc

-- Where the rows are valid, and other components change them only by calls of the store, a turn
-- that returns has given up its lease: the task's row no longer holds the worker's token.
pub execute_turn-IsReleased :
    (j : Job) (moments : ℕ → Moment) (s : Store) (t : Option Task) (u : Task)
    → ((k : ℕ) → IsPath (moments k))
    → IsSound s
    → (execute_turn j moments s).1 ≡ returns t
    → get_task (execute_turn j moments s).0 j.id ≡ some u
    → u.lease_token ≢ some j.lease_token
unfolding execute_turn
execute_turn-IsReleased j moments s t u p h e =
    GivesUp_lem j (execute_turn j moments s) t
      (run_rounds-end j moments p j.max_steps s (first_snapshot j) h) e u

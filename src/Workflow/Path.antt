-- ===== src/Workflow/Path.antt =====
-- A turn of the workflow engine is a sequence of calls of the store, so that what holds along such
-- sequences holds across turns.
use asynchronnous_agent_os.Prelude.{
  ℕ, zero, suc, Bool, true, false, String, Option, none, some, same, not, if◌then◌else◌,
}
use asynchronnous_agent_os.Json.{Json}
use asynchronnous_agent_os.Store.{Store, Snapshot, PendingEvent, get_task, task_key}
use asynchronnous_agent_os.Lifecycle.Machine.{
  Reach, here, next, Reach-trans, Step as Call, publish, consume, notes, yields, sleep, listen,
  complete, cancel_running, pause_running, preempt, checkpoint,
}
use asynchronnous_agent_os.Events.{Outcome as Publishing, published}
use asynchronnous_agent_os.Events.Consume.{consume_queued_event}
use asynchronnous_agent_os.Workflow.Types.{
  Step, recorded, assigned, called, delayed, awaits_event, emits, completes, unsupported, Reply,
  gives, waits_until, waits_for, throws, Moment, Job, Outcome, Round, goes_on, stops, step_at,
}
use asynchronnous_agent_os.Workflow.Turn.{
  suspend, record_answer, after_emission, settle, answered, incoming, receive, emit, emission,
  run_step, run_round, run_rounds, continue_with, execute_turn, first_snapshot,
}

one : {s t : Store} → Call s t → Reach s t
one c = next here c

-- The store with which the round goes on or ends is reached.
abbrev pub RoundPath : Store → Round → Type 0
RoundPath s (goes_on t n) = Reach s t
RoundPath s (stops r) = Reach s r.0

RoundPath-trans : {s t : Store} (r : Round) → Reach s t → RoundPath t r → RoundPath s r
RoundPath-trans (goes_on u n) p q = Reach-trans p q
RoundPath-trans (stops u) p q = Reach-trans p q

-- The path through a test, and through a lookup.
RoundPath-if :
    (s : Store) (b : Bool) (x y : Round)
    → RoundPath s x
    → RoundPath s y
    → RoundPath s (if b then x else y)
RoundPath-if s true x y p q = p
RoundPath-if s false x y p q = q

RoundPath-option {ℓ} :
    {A : Type ℓ} (s : Store) (o : Option A) (x : Round) (f : A → Round)
    → RoundPath s x
    → ((a : A) → RoundPath s (f a))
    → RoundPath s (elim o [ none ↦ x | some a ↦ f a ])
RoundPath-option s none x f p q = p
RoundPath-option s (some a) x f p q = q a

abbrev pub IsPath : Moment → Type 0
IsPath m = (s : Store) → Reach s (m.meanwhile s)

module _ (j : Job) (m : Moment) where
  abbrev lease : Option ℕ
  lease = some j.lease_token

  suspend-path :
      (s : Store) (n : Snapshot) (topic key : String) (deadline : Option ℕ)
      → RoundPath s (suspend j m s n topic key deadline)
  unfolding suspend
  suspend-path s n topic key deadline =
      RoundPath-option s (consume_queued_event s j.id topic key) _ _
        (one (listen j.id n topic key deadline lease m.now))
        (λ e. one (consume j.id e.id _ lease m.now))

  record_answer-path :
      (s : Store) (n : Snapshot) (p : Option PendingEvent) → Reach s (record_answer j m s n p)
  unfolding record_answer
  record_answer-path s n none = one (checkpoint j.id n none lease m.now)
  record_answer-path s n (some p) = one (consume j.id p.id n lease m.now)

  settle-path :
      (s : Store) (n : Snapshot) (action : String) (save_as : Option String) (value : Json)
      → RoundPath s (settle j m s n action save_as value)
  unfolding settle
  settle-path s n action save_as value =
      next (record_answer-path s _ j.snapshot.pending_event) (notes _)

  receive-path :
      (s : Store) (n : Snapshot) (topic key : String) (save_as : Option String) (timeout : ℕ)
      → RoundPath s (receive j m s n topic key save_as timeout)
  unfolding receive
  receive-path s n topic key save_as timeout =
      RoundPath-option s (incoming j m s n topic key) _ _
        (one (listen j.id _ topic key _ lease m.now))
        (λ p. next (one (consume j.id p.id _ lease m.now)) (notes _))

  after_emission-path :
      (s : Store) (n : Snapshot) (o : Publishing) → RoundPath s (after_emission j m s n o)
  unfolding after_emission
  after_emission-path s n (published e awakened duplicate) =
      one (checkpoint j.id n none lease m.now)
  after_emission-path s n _ = here

  emit-path :
      (s : Store) (n : Snapshot) (topic key : String) (payload : Json)
      → RoundPath s (emit j m s n topic key payload)
  unfolding emit
  emit-path s n topic key payload =
      RoundPath-trans (after_emission j m _ _ _)
        (one (publish m.publication (emission j m s n topic key payload)))
        (after_emission-path _ _ _)

  answered-path :
      (s : Store) (n : Snapshot) (action : String) (save_as : Option String) (r : Reply)
      → RoundPath s (answered j m s n action save_as r)
  unfolding answered
  answered-path s n action save_as (gives value) = settle-path s n action save_as value
  answered-path s n action save_as (throws message) = here
  answered-path s n action save_as (waits_until state wake_at duration) =
      one (sleep j.id _ _ lease m.now)
  answered-path s n action save_as (waits_for state topic key deadline) =
      suspend-path s _ topic key deadline

  run_step-path :
      IsPath m → (s : Store) (n : Snapshot) (step : Step) → RoundPath s (run_step j m s n step)
  unfolding run_step
  run_step-path p s n (recorded message) = next (one (notes _)) (checkpoint j.id _ none lease m.now)
  run_step-path p s n (assigned name value) = one (checkpoint j.id _ none lease m.now)
  run_step-path p s n (called action input save_as) =
      RoundPath-trans (answered j m (m.meanwhile s) n action save_as m.reply) (p s)
        (answered-path (m.meanwhile s) n action save_as m.reply)
  run_step-path p s n (delayed duration) = one (sleep j.id _ _ lease m.now)
  run_step-path p s n (awaits_event topic key save_as timeout) =
      receive-path s n _ _ save_as timeout
  run_step-path p s n (emits topic key payload) = emit-path s n _ _ _
  run_step-path p s n (completes result) = one (complete j.id _ _ lease m.now)
  run_step-path p s n (unsupported type) = here

  pub run_round-path : IsPath m → (s : Store) (n : Snapshot) → RoundPath s (run_round j m s n)
  unfolding run_round
  run_round-path p s n = RoundPath-option s (get_task s j.id) _ _ here (λ t.
      RoundPath-if s (not (same t.lease_token lease)) _ _ here (
        RoundPath-if s t.cancel_requested _ _ (one (cancel_running j.id n lease m.now)) (
          RoundPath-if s t.pause_requested _ _ (one (pause_running j.id n lease m.now)) (
            RoundPath-if s t.preempt_requested _ _ (one (preempt j.id n lease m.now)) (
              RoundPath-option s m.aborted _ _
                (RoundPath-option s (step_at n.pc j.workflow) _ _
                  (one (complete j.id n _ lease m.now)) (run_step-path p s n))
                (λ message. here))))))

continue_with-Reach :
    {s : Store} (rest : Store → Snapshot → Store × Outcome) (r : Round)
    → ((t : Store) (n : Snapshot) → Reach t (rest t n).0)
    → RoundPath s r
    → Reach s (continue_with rest r).0
unfolding continue_with
continue_with-Reach rest (goes_on t n) h p = Reach-trans p (h t n)
continue_with-Reach rest (stops r) h p = p

run_rounds-Reach :
    (j : Job) (moments : ℕ → Moment)
    → ((k : ℕ) → IsPath (moments k))
    → (k : ℕ) (s : Store) (n : Snapshot) → Reach s (run_rounds j moments k s n).0
unfolding run_rounds
run_rounds-Reach j moments p zero s n = one (yields j.id n (some j.lease_token) (moments 0).now)
run_rounds-Reach j moments p (suc k) s n =
    continue_with-Reach _ (run_round j (moments (suc k)) s n) (run_rounds-Reach j moments p k)
      (run_round-path j (moments (suc k)) (p (suc k)) s n)

-- A turn is a sequence of calls of the store, as long as the other calls that come while an action
-- runs are: so every store that a turn leaves is one that calls can reach.
pub execute_turn-Reach :
    (j : Job) (moments : ℕ → Moment) (s : Store)
    → ((k : ℕ) → IsPath (moments k))
    → Reach s (execute_turn j moments s).0
unfolding execute_turn
execute_turn-Reach j moments s p = run_rounds-Reach j moments p j.max_steps s (first_snapshot j)

-- ===== src/Workflow/Turn.antt =====
-- src/runtime/workflow-engine.js, executeTurn: one quantum of a task's workflow. The turn waits for
-- the actions, and other calls change the store meanwhile: what an action answers and what happens
-- to the store until then are the argument `Moment`, one for each round of the loop. The topics, keys
-- and durations of steps resolve to texts and numbers through the parameters `text_value` and
-- `number_value`. The texts of audit rows are left out.
use asynchronnous_agent_os.Prelude.{
  ℕ, zero, suc, ◌+◌, true, ◌&&◌, not, String, Option, none, some, str_eq, same, ◌==◌, if◌then◌else◌,
}
use Prim.Native.String.{◌++◌}
use asynchronnous_agent_os.Json.{Json, boolean, number, text, object, no_fields, field}
use asynchronnous_agent_os.Store.{
  Store, Snapshot, PendingEvent, get_task, get_goal, step_recorded, action_completed,
  event_consumed, task_key, goal_key,
}
use asynchronnous_agent_os.Lifecycle.Turn.{
  checkpoint_task, yield_task, wait_for_timer, wait_for_event, complete_task,
}
use asynchronnous_agent_os.Lifecycle.Control.{
  preempt_running_task, pause_running_task, cancel_running_task,
}
use asynchronnous_agent_os.Events.{
  Outcome as Publishing, Publication, published, publish_event, pending,
}
use asynchronnous_agent_os.Events.Consume.{consume_queued_event, consume_event_and_checkpoint}
use asynchronnous_agent_os.Workflow.Values.{
  resolve_value, set_field, get_field, delete_field, spread, checkpoint,
}
use asynchronnous_agent_os.Workflow.Types.{
  Step, recorded, assigned, called, delayed, awaits_event, emits, completes, unsupported, Reply,
  gives, waits_until, waits_for, throws, Moment, Job, Outcome, returns, raises, step_at,
  append_note, or_else, json_or, ok_result, finish, Round, goes_on, stops,
}

module _ (j : Job) (m : Moment) where
  abbrev resolved : Snapshot → Json → Json
  resolved n v = resolve_value j.expand n.variables v

  abbrev lease : Option ℕ
  lease = some j.lease_token

  abbrev advance : Snapshot → Snapshot
  advance n = record n { pc = suc n.pc }

  abbrev save : Snapshot → String → Json → Snapshot
  save n name value = record n { variables = set_field name value n.variables }

  abbrev matches : Snapshot → String → String → Option PendingEvent
  matches n topic key = elim n.pending_event [
    | none ↦ none
    | some p ↦ if str_eq p.topic topic && str_eq p.correlation_key key then some p else none
  ]

  -- The action has asked to wait for an event.
  unfoldable pub suspend : Store → Snapshot → String → String → Option ℕ → Round
  suspend s n topic key deadline = elim (consume_queued_event s j.id topic key) [
    | some e ↦
        let n' = record n { pending_event = some (pending e) } in
        goes_on (consume_event_and_checkpoint s j.id e.id n' lease m.now).0 n'
    | none ↦ stops (finish (wait_for_event s j.id n topic key deadline lease m.now))
  ]

  unfoldable pub record_answer : Store → Snapshot → Option PendingEvent → Store
  record_answer s n (some p) = (consume_event_and_checkpoint s j.id p.id n lease m.now).0
  record_answer s n none = (checkpoint_task s j.id n none lease m.now).0

  -- The action has answered with a value.
  unfoldable pub settle : Store → Snapshot → String → Option String → Json → Round
  settle s n action save_as value =
      let n' =
        checkpoint
          (save
            (record (advance n) {
              pending_event = none;
              action_states = delete_field (j.text_of n.pc) n.action_states;
            })
            (or_else save_as action) value)
          "call" m.now (field "action" (text action) no_fields) in
      goes_on (append_note (record_answer s n' j.snapshot.pending_event) j action_completed) n'

  abbrev asleep : Snapshot → String → Json → Snapshot
  asleep n action state =
      checkpoint
        (record n {
          pending_event = none;
          action_states = set_field (j.text_of n.pc) state n.action_states;
        })
        "call" m.now (field "action" (text action) (field "suspended" (boolean true) no_fields))

  -- The store is the one after the action's wait.
  unfoldable pub answered : Store → Snapshot → String → Option String → Reply → Round
  answered s n action save_as (throws message) = stops (s, raises message)
  answered s n action save_as (waits_until state wake_at duration) = stops (
      finish (
        wait_for_timer s j.id (asleep n action state) (or_else wake_at (m.now + duration)) lease
          m.now))
  answered s n action save_as (waits_for state topic key deadline) =
      suspend s (asleep n action state) topic key deadline
  answered s n action save_as (gives value) = settle s n action save_as value

  -- The event that the step takes: the pending one if it fits, or a queued one.
  unfoldable pub incoming : Store → Snapshot → String → String → Option PendingEvent
  incoming s n topic key = elim (matches n topic key) [
    | some p ↦ some p
    | none ↦ elim (consume_queued_event s j.id topic key) [
      | none ↦ none
      | some e ↦ some (pending e)
    ]
  ]

  unfoldable pub receive : Store → Snapshot → String → String → Option String → ℕ → Round
  receive s n topic key save_as timeout = elim (incoming s n topic key) [
    | some p ↦
        let n' =
          checkpoint
            (save (record (advance n) { pending_event = none }) (or_else save_as "event")
              (json_or (some p.payload) (object no_fields)))
            "await_event" m.now (field "eventId" (number p.id) no_fields) in
        goes_on
          (append_note (consume_event_and_checkpoint s j.id p.id n' lease m.now).0 j event_consumed)
          n'
    | none ↦
        let deadline = if timeout == 0 then none else some (m.now + timeout) in
        let n' =
          checkpoint n "await_event" m.now
            (field "topic" (text topic) (field "correlationKey" (text key) no_fields)) in
        stops (finish (wait_for_event s j.id n' topic key deadline lease m.now))
  ]

  abbrev pub emission : Store → Snapshot → String → String → Json → Publication
  emission s n topic key payload = record {
    topic = topic;
    correlation_key = key;
    payload = payload;
    source = "task:" ++ j.text_of j.id;
    idempotency_key = some ("task:" ++ j.text_of j.id ++ ":step:" ++ j.text_of n.pc);
    tenant_id = elim (get_goal s j.goal_id) [ none ↦ none | some g ↦ some g.tenant_id ];
    agent_id = elim (get_goal s j.goal_id) [ none ↦ none | some g ↦ some g.agent_id ];
    nonce = none;
    authenticated = true;
    auth_subject = some ("task:" ++ j.text_of j.id);
    decision = none;
    claimed_status = none;
  }

  unfoldable pub after_emission : Store → Snapshot → Publishing → Round
  after_emission s n (published e awakened duplicate) =
      goes_on (checkpoint_task s j.id n none lease m.now).0 n
  after_emission s n _ = stops (s, raises "The event was not published")

  unfoldable pub emit : Store → Snapshot → String → String → Json → Round
  emit s n topic key payload =
      let r = publish_event m.publication s (emission s n topic key payload) in
      let n' =
        checkpoint (advance n) "emit" m.now
          (field "topic" (text topic) (field "correlationKey" (text key) no_fields)) in
      after_emission r.0 n' r.1

  unfoldable pub run_step : Store → Snapshot → Step → Round
  run_step s n (recorded message) =
      let value = resolved n message in
      let n' = checkpoint (advance n) "record" m.now (field "message" value no_fields) in
      goes_on (checkpoint_task (append_note s j step_recorded) j.id n' none lease m.now).0 n'
  run_step s n (assigned name value) =
      let n' =
        checkpoint (save (advance n) name (resolved n value)) "set" m.now
          (field "variable" (text name) no_fields) in
      goes_on (checkpoint_task s j.id n' none lease m.now).0 n'
  run_step s n (called action input save_as) = answered (m.meanwhile s) n action save_as m.reply
  run_step s n (delayed duration) =
      let ms = j.number_value (resolved n duration) in
      let n' = checkpoint (advance n) "delay" m.now (field "durationMs" (number ms) no_fields) in
      stops (finish (wait_for_timer s j.id n' (m.now + ms) lease m.now))
  run_step s n (awaits_event topic key save_as timeout) =
      receive s n (j.text_value (resolved n topic)) (j.text_value (resolved n key)) save_as timeout
  run_step s n (emits topic key payload) =
      emit s n (j.text_value (resolved n topic)) (j.text_value (resolved n key))
        (resolved n (json_or payload (object no_fields)))
  run_step s n (completes result) =
      let value = resolved n (json_or result ok_result) in
      let n' = checkpoint (save (advance n) "output" value) "complete" m.now no_fields in
      stops (finish (complete_task s j.id n' value lease m.now))
  run_step s n (unsupported type) = stops (s, raises "Unsupported workflow step")

  -- The checks before the step.
  unfoldable pub run_round : Store → Snapshot → Round
  run_round s n = elim (get_task s j.id) [
    | none ↦ stops (s, returns none)
    | some t ↦
        if not (same t.lease_token lease)
        then stops (s, returns (some t))
        else if t.cancel_requested
        then stops (finish (cancel_running_task s j.id n lease m.now))
        else if t.pause_requested
        then stops (finish (pause_running_task s j.id n lease m.now))
        else if t.preempt_requested
        then stops (finish (preempt_running_task s j.id n lease m.now))
        else elim m.aborted [
          | some message ↦ stops (s, raises message)
          | none ↦ elim (step_at n.pc j.workflow) [
            | none ↦ stops (
                finish (
                  complete_task s j.id n (json_or (get_field "output" n.variables) ok_result) lease
                    m.now))
            | some step ↦ run_step s n step
          ]
        ]
  ]

unfoldable pub continue_with : (Store → Snapshot → Store × Outcome) → Round → Store × Outcome
continue_with rest (goes_on s n) = rest s n
continue_with rest (stops r) = r

-- The rounds that are left; round `n` is the moment of that index.
unfoldable pub run_rounds : Job → (ℕ → Moment) → ℕ → Store → Snapshot → Store × Outcome
run_rounds j moments zero s n = finish (yield_task s j.id n (some j.lease_token) (moments zero).now)
run_rounds j moments (suc k) s n =
    continue_with (λ s' n'. run_rounds j moments k s' n') (run_round j (moments (suc k)) s n)

abbrev pub first_snapshot : Job → Snapshot
first_snapshot j = record (j.snapshot) {
  variables = spread (field "objective" j.objective no_fields) j.snapshot.variables;
}

unfoldable pub execute_turn : Job → (ℕ → Moment) → Store → Store × Outcome
execute_turn j moments s = run_rounds j moments j.max_steps s (first_snapshot j)

-- ===== src/Workflow/Samples.antt =====
-- A turn of a task with two steps, and the theorems of the sibling modules applied to it.
use asynchronnous_agent_os.Prelude.{ℕ, ◌≢◌, refl, true, none, some, [], ◌∷◌, arith, ◌≡◌}
use asynchronnous_agent_os.Domain.{running, waiting, timer}
use asynchronnous_agent_os.Json.{null, number, text, field, no_fields}
use asynchronnous_agent_os.Table.{find, update}
use asynchronnous_agent_os.Store.{Store, Task, Snapshot, get_task, task_key}
use asynchronnous_agent_os.Store.Sample.{start, fresh, one_task}
use asynchronnous_agent_os.Lifecycle.Evolve.{IsSound}
use asynchronnous_agent_os.Lifecycle.Turn.{wait_for_timer, checkpoint_task}
use asynchronnous_agent_os.Lifecycle.Machine.{here}
use asynchronnous_agent_os.Workflow.Values.{resolve_value, checkpoint}
use asynchronnous_agent_os.Workflow.Types.{Moment, Job, Outcome, stops, recorded, delayed, gives}
use asynchronnous_agent_os.Workflow.Turn.{
  execute_turn, run_rounds, run_round, run_step, continue_with, first_snapshot,
}
use asynchronnous_agent_os.Workflow.Rounds.{Obeys, run_round-Obeys}
use asynchronnous_agent_os.Workflow.Ends.{execute_turn-IsReleased}

abbrev in_turn : Task
in_turn = record (fresh 1) {
  status = running;
  lease_owner = some 9;
  lease_token = some 31;
  lease_expires_at = some 900;
  attempt = 1;
}

abbrev in_turn_store : Store
in_turn_store = record one_task { tasks = in_turn ∷ [] }

abbrev two_steps : Job
two_steps = record {
  id = 1;
  goal_id = 7;
  lease_token = 31;
  workflow = recorded (text "hello") ∷ delayed (number 500) ∷ [];
  snapshot = start;
  objective = text "greet";
  max_steps = 4;
  expand = λ variables s. text s;
  text_value = λ v. "";
  number_value = λ v. 500;
  text_of = λ n. "1";
}

abbrev quiet : ℕ → Moment
quiet k = record {
  now = 200;
  aborted = none;
  reply = gives null;
  meanwhile = λ s. s;
  publication = record {
    now = 200;
    new_id = 90;
    bounded = λ i. true;
    same_json = λ a b. true;
    approval = none;
  };
}

abbrev asleep_at_end : Task
asleep_at_end = record in_turn {
  status = waiting;
  snapshot =
      checkpoint
        (record (checkpoint (record (first_snapshot two_steps) { pc = 1 }) "record" 200
          (field "message" (text "hello") no_fields)) { pc = 2 })
        "delay" 200 (field "durationMs" (number 500) no_fields);
  wait_kind = some timer;
  wake_at = some 700;
  lease_owner = none;
  lease_token = none;
  lease_expires_at = none;
  revision = 2;
  updated_at = 200;
}

in_turn-IsSound : IsSound in_turn_store
unfolding find
in_turn-IsSound = ground arith

execute_turn-IsReleased_example : asleep_at_end.lease_token ≢ some 31
unfolding execute_turn run_rounds run_round run_step continue_with wait_for_timer checkpoint_task
    find update resolve_value
execute_turn-IsReleased_example =
    execute_turn-IsReleased two_steps quiet in_turn_store (some asleep_at_end) asleep_at_end
      (λ k s. here) in_turn-IsSound refl refl

-- Round 4 records the message.
abbrev recorded_once : Snapshot
recorded_once =
    checkpoint (record start { pc = 1 }) "record" 200 (field "message" (text "hello") no_fields)

abbrev asked : Task
asked = record in_turn { pause_requested = true; preempt_requested = true }

abbrev asked_store : Store
asked_store = record one_task { tasks = asked ∷ [] }

asked-IsSound : IsSound asked_store
unfolding find
asked-IsSound = ground arith

run_round-Obeys_example :
    (r : Store × Outcome) × (run_round two_steps (quiet 4) asked_store start ≡ stops r)
    × ((u : Task) × (get_task r.0 1 ≡ some u) × Obeys two_steps (quiet 4) start asked u)
unfolding find
run_round-Obeys_example =
    run_round-Obeys two_steps (quiet 4) asked_store start asked asked-IsSound refl refl refl refl

-- ===== src/Scheduler/Samples.antt =====
-- A drain and a quantum, and the theorems of the sibling modules applied to them.
use asynchronnous_agent_os.Prelude.{
  ℕ, ◌≡◌, ◌≢◌, ◌≤◌, refl, true, false, none, some, [], ◌∷◌, arith, length,
}
use asynchronnous_agent_os.Json.{null, text}
use asynchronnous_agent_os.Table.{find, update}
use asynchronnous_agent_os.Store.{Store, Task, task_key, goal_key}
use asynchronnous_agent_os.Store.Sample.{start, fresh, one_task}
use asynchronnous_agent_os.Lifecycle.Evolve.{IsSound}
use asynchronnous_agent_os.Lifecycle.Machine.{here}
use asynchronnous_agent_os.Lifecycle.Turn.{claim_task, fail_task, failure}
use asynchronnous_agent_os.Claims.{acquire_resource_claims, requests}
use asynchronnous_agent_os.Workflow.Types.{Moment, Job, called, throws}
use asynchronnous_agent_os.Workflow.Turn.{
  execute_turn, run_rounds, run_round, run_step, continue_with, answered,
}
use asynchronnous_agent_os.Scheduler.Queue.{get_ready_tasks, sort, place, precedes}
use asynchronnous_agent_os.Scheduler.Drain.{
  Worker, Runtime, admitted, drain, consider, consider_each,
}
use asynchronnous_agent_os.Scheduler.Quantum.{
  Ending, ErrorCode, run_task, concluded, caught, announce,
}
use asynchronnous_agent_os.Scheduler.Capacity.{drain_bounded}
use asynchronnous_agent_os.Scheduler.Ends.{run_task-IsReleased}

abbrev worker : Worker
worker = record {
  id = 9;
  max_concurrency = 1;
  tick_ms = 200;
  lease_ms = 30000;
  admit = λ s t. admitted;
  declared = λ t. [];
  no_detail = null;
  deadline = λ g. none;
  draw = λ id. 31;
  launch = λ t s. s;
}

abbrev two_ready : Runtime
two_ready = record {
  store = record one_task { tasks = fresh 1 ∷ fresh 2 ∷ [] };
  claims = [];
  active = [];
}

-- One of the two ready tasks starts.
drain_starts : (drain worker 200 two_ready).active ≡ 1 ∷ []
unfolding drain consider consider_each get_ready_tasks sort place precedes claim_task
    acquire_resource_claims requests find update
drain_starts = refl

drain_bounded_example : length (drain worker 200 two_ready).active ≤ 1
drain_bounded_example = drain_bounded worker 200 two_ready (omega arith)

abbrev job : Job
job = record {
  id = 1;
  goal_id = 7;
  lease_token = 31;
  workflow = called "fetch" null none ∷ [];
  snapshot = start;
  objective = text "greet";
  max_steps = 4;
  expand = λ variables s. text s;
  text_value = λ v. "";
  number_value = λ v. 500;
  text_of = λ n. "1";
}

abbrev breaks : ℕ → Moment
breaks k = record {
  now = 200;
  aborted = none;
  reply = throws "No route";
  meanwhile = λ s. s;
  publication = record {
    now = 200;
    new_id = 90;
    bounded = λ i. true;
    same_json = λ a b. true;
    approval = none;
  };
}

abbrev ending : Ending
ending = record {
  now = 210;
  aborted = false;
  code = ErrorCode.other;
  publication = (breaks 0).publication;
}

abbrev claimed_store : Store
claimed_store = (claim_task one_task 1 9 31 30000 200).0

abbrev running_task : Runtime
running_task = record { store = claimed_store; claims = []; active = 1 ∷ [] }

abbrev retried : Task
retried =
    failure true "No route" 210 (record (fresh 1) { attempt = 1; revision = 1; updated_at = 200 })

claimed_store-IsSound : IsSound claimed_store
unfolding claim_task find update
claimed_store-IsSound = ground arith

run_task-IsReleased_example : retried.lease_token ≢ some 31
unfolding run_task concluded caught announce fail_task claim_task execute_turn run_rounds run_round
    run_step continue_with answered find update
run_task-IsReleased_example =
    run_task-IsReleased job ending breaks running_task retried (λ n s. here) claimed_store-IsSound
      refl

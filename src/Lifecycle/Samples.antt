-- ===== src/Lifecycle/Samples.antt =====
-- A store with a goal of four tasks, and the theorems of the sibling modules applied to it.
use asynchronnous_agent_os.Prelude.{
  ◌+◌, ◌≡◌, ◌≤◌, ◌<◌, refl, ◌⊎◌, true, false, none, some, [], ◌∷◌, arith,
}
use asynchronnous_agent_os.Domain.{timer, ready, running, waiting, blocked, failed}
use asynchronnous_agent_os.Domain.Goal.{GoalStatus}
use asynchronnous_agent_os.Json.{null}
use asynchronnous_agent_os.Table.{find, update}
use asynchronnous_agent_os.Store.{Store, Task, Goal, get_task, task_key}
use asynchronnous_agent_os.Store.Sample.{start, fresh, goal_of_tenant}
use asynchronnous_agent_os.Lifecycle.Evolve.{IsSound, SameOutcome}
use asynchronnous_agent_os.Lifecycle.Goals.{reconcile, reconcile_blocked}
use asynchronnous_agent_os.Lifecycle.Turn.{claimed, claim_task, complete_task, fail_task}
use asynchronnous_agent_os.Lifecycle.Sweep.{wake_due_timers, recover_expired_leases}
use asynchronnous_agent_os.Lifecycle.Machine.{
  Reach, here, next, claim, complete, final_stays, identity_stays,
}
use asynchronnous_agent_os.Lifecycle.Notice.{purge_session}
use asynchronnous_agent_os.Lifecycle.History.{starts, calls, purges, every_history-IsSound}
use asynchronnous_agent_os.Lifecycle.Swept.{
  LeaseSwept, TimerSwept, recover_expired_leases_lem, wake_due_timers_lem,
}
use asynchronnous_agent_os.Lifecycle.Fencing.{
  perform, completes, stale_worker, claim_task_lem, claim_twice,
}
use asynchronnous_agent_os.Lifecycle.Verdict.{Verdict, reconcile_blocked_lem}
use asynchronnous_agent_os.Lifecycle.OnePass.{reconcile_blocked_twice}
use asynchronnous_agent_os.Lifecycle.Stuck.{Chain, reconcile_stuck}
use asynchronnous_agent_os.Lifecycle.Failure.{fail_task_lem}

abbrev sleeper : Task
sleeper = record (fresh 2) { status = waiting; wait_kind = some timer; wake_at = some 150 }

abbrev worker_task : Task
worker_task = record (fresh 3) {
  status = running;
  lease_owner = some 9;
  lease_token = some 31;
  lease_expires_at = some 180;
  attempt = 1;
}

abbrev dependent : Task
dependent = record (fresh 4) { status = blocked; depends_on = 1 ∷ 3 ∷ [] }

abbrev lost : Task
lost = record (fresh 5) { status = failed; completed_at = some 90; failure_count = 3 }

abbrev sample : Store
sample = record {
  tasks = fresh 1 ∷ sleeper ∷ worker_task ∷ dependent ∷ lost ∷ [];
  goals =
      record {
        id = 7;
        status = GoalStatus.active;
        tenant_id = "default";
        agent_id = "main";
        updated_at = 100;
        completed_at = none;
      }
      ∷ [];
  events = [];
  deliveries = [];
  audit = [];
}

sample-IsSound : IsSound sample
unfolding find
sample-IsSound = ground arith

abbrev after_turn : Store
after_turn = (complete_task (claim_task sample 1 9 42 30000 200).0 1 start null (some 42) 210).0

turn-Reach : Reach sample after_turn
turn-Reach = next (next here (claim 1 9 42 30000 200)) (complete 1 start null (some 42) 210)

-- A goal that has failed, whose session is purged.
abbrev ended_goal : Goal
ended_goal = record (goal_of_tenant 7 "default") { status = GoalStatus.failed }

abbrev ended : Store
ended = record sample { tasks = lost ∷ []; goals = ended_goal ∷ [] }

ended-IsSound : IsSound ended
unfolding find
ended-IsSound = ground arith

abbrev purged : Store
purged = record { tasks = []; goals = []; events = []; deliveries = []; audit = [] }

every_history-IsSound_example : IsSound purged
unfolding purge_session find claim_task
every_history-IsSound_example =
    every_history-IsSound {s = ended} ended-IsSound
      (purges (λ g. true) (calls starts (claim 5 9 42 30000 200)) refl)

final_stays_example : (u : Task) × (get_task after_turn 5 ≡ some u) × SameOutcome lost u
unfolding find
final_stays_example = final_stays 5 lost sample-IsSound turn-Reach refl refl

identity_stays_example :
    (u : Task) × (get_task after_turn 4 ≡ some u)
    × (u.goal_id ≡ 7)
    × (u.depends_on ≡ 1 ∷ 3 ∷ [])
    × (u.max_attempts ≡ 3)
    × (0 ≤ u.revision)
    × (0 ≤ u.attempt)
unfolding find
identity_stays_example = identity_stays 4 dependent sample-IsSound turn-Reach refl

stale_worker_example : perform sample 3 30 200 (completes start null) ≡ sample
unfolding find
stale_worker_example =
    stale_worker sample 3 worker_task 30 200 (completes start null) refl (ground arith)

recover_expired_leases_lem_example :
    (u : Task) × (get_task (recover_expired_leases sample 190).0 3 ≡ some u)
    × LeaseSwept 190 worker_task u
unfolding find
recover_expired_leases_lem_example =
    recover_expired_leases_lem 190 sample 3 worker_task sample-IsSound refl

wake_due_timers_lem_example :
    (u : Task) × (get_task (wake_due_timers sample 160).0 2 ≡ some u) × TimerSwept 160 sleeper u
unfolding find
wake_due_timers_lem_example = wake_due_timers_lem 160 sample 2 sleeper sample-IsSound refl

claim_task_lem_example :
    ((true ≡ true)
      × ((claim_task sample 1 9 42 30000 200).1 ≡ some (claimed 9 42 30000 200 (fresh 1))))
    ⊎ ((true ≡ false) × (claim_task sample 1 9 42 30000 200 ≡ (sample, none)))
unfolding find
claim_task_lem_example = claim_task_lem sample 1 9 42 30000 200 (fresh 1) refl

claim_twice_example : (claim_task (claim_task sample 1 9 42 30000 200).0 1 8 43 30000 201).1 ≡ none
unfolding find claim_task update
claim_twice_example =
    claim_twice sample 1 9 42 30000 200 8 43 30000 201 (claimed 9 42 30000 200 (fresh 1)) refl

reconcile_blocked_twice_example :
    reconcile_blocked (reconcile_blocked sample 7 200) 7 300 ≡ reconcile_blocked sample 7 200
unfolding find
reconcile_blocked_twice_example =
    reconcile_blocked_twice 7 200 sample 300 sample-IsSound ((refl, (refl, tt)), tt)

abbrev end_of_chain : Task
end_of_chain = record (fresh 6) { status = blocked; depends_on = 8 ∷ [] }

abbrev middle_of_chain : Task
middle_of_chain = record (fresh 8) { status = blocked; depends_on = 5 ∷ [] }

abbrev chain : Store
chain = record sample { tasks = fresh 1 ∷ lost ∷ end_of_chain ∷ sleeper ∷ middle_of_chain ∷ [] }

chain-Chain : Chain chain 7 lost end_of_chain middle_of_chain
unfolding find
chain-Chain = ground arith

reconcile_blocked_lem_example :
    (u : Task) × (get_task (reconcile_blocked chain 7 200) 8 ≡ some u)
    × Verdict (reconcile_blocked chain 7 200) middle_of_chain u
unfolding find
reconcile_blocked_lem_example =
    reconcile_blocked_lem 7 200 chain 8 middle_of_chain (chain-Chain.distinct) refl

reconcile_stuck_example :
    (get_task (reconcile chain 7 200) 6 ≡ some end_of_chain)
    × (blocked ≡ blocked)
    × ((m : Task) × (get_task (reconcile chain 7 200) 8 ≡ some m) × (m.status ≡ failed))
    × ((reconcile chain 7 200).goals ≡ chain.goals)
reconcile_stuck_example = reconcile_stuck chain 7 200 lost end_of_chain middle_of_chain chain-Chain

fail_task_lem_example :
    (u : Task) × ((fail_task sample 3 "boom" true (some 31) 200).1 ≡ some u)
    × (u.failure_count ≡ 0 + 1)
    × (u.lease_token ≡ none)
    × (u.last_error ≡ some "boom")
    × (u.next_run_at ≤ 200 + 30000)
    × (((u.status ≡ ready) × (true ≡ true) × (0 + 1 < 3))
        ⊎ ((u.status ≡ failed) × (u.completed_at ≡ some 200) × ((true ≡ false) ⊎ (3 ≤ 0 + 1))))
unfolding find
fail_task_lem_example =
    fail_task_lem sample 3 "boom" true (some 31) 200 worker_task sample-IsSound refl refl refl

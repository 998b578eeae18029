-- ===== src/GoalGraph/Samples.antt =====
-- Graphs of tasks, and the theorems of the sibling modules applied to them.
use asynchronnous_agent_os.Prelude.{
  ℕ, ◌≤◌, refl, List, [], ◌∷◌, none, some, first, keep, length, same,
}
use asynchronnous_agent_os.Table.{find}
use asynchronnous_agent_os.Store.{Store, task_key, goal_key}
use asynchronnous_agent_os.Store.Sample.{start}
use asynchronnous_agent_os.Lifecycle.Evolve.{IsSound}
use asynchronnous_agent_os.Usage.Books.{Books, Contract, CapabilityStatus, contract_key, entry}
use asynchronnous_agent_os.Usage.Ledger.{open_contract}
use asynchronnous_agent_os.GoalGraph.Creation.{
  NewTask, NewGoal, check_parent, insert_tasks, insert_rows, create_goal_with_tasks, task_of,
  goal_of,
}
use asynchronnous_agent_os.GoalGraph.Rows.{
  create_goal_with_tasks-IsSound, create_goal_with_tasks-bounded,
}
use asynchronnous_agent_os.GoalGraph.{
  TaskInput, dependencies_of, visit_each, visit, search, check_tasks, check_each, find_duplicate,
}
use asynchronnous_agent_os.GoalGraph.Search.{Grounded, Depends}
use asynchronnous_agent_os.GoalGraph.Checks.{accepted_graph, refused_cycle}

abbrev input : ℕ → List ℕ → TaskInput
input id depends_on = record { id = id; depends_on = depends_on }

-- Task 3 needs 1 and 2, and 2 needs 1.
abbrev diamond : List TaskInput
diamond = input 3 (1 ∷ 2 ∷ []) ∷ input 2 (1 ∷ []) ∷ input 1 [] ∷ []

abbrev circle : List TaskInput
circle = input 1 (3 ∷ []) ∷ input 2 (1 ∷ []) ∷ input 3 (2 ∷ []) ∷ []

accepted_graph_example : Grounded diamond 3 × (Depends diamond 3 3 → ⊥)
unfolding check_tasks check_each find_duplicate search visit_each visit dependencies_of
accepted_graph_example = accepted_graph diamond 3 refl first

refused_cycle_example : Depends circle 1 1
unfolding check_tasks check_each find_duplicate search visit_each visit dependencies_of
refused_cycle_example = refused_cycle circle 1 refl

abbrev contract_of : ℕ → Contract
contract_of goal = record {
  goal_id = goal;
  agent_id = "main";
  tenant_id = "default";
  parent_goal_id = none;
  deadline_at = none;
  budget = ("maxFanOut", 2) ∷ ("maxDepth", 3) ∷ [];
  usage = [];
  capability_status = CapabilityStatus.active;
  capability_expires_at = none;
}

abbrev no_rows : Store
no_rows = record { tasks = []; goals = []; events = []; deliveries = []; audit = [] }

abbrev parent_books : Books
parent_books = record { contracts = contract_of 7 ∷ []; ledger = []; origins = [] }

abbrev step_of : ℕ → List ℕ → NewTask
step_of id depends_on = record {
  id = id;
  depends_on = depends_on;
  priority = 50;
  max_attempts = 3;
  snapshot = start;
}

abbrev child_goal : NewGoal
child_goal = record {
  contract = record (contract_of 8) { parent_goal_id = some 7 };
  spawn_depth = 1;
  tasks = step_of 1 [] ∷ step_of 2 (1 ∷ []) ∷ [];
}

abbrev with_child : Store
with_child = record no_rows {
  tasks = task_of 8 100 (step_of 1 []) ∷ task_of 8 100 (step_of 2 (1 ∷ [])) ∷ [];
  goals = goal_of child_goal.contract 100 ∷ [];
}

abbrev child_books : Books
child_books = record parent_books { contracts = contract_of 7 ∷ child_goal.contract ∷ [] }

create_goal_with_tasks-IsSound_example : IsSound with_child
unfolding create_goal_with_tasks insert_rows insert_tasks check_parent open_contract check_tasks
    check_each find_duplicate search visit_each visit dependencies_of find entry
create_goal_with_tasks-IsSound_example =
    create_goal_with_tasks-IsSound no_rows with_child parent_books child_books child_goal 100
      (record { distinct = tt; valid = tt }) refl

create_goal_with_tasks-bounded_example :
    length (keep (λ c. same c.parent_goal_id (some 7)) child_books.contracts) ≤ 2
unfolding create_goal_with_tasks insert_rows insert_tasks check_parent open_contract check_tasks
    check_each find_duplicate search visit_each visit dependencies_of find entry
create_goal_with_tasks-bounded_example =
    create_goal_with_tasks-bounded no_rows with_child parent_books child_books child_goal 100 7
      (contract_of 7) refl refl refl

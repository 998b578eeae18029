-- ===== src/GoalGraph.antt =====
-- src/infra/store.js, createGoalWithTasks: the validation of the tasks of a new goal and of the graph
-- of their dependencies, which stands before the transaction. Task ids are texts that are only
-- compared: they are numbers. The bounds on the lengths of texts are left out.
pub mod Search
pub mod Decision
pub mod Checks
pub mod Creation
pub mod Rows
mod Samples
use asynchronnous_agent_os.Prelude.{
  ℕ, zero, suc, Bool, true, false, ◌&&◌, ◌||◌, not, List, [], ◌∷◌, Option, none, some, length,
  contains, if◌then◌else◌, ◌==◌, any, all, ltb, leb, map,
}

-- The part of a task's input that is checked.
pub record TaskInput : Type 0 where
  pub id : ℕ
  pub depends_on : List ℕ

pub data Refusal : Type 0 where
  bad_count : Refusal
  duplicate_id too_many_dependencies outside_graph depends_on_itself cycle_at : ℕ → Refusal

abbrev pub ids : List TaskInput → List ℕ
ids tasks = map (λ t. t.id) tasks

-- The ids are added to `taskIds` one by one.
unfoldable pub find_duplicate : List ℕ → List TaskInput → Option ℕ
find_duplicate seen [] = none
find_duplicate seen (t ∷ tasks) =
    let rest = find_duplicate (t.id ∷ seen) tasks in if contains t.id seen then some t.id else rest

abbrev pub check_dependencies : List ℕ → ℕ → List ℕ → Option Refusal
check_dependencies known task [] = none
check_dependencies known task (d ∷ deps) =
    let rest = check_dependencies known task deps in
    if not (contains d known)
    then some (outside_graph d)
    else if d == task
    then some (depends_on_itself task)
    else rest

unfoldable pub check_each : List ℕ → List TaskInput → Option Refusal
check_each known [] = none
check_each known (t ∷ tasks) =
    let rest = check_each known tasks in
    if ltb 256 (length t.depends_on)
    then some (too_many_dependencies t.id)
    else elim (check_dependencies known t.id t.depends_on) [ some e ↦ some e | none ↦ rest ]

-- `dependencyGraph.get(taskId) ?? []`
unfoldable pub dependencies_of : List TaskInput → ℕ → List ℕ
dependencies_of [] task = []
dependencies_of (t ∷ tasks) task = if t.id == task then t.depends_on else dependencies_of tasks task

-- What a visit comes to; a visit that finishes returns the visited set, the last visited first.
pub data Visit : Type 0 where
  finished : List ℕ → Visit
  cycle : ℕ → Visit
  out_of_fuel : Visit

-- `for (const dependency of ...) visit(dependency)`, where a visit changes the visited set.
unfoldable pub visit_each : (List ℕ → ℕ → Visit) → List ℕ → List ℕ → Visit
visit_each body visited [] = finished visited
visit_each body visited (task ∷ tasks) = elim (body visited task) [
  | finished visited' ↦ visit_each body visited' tasks
  | cycle at ↦ cycle at
  | out_of_fuel ↦ out_of_fuel
]

abbrev pub add_visited : ℕ → Visit → Visit
add_visited task (finished visited) = finished (task ∷ visited)
add_visited task (cycle at) = cycle at
add_visited task out_of_fuel = out_of_fuel

-- A call costs one unit of fuel for each task on the path to it.
unfoldable pub visit : ℕ → List TaskInput → List ℕ → List ℕ → ℕ → Visit
visit zero graph visiting visited task = out_of_fuel
visit (suc n) graph visiting visited task =
    let below =
      visit_each (λ seen t. visit n graph (task ∷ visiting) seen t) visited
        (dependencies_of graph task) in
    if contains task visiting
    then cycle task
    else if contains task visited
    then finished visited
    else add_visited task below

unfoldable pub search : List TaskInput → Visit
search tasks = visit_each (λ seen t. visit (suc (length tasks)) tasks [] seen t) [] (ids tasks)

-- The checks in their order; `none` where the goal may be created.
unfoldable pub check_tasks : List TaskInput → Option Refusal
check_tasks tasks =
    if length tasks == 0 || ltb 256 (length tasks)
    then some bad_count
    else elim (find_duplicate [] tasks) [
      | some id ↦ some (duplicate_id id)
      | none ↦ elim (check_each (ids tasks) tasks) [
        | some e ↦ some e
        | none ↦ elim (search tasks) [
          | finished visited ↦ none
          | cycle task ↦ some (cycle_at task)
          | out_of_fuel ↦ none
        ]
      ]
    ]

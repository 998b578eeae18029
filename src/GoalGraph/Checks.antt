-- ===== src/GoalGraph/Checks.antt =====
-- All the checks of a goal's tasks.
use asynchronnous_agent_os.Prelude.{
  ℕ, ◌≡◌, ◌≢◌, refl, ◌⊎◌, inl, inr, List, [], ◌∷◌, arith, ◌==◌, Bool-cases, In, first, later, none,
  some,
}
use asynchronnous_agent_os.GoalGraph.{
  TaskInput, ids, dependencies_of, check_tasks, cycle_at, check_each, check_dependencies,
}
use asynchronnous_agent_os.GoalGraph.Search.{
  Grounded, grounded, Depends, direct, chain, contains-In,
}
use asynchronnous_agent_os.GoalGraph.Decision.{Closed, search_decides}

check_dependencies-none :
    (known : List ℕ) (task d : ℕ) (deps : List ℕ)
    → check_dependencies known task deps ≡ none
    → In d deps
    → In d known
check_dependencies-none known task d [] h m = elim m [ ]
check_dependencies-none known task _ (d ∷ deps) h first = contains-In d known (ground arith)
check_dependencies-none known task d (x ∷ deps) h (later m) =
    check_dependencies-none known task d deps (ground arith) m

check_each-none :
    (known : List ℕ) (tasks : List TaskInput) (t d : ℕ)
    → check_each known tasks ≡ none
    → In d (dependencies_of tasks t)
    → In d known
unfolding check_each dependencies_of
check_each-none known [] t d h m = elim m [ ]
check_each-none known (x ∷ tasks) t d h m = elim (Bool-cases (x.id == t)) [
  | inl here ↦
      let own : In d x.depends_on = rw here at m in
      check_dependencies-none known x.id d x.depends_on (ground arith) own
  | inr there ↦ check_each-none known tasks t d (ground arith) (rw there at m)
]

-- The checks of the dependencies report no cycle.
check_dependencies-cycle :
    (known : List ℕ) (task : ℕ) (deps : List ℕ) (t : ℕ)
    → check_dependencies known task deps ≢ some (cycle_at t)
check_dependencies-cycle known task [] t = λ e. absurd (cc e)
check_dependencies-cycle known task (d ∷ deps) t =
    ground (arith, check_dependencies-cycle known task deps t)

check_each-cycle :
    (known : List ℕ) (tasks : List TaskInput) (t : ℕ) → check_each known tasks ≢ some (cycle_at t)
unfolding check_each
check_each-cycle known [] t = λ e. absurd (cc e)
check_each-cycle known (x ∷ tasks) t =
    ground
      (arith, check_each-cycle known tasks t, check_dependencies-cycle known x.id x.depends_on t)

module _ (tasks : List TaskInput) where
  -- The first step of a chain.
  Depends-first :
      {a c : ℕ}
      → Depends tasks a c
      → (b : ℕ) × In b (dependencies_of tasks a) × ((b ≡ c) ⊎ Depends tasks b c)
  Depends-first (direct {a} {b} m) = (b, m, inl refl)
  Depends-first (chain path m) =
      let (b, n, more) = Depends-first path in
      elim more [
        | inl e ↦ (b, n, inr (rw e (direct m)))
        | inr longer ↦ (b, n, inr (chain longer m))
      ]

  Grounded-Depends : {t : ℕ} → Grounded tasks t → Depends tasks t t → ⊥
  Grounded-Depends (grounded {t} below) path =
      let (b, m, more) = Depends-first path in
      elim more [
        | inl e ↦ Grounded-Depends (below b m) (rw e (direct (rw e at m)))
        | inr longer ↦ Grounded-Depends (below b m) (chain longer m)
      ]

  check_tasks-Closed : check_tasks tasks ≡ none → Closed tasks
  unfolding check_tasks
  check_tasks-Closed h t d m = check_each-none (ids tasks) tasks t d (ground arith) m

  -- A task of a goal that passes the checks heads no endless chain of dependencies, and does not
  -- depend on itself along a chain.
  pub accepted_graph :
      (t : ℕ)
      → check_tasks tasks ≡ none
      → In t (ids tasks)
      → Grounded tasks t × (Depends tasks t t → ⊥)
  unfolding check_tasks
  accepted_graph t h m = elim (search_decides tasks (check_tasks-Closed h)) [
    | inl (visited, e, all_) ↦ (all_ t m, Grounded-Depends (all_ t m))
    | inr (u, e, around) ↦ ground arith
  ]

  -- A task that a refusal reports as on a cycle depends on itself along a chain.
  pub refused_cycle : (t : ℕ) → check_tasks tasks ≡ some (cycle_at t) → Depends tasks t t
  unfolding check_tasks
  refused_cycle t h =
      let checked : check_each (ids tasks) tasks ≡ none =
        ground (arith, check_each-cycle (ids tasks) tasks t) in
      let closed : Closed tasks = λ u d m. check_each-none (ids tasks) tasks u d checked m in
      elim (search_decides tasks closed) [
        | inl (visited, e, all_) ↦ ground arith
        | inr (u, e, around) ↦ let same : u ≡ t = ground arith in rw same at around
      ]

-- ===== src/GoalGraph/Decision.antt =====
-- The search has fuel enough, so that the checks decide whether the graph has a cycle.
use asynchronnous_agent_os.Prelude.{
  ℕ, zero, suc, ◌≤◌, ◌<◌, ◌≡◌, refl, ◌⊎◌, inl, inr, Bool, true, false, List, [], ◌∷◌, arith, length,
  contains, if◌then◌else◌, ==_refl, Bool-cases, In, first, later,
}
use asynchronnous_agent_os.GoalGraph.{
  TaskInput, ids, dependencies_of, Visit, finished, cycle, out_of_fuel, visit_each, add_visited,
  visit, search,
}
use asynchronnous_agent_os.GoalGraph.Search.{Grounded, Depends, Finishes, search-Finishes}

-- How many entries are not in a list.
abbrev missing : List ℕ → List ℕ → ℕ
missing visiting [] = 0
missing visiting (x ∷ xs) =
    let rest = missing visiting xs in if contains x visiting then rest else suc rest

missing_mono :
    (task : ℕ) (visiting xs : List ℕ) → missing (task ∷ visiting) xs ≤ missing visiting xs
missing_mono task visiting [] = ground arith
missing_mono task visiting (x ∷ xs) = ground (arith, missing_mono task visiting xs)

missing_less :
    (task : ℕ) (visiting xs : List ℕ)
    → In task xs
    → contains task visiting ≡ false
    → missing (task ∷ visiting) xs < missing visiting xs
missing_less task visiting [] m h = elim m [ ]
missing_less task visiting (x ∷ xs) first h = ground (arith, missing_mono x visiting xs, ==_refl x)
missing_less task visiting (x ∷ xs) (later m) h = ground (arith, missing_less task visiting xs m h)

missing_none : (xs : List ℕ) → missing [] xs ≡ length xs
missing_none [] = refl
missing_none (x ∷ xs) = ground (arith, missing_none xs)

length-ids : (tasks : List TaskInput) → length (ids tasks) ≡ length tasks
length-ids [] = refl
length-ids (t ∷ tasks) = ground (arith, length-ids tasks)

-- Every dependency is a task of the graph.
abbrev pub Closed : List TaskInput → Type 0
Closed graph = (t d : ℕ) → In d (dependencies_of graph t) → In d (ids graph)

abbrev ends : Visit → Bool
ends (finished visited) = true
ends (cycle at) = true
ends out_of_fuel = false

visit_each_turn :
    (body : List ℕ → ℕ → Visit) (visited : List ℕ) (task : ℕ) (tasks : List ℕ)
    → ((visited' : List ℕ) → ends (visit_each body visited' tasks) ≡ true)
    → (v : Visit) → body visited task ≡ v
    → ends v ≡ true
    → ends (visit_each body visited (task ∷ tasks)) ≡ true
unfolding visit_each
visit_each_turn body visited task tasks rest (finished visited') e h = ground (arith, rest visited')
visit_each_turn body visited task tasks rest (cycle at) e h = ground arith
visit_each_turn body visited task tasks rest out_of_fuel e h = ground arith

visit_each-ends :
    (body : List ℕ → ℕ → Visit) (visited tasks : List ℕ)
    → ((seen : List ℕ) (t : ℕ) → In t tasks → ends (body seen t) ≡ true)
    → ends (visit_each body visited tasks) ≡ true
unfolding visit_each
visit_each-ends body visited [] h = refl
visit_each-ends body visited (task ∷ tasks) h =
    visit_each_turn body visited task tasks
      (λ visited'. visit_each-ends body visited' tasks (λ seen t m. h seen t (later m)))
      (body visited task) refl (h visited task first)

add_visited-ends : (task : ℕ) (v : Visit) → ends v ≡ true → ends (add_visited task v) ≡ true
add_visited-ends task (finished visited) h = refl
add_visited-ends task (cycle at) h = refl
add_visited-ends task out_of_fuel h = h

module _ (graph : List TaskInput) (closed : Closed graph) where
  visit-ends :
      (n : ℕ) (visiting visited : List ℕ) (task : ℕ)
      → missing visiting (ids graph) < n
      → In task (ids graph)
      → ends (visit n graph visiting visited task) ≡ true
  unfolding visit
  visit-ends zero visiting visited task h m = ground arith
  visit-ends (suc n) visiting visited task h m = elim (Bool-cases (contains task visiting)) [
    | inl around ↦ rw around refl
    | inr fresh ↦ elim (Bool-cases (contains task visited)) [
      | inl seen ↦ rw (fresh, seen) refl
      | inr unseen ↦
          let fewer : missing (task ∷ visiting) (ids graph) < n =
            ground (arith, missing_less task visiting (ids graph) m fresh) in
          rw (fresh, unseen)
            (add_visited-ends task (visit_each body visited (dependencies_of graph task)) (
              visit_each-ends body visited (dependencies_of graph task)
                (λ seen d k. visit-ends n (task ∷ visiting) seen d fewer (closed task d k))))
    ]
  ]
    where
      body : List ℕ → ℕ → Visit
      body seen t = visit n graph (task ∷ visiting) seen t

  search-ends : ends (search graph) ≡ true
  unfolding search
  search-ends =
      visit_each-ends (λ seen t. visit (suc (length graph)) graph [] seen t) [] (ids graph)
        (λ seen t m.
          visit-ends (suc (length graph)) [] seen t
            (ground (arith, missing_none (ids graph), length-ids graph)) m)

  -- Where every dependency is a task of the graph, the search ends: it finishes, and then every chain
  -- of dependencies from every task ends, or it reports a task that depends on itself along a chain.
  pub search_decides :
      ((visited : List ℕ) × (search graph ≡ finished visited)
        × ((t : ℕ) → In t (ids graph) → Grounded graph t))
      ⊎ ((t : ℕ) × (search graph ≡ cycle t) × Depends graph t t)
  search_decides = decide (search graph) refl search-ends (search-Finishes graph)
    where
      decide :
          (v : Visit)
          → search graph ≡ v
          → ends v ≡ true
          → Finishes graph [] (ids graph) v
          → ((visited : List ℕ) × (search graph ≡ finished visited)
              × ((t : ℕ) → In t (ids graph) → Grounded graph t))
            ⊎ ((t : ℕ) × (search graph ≡ cycle t) × Depends graph t t)
      decide (finished visited) e h (safe, new, old) = inl (visited, e, λ t m. safe t (new t m))
      decide (cycle t) e h around = inr (t, e, around)
      decide out_of_fuel e h u = ground arith

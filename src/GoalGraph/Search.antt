-- ===== src/GoalGraph/Search.antt =====
-- The search for a cycle: a task that it finishes heads no endless chain of dependencies, a cycle that
-- it reports is one, and the fuel is enough.
use asynchronnous_agent_os.Prelude.{
  ℕ, zero, suc, ◌≡◌, refl, inl, inr, true, List, [], ◌∷◌, arith, length, contains, ◌==◌, ==_iff,
  Bool-cases, In, first, later,
}
use asynchronnous_agent_os.GoalGraph.{
  TaskInput, ids, dependencies_of, Visit, finished, cycle, out_of_fuel, visit_each, add_visited,
  visit, search,
}

-- Every chain of dependencies from the task ends.
pub data Grounded (graph : List TaskInput) : ℕ → Type 0 where
  grounded :
      {t : ℕ} → ((d : ℕ) → In d (dependencies_of graph t) → Grounded graph d) → Grounded graph t

-- A chain of one or more dependencies.
pub data Depends (graph : List TaskInput) : ℕ → ℕ → Type 0 where
  direct : {a b : ℕ} → In b (dependencies_of graph a) → Depends graph a b
  chain : {a b c : ℕ} → Depends graph a b → In c (dependencies_of graph b) → Depends graph a c

pub contains-In : (a : ℕ) (xs : List ℕ) → contains a xs ≡ true → In a xs
contains-In a [] h = absurd (cc h)
contains-In a (x ∷ xs) h = elim (Bool-cases (x == a)) [
  | inl e ↦ let same : x ≡ a = (==_iff x a).0 e in rw same first
  | inr e ↦ later (contains-In a xs (ground arith))
]

module _ (graph : List TaskInput) where
  -- All entries of the visited list are grounded.
  abbrev pub Safe : List ℕ → Type 0
  Safe visited = (t : ℕ) → In t visited → Grounded graph t

  -- What a visit guarantees: those visited before stay, and the new ones are grounded.
  abbrev pub Finishes : List ℕ → List ℕ → Visit → Type 0
  Finishes visited tasks (finished visited') =
      Safe visited'
      × ((t : ℕ) → In t tasks → In t visited')
      × ((t : ℕ) → In t visited → In t visited')
  Finishes visited tasks (cycle at) = Depends graph at at
  Finishes visited tasks out_of_fuel = Unit

  -- The tasks on the path to the visited one depend on it.
  abbrev pub OnPath : List ℕ → ℕ → Type 0
  OnPath visiting task = (v : ℕ) → In v visiting → Depends graph v task

  Finishes-then :
      (visited visited' tasks : List ℕ) (task : ℕ)
      → In task visited'
      → ((t : ℕ) → In t visited → In t visited')
      → (v : Visit) → Finishes visited' tasks v
      → Finishes visited (task ∷ tasks) v
  Finishes-then visited visited' tasks task here kept (finished all_) (safe, new, old) =
      (safe, entries, λ t m. old t (kept t m))
    where
      entries : (t : ℕ) → In t (task ∷ tasks) → In t all_
      entries _ first = old task here
      entries t (later m) = new t m
  Finishes-then visited visited' tasks task here kept (cycle at) around = around
  Finishes-then visited visited' tasks task here kept out_of_fuel u = tt

  -- One turn of the loop, where the rest of it does as it should.
  visit_each-turn :
      (body : List ℕ → ℕ → Visit) (visited : List ℕ) (task : ℕ) (tasks : List ℕ)
      → ((visited' : List ℕ)
          → Safe visited'
          → Finishes visited' tasks (visit_each body visited' tasks))
      → (v : Visit) → body visited task ≡ v
      → Finishes visited (task ∷ []) v
      → Finishes visited (task ∷ tasks) (visit_each body visited (task ∷ tasks))
  unfolding visit_each
  visit_each-turn body visited task tasks rest (finished visited') e (safe, new, old) =
      let q : visit_each body visited (task ∷ tasks) ≡ visit_each body visited' tasks =
        ground arith in
      rw q (
        Finishes-then visited visited' tasks task (new task first) old
          (visit_each body visited' tasks) (rest visited' safe))
  visit_each-turn body visited task tasks rest (cycle at) e around =
      let q : visit_each body visited (task ∷ tasks) ≡ cycle at = ground arith in rw q around
  visit_each-turn body visited task tasks rest out_of_fuel e u =
      let q : visit_each body visited (task ∷ tasks) ≡ out_of_fuel = ground arith in rw q tt

  visit_each-Finishes :
      (body : List ℕ → ℕ → Visit) (visited tasks : List ℕ)
      → ((seen : List ℕ) (t : ℕ) → In t tasks → Safe seen → Finishes seen (t ∷ []) (body seen t))
      → Safe visited
      → Finishes visited tasks (visit_each body visited tasks)
  unfolding visit_each
  visit_each-Finishes body visited [] h s = (s, λ t m. elim m [ ], λ t m. m)
  visit_each-Finishes body visited (task ∷ tasks) h s =
      visit_each-turn body visited task tasks
        (λ visited' safe.
          visit_each-Finishes body visited' tasks (λ seen t m. h seen t (later m)) safe)
        (body visited task) refl (h visited task first s)

  -- A task whose dependencies are all visited is grounded.
  add_visited-Finishes :
      (visited : List ℕ) (task : ℕ) (v : Visit)
      → Finishes visited (dependencies_of graph task) v
      → Finishes visited (task ∷ []) (add_visited task v)
  add_visited-Finishes visited task (finished visited') (safe, new, old) =
      (all_safe, single, λ t m. later (old t m))
    where
      all_safe : Safe (task ∷ visited')
      all_safe _ first = grounded (λ d m. safe d (new d m))
      all_safe t (later m) = safe t m

      single : (t : ℕ) → In t (task ∷ []) → In t (task ∷ visited')
      single _ first = first
      single t (later m) = elim m [ ]
  add_visited-Finishes visited task (cycle at) around = around
  add_visited-Finishes visited task out_of_fuel u = tt

  visited-Finishes :
      (visited : List ℕ) (task : ℕ)
      → In task visited
      → Safe visited
      → Finishes visited (task ∷ []) (finished visited)
  visited-Finishes visited task m s = (s, single, λ t n. n)
    where
      single : (t : ℕ) → In t (task ∷ []) → In t visited
      single _ first = m
      single t (later n) = elim n [ ]

  deeper :
      (visiting : List ℕ) (task d : ℕ)
      → OnPath visiting task
      → In d (dependencies_of graph task)
      → OnPath (task ∷ visiting) d
  deeper visiting task d p m _ first = direct m
  deeper visiting task d p m v (later n) = chain (p v n) m

  visit-Finishes :
      (n : ℕ) (visiting visited : List ℕ) (task : ℕ)
      → OnPath visiting task
      → Safe visited
      → Finishes visited (task ∷ []) (visit n graph visiting visited task)
  unfolding visit
  visit-Finishes zero visiting visited task p s = tt
  visit-Finishes (suc n) visiting visited task p s = elim (Bool-cases (contains task visiting)) [
    | inl around ↦ rw around (p task (contains-In task visiting around))
    | inr fresh ↦ elim (Bool-cases (contains task visited)) [
      | inl seen ↦
          rw (fresh, seen) (visited-Finishes visited task (contains-In task visited seen) s)
      | inr unseen ↦
          rw (fresh, unseen)
            (add_visited-Finishes visited task below (
              visit_each-Finishes body visited (dependencies_of graph task)
                (λ seen d m safe.
                  visit-Finishes n (task ∷ visiting) seen d (deeper visiting task d p m) safe)
                s))
    ]
  ]
    where
      body : List ℕ → ℕ → Visit
      body seen t = visit n graph (task ∷ visiting) seen t

      below : Visit
      below = visit_each body visited (dependencies_of graph task)

  pub search-Finishes : Finishes [] (ids graph) (search graph)
  unfolding search
  search-Finishes =
      visit_each-Finishes (λ seen t. visit (suc (length graph)) graph [] seen t) [] (ids graph)
        (λ seen t m s. visit-Finishes (suc (length graph)) [] seen t (λ v n. elim n [ ]) s)
        (λ t m. elim m [ ])

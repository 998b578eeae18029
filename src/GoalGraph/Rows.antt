-- ===== src/GoalGraph/Rows.antt =====
-- The rows of a new goal are valid, and its parent stays within its fan-out.
use asynchronnous_agent_os.Prelude.{
  ℕ, suc, ◌≤◌, ◌≡◌, refl, Bool, false, List, [], ◌∷◌, ◌++◌, none, some, arith, ◌==◌, ==_iff, same,
  All, length, keep, Option-cases, inl, inr,
}
use asynchronnous_agent_os.Table.{find, Distinct}
use asynchronnous_agent_os.Store.{Store, Task, task_key, goal_key}
use asynchronnous_agent_os.Lifecycle.Evolve.{IsValid, IsSound}
use asynchronnous_agent_os.Usage.Books.{Books, Contract, contract_key, get_goal_contract, used}
use asynchronnous_agent_os.Usage.Ledger.{open_contract}
use asynchronnous_agent_os.GoalGraph.Creation.{
  NewTask, NewGoal, made, children, check_parent, task_of, insert_tasks, insert_rows,
  create_goal_with_tasks,
}

find-append-none :
    (i : ℕ) (xs : List Task) (t : Task)
    → find i xs ≡ none
    → (t.id == i) ≡ false
    → find i (xs ++ (t ∷ [])) ≡ none
unfolding find
find-append-none i [] t e ne = ground arith
find-append-none i (x ∷ xs) t e ne = ground (arith, find-append-none i xs t)

Distinct-append :
    (xs : List Task) (t : Task) → Distinct xs → find t.id xs ≡ none → Distinct (xs ++ (t ∷ []))
unfolding find
Distinct-append [] t d e = (refl, tt)
Distinct-append (x ∷ xs) t d e = (
  find-append-none x.id xs t d.0 (ground (arith, ==_iff x.id t.id, ==_iff t.id x.id)),
  Distinct-append xs t d.1 (ground arith),
)

All-append : (xs : List Task) (t : Task) → All IsValid xs → IsValid t → All IsValid (xs ++ (t ∷ []))
All-append [] t a v = (v, tt)
All-append (x ∷ xs) t a v = (a.0, All-append xs t a.1 v)

insert_tasks-IsValid :
    (goal now : ℕ) (rows : List Task) (tasks : List NewTask) (rows' : List Task)
    → Distinct rows × All IsValid rows
    → insert_tasks goal now rows tasks ≡ some rows'
    → Distinct rows' × All IsValid rows'
unfolding insert_tasks
insert_tasks-IsValid goal now rows [] rows' h e = let is : rows ≡ rows' = ground arith in rw is at h
insert_tasks-IsValid goal now rows (t ∷ tasks) rows' h e = elim (Option-cases (find t.id rows)) [
  | inr (r, f) ↦ ground arith
  | inl f ↦
      let v : IsValid (task_of goal now t) = ground arith in
      insert_tasks-IsValid goal now (rows ++ (task_of goal now t ∷ [])) tasks rows'
        (
          Distinct-append rows (task_of goal now t) h.0 f,
          All-append rows (task_of goal now t) h.1 v,
        )
        (ground arith)
]

-- A goal that is created keeps the tables sound: no two tasks have one id, and the new tasks are
-- valid, as the old ones are.
pub create_goal_with_tasks-IsSound :
    (s s' : Store) (b b' : Books) (g : NewGoal) (now : ℕ)
    → IsSound s
    → create_goal_with_tasks s b g now ≡ made s' b'
    → IsSound s'
unfolding create_goal_with_tasks insert_rows
create_goal_with_tasks-IsSound s s' b b' g now h e =
    elim (Option-cases (insert_tasks g.contract.goal_id now s.tasks g.tasks)) [
      | inl f ↦ ground arith
      | inr (tasks, f) ↦
          let (d, v) =
            insert_tasks-IsValid g.contract.goal_id now s.tasks g.tasks tasks (h.distinct, h.valid)
              f in
          let is : tasks ≡ s'.tasks = ground arith in
          record { distinct = rw is at d; valid = rw is at v }
    ]

find-append :
    (i : ℕ) (xs : List Task) (t u : Task) → find i xs ≡ some u → find i (xs ++ (t ∷ [])) ≡ some u
unfolding find
find-append i [] t u e = ground arith
find-append i (x ∷ xs) t u e = ground (arith, find-append i xs t u)

insert_tasks-kept :
    (goal now : ℕ) (rows : List Task) (tasks : List NewTask) (rows' : List Task) (i : ℕ) (u : Task)
    → find i rows ≡ some u
    → insert_tasks goal now rows tasks ≡ some rows'
    → find i rows' ≡ some u
unfolding insert_tasks
insert_tasks-kept goal now rows [] rows' i u f e =
    let is : rows ≡ rows' = ground arith in rw is at f
insert_tasks-kept goal now rows (t ∷ tasks) rows' i u f e = elim (Option-cases (find t.id rows)) [
  | inr (r, g) ↦ ground arith
  | inl g ↦
      insert_tasks-kept goal now (rows ++ (task_of goal now t ∷ [])) tasks rows' i u
        (find-append i rows (task_of goal now t) u f) (ground arith)
]

-- A goal that is created leaves every other row of `tasks` as it was.
pub create_goal_with_tasks-kept :
    (s s' : Store) (b b' : Books) (g : NewGoal) (now i : ℕ) (u : Task)
    → find i s.tasks ≡ some u
    → create_goal_with_tasks s b g now ≡ made s' b'
    → find i s'.tasks ≡ some u
unfolding create_goal_with_tasks insert_rows
create_goal_with_tasks-kept s s' b b' g now i u f e =
    elim (Option-cases (insert_tasks g.contract.goal_id now s.tasks g.tasks)) [
      | inl x ↦ ground arith
      | inr (tasks, x) ↦
          let is : tasks ≡ s'.tasks = ground arith in
          rw is at (insert_tasks-kept g.contract.goal_id now s.tasks g.tasks tasks i u f x)
    ]

keep-one :
    (test : Contract → Bool) (xs : List Contract) (c : Contract)
    → length (keep test (xs ++ (c ∷ []))) ≤ suc (length (keep test xs))
keep-one test [] c = ground arith
keep-one test (x ∷ xs) c = ground (arith, keep-one test xs c)

children-open :
    (b b' : Books) (c : Contract) (p : ℕ)
    → open_contract b c ≡ some b'
    → children b' p ≤ suc (children b p)
unfolding open_contract
children-open b b' c p e = elim (Option-cases (get_goal_contract b c.goal_id)) [
  | inr (d, f) ↦ ground arith
  | inl f ↦
      let is : b.contracts ++ (c ∷ []) ≡ b'.contracts = ground arith in
      rw is at (keep-one (λ x. same x.parent_goal_id (some p)) b.contracts c)
]

-- A goal that is created under a parent leaves the parent with at most as many children as its
-- budget's fan-out.
pub create_goal_with_tasks-bounded :
    (s s' : Store) (b b' : Books) (g : NewGoal) (now p : ℕ) (parent : Contract)
    → g.contract.parent_goal_id ≡ some p
    → get_goal_contract b p ≡ some parent
    → create_goal_with_tasks s b g now ≡ made s' b'
    → children b' p ≤ used "maxFanOut" parent.budget
unfolding create_goal_with_tasks insert_rows check_parent
create_goal_with_tasks-bounded s s' b b' g now p parent e f h =
    let opened : open_contract b g.contract ≡ some b' = ground arith in
    ground (arith, children-open b b' g.contract p opened)

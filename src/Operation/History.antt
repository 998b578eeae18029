-- ===== src/Operation/History.antt =====
-- src/kernel/operation-manager.js, execute: one call after the other under one key. `execute` hands
-- the same promise to calls that overlap in one process, so that their bodies do not overlap.
use asynchronnous_agent_os.Prelude.{
  ℕ, ◌+◌, ◌≤◌, ◌≡◌, refl, ◌⊎◌, inl, inr, true, false, String, List, [], ◌∷◌, ◌++◌, Option, none,
  some, arith, str_eq, eq_iff, Bool-cases, not, ◌&&◌,
}
use asynchronnous_agent_os.Json.{Json}
use asynchronnous_agent_os.Table.{find}
use asynchronnous_agent_os.Operation.{
  prepared, non_idempotent, Operation, operation_key, Error, find_by_key, Result, ok, err, mode_eq,
}
use asynchronnous_agent_os.Operation.Manager.{
  Phase, goes, ends, World, Tool, Context, Setting, Run, new_operation, admit, prepare_operation,
  prepare_new, Reply, returns, throws, dies, phase_of, stop, raises, gone, Answer, replay_matches,
}
use asynchronnous_agent_os.Operation.Execute.{execute_once}
use asynchronnous_agent_os.Operation.KeyRows.{HasRow}
use asynchronnous_agent_os.Operation.Invocation.{Spent, Invoked}
use asynchronnous_agent_os.Operation.Once.{
  find_by_key-append, find-append, Quiet, rest-Quiet, rest-Invoked,
}

-- No row of the key, or one whose tool has not been invoked.
abbrev Unspent : String → List Operation → Type 0
Unspent key ops =
    (find_by_key key ops ≡ none) ⊎ ((o : Operation) × HasRow key ops o × (o.state ≡ prepared))

-- An admission ends the call and leaves the table, or goes on with an operation.
abbrev Admitted : (Operation → List Operation → Type 0) → List Operation → Phase → Type 0
Admitted P ops p =
    ((r : Run) × (p ≡ ends r) × (r.operations ≡ ops) × (r.invocations ≡ 0))
    ⊎ ((ops' : List Operation) × (o : Operation) × (p ≡ goes ops' o) × P o ops')

module _ (w : Setting) (x : World) (tool : Tool) (c : Context) where
  abbrev key : String
  key = c.idempotency_key

  abbrev New : Operation → List Operation → Type 0
  New o ops = HasRow key ops o × (o.state ≡ prepared)

  ended :
      (P : Operation → List Operation → Type 0) (ops : List Operation) (a : Answer) {p : Phase}
      → p ≡ ends (stop ops a)
      → Admitted P ops p
  ended P ops a e = inl (stop ops a, e, refl, refl)

  -- A call that stores a row stores one under the key and a new id.
  prepare_operation-row :
      (ops : List Operation) (value : Option Json) {ops' : List Operation} {o : Operation}
      → find_by_key key ops ≡ none
      → prepare_operation w ops tool c value ≡ ok (ops', o)
      → (o ≡ new_operation w tool c value) × (ops' ≡ ops ++ (o ∷ [])) × (find w.new_id ops ≡ none)
  unfolding prepare_operation
  prepare_operation-row ops value e h = ground arith

  phase-New :
      (ops : List Operation) (value : Option Json) (r : Result (List Operation × Operation))
      → find_by_key key ops ≡ none
      → prepare_operation w ops tool c value ≡ r
      → Admitted New ops (phase_of ops r)
  phase-New ops value (err a) e h = ended New ops (raises a) refl
  phase-New ops value (ok (ops', o)) e h =
      let (is_new, rows, free) = prepare_operation-row ops value e h in
      let same : str_eq o.idempotency_key key ≡ true = rw is_new ((eq_iff key key).1 refl) in
      let none_yet : find o.id ops ≡ none = rw is_new free in
      let row : HasRow key ops' o = rw rows (record {
        by_key = find_by_key-append key ops o e same;
        by_id = find-append ops o none_yet;
      }) in
      inr (ops', o, refl, (row, rw is_new refl))

  prepared_value :
      (ops : List Operation) (reply : Reply Json)
      → find_by_key key ops ≡ none
      → x.prepares ≡ reply
      → tool.has_prepare ≡ true
      → Admitted New ops (prepare_new w x ops tool c)
  unfolding prepare_new
  prepared_value ops (returns value) e h has = simp (h, has) (phase-New ops (some value) _ e refl)
  prepared_value ops (throws a) e h has = ended New ops (raises (Error.thrown a)) (ground arith)
  prepared_value ops dies e h has = ended New ops gone (ground arith)

  prepare_new-New :
      (ops : List Operation)
      → find_by_key key ops ≡ none
      → Admitted New ops (prepare_new w x ops tool c)
  unfolding prepare_new
  prepare_new-New ops e = elim (Bool-cases tool.has_prepare) [
    | inl has ↦ prepared_value ops x.prepares e refl has
    | inr not_has ↦ simp not_has (phase-New ops _ _ e refl)
  ]

  admit-old :
      (ops : List Operation) (o : Operation)
      → find_by_key key ops ≡ some o
      → Admitted (λ o' ops'. (o' ≡ o) × (ops' ≡ ops)) ops (admit w x ops tool c)
  unfolding admit
  admit-old ops o e =
      elim (Bool-cases (mode_eq tool.mode non_idempotent && not c.approval_granted)) [
        | inl denied ↦ ended _ ops (raises Error.approval_required) (ground arith)
        | inr granted ↦ elim (Bool-cases (replay_matches w o tool c)) [
          | inl same ↦ inr (ops, o, ground arith, (refl, refl))
          | inr other ↦ ended _ ops (raises Error.key_reused) (ground arith)
        ]
      ]

  admit-New :
      (ops : List Operation) → find_by_key key ops ≡ none → Admitted New ops (admit w x ops tool c)
  unfolding admit
  admit-New ops e = elim (Bool-cases (mode_eq tool.mode non_idempotent && not c.approval_granted)) [
    | inl denied ↦ ended New ops (raises Error.approval_required) (ground arith)
    | inr granted ↦ simp (granted, e) (prepare_new-New ops e)
  ]

module _ (tool : Tool) (c : Context) where
  -- Successive calls, each in its own surroundings: the table at the end, and all invocations.
  unfoldable pub execute_all : List (Setting × World) → List Operation → List Operation × ℕ
  execute_all [] ops = (ops, 0)
  execute_all ((w, x) ∷ calls) ops =
      let r = execute_once w x ops tool c in
      let (ops', n) = execute_all calls r.operations in (ops', r.invocations + n)

module _ (tool : Tool) (c : Context) (m : tool.mode ≡ non_idempotent)
    (no_reconcile : tool.has_reconcile ≡ false) where
  abbrev One : Setting → World → Run → Type 0
  One w x r =
      ((r.invocations ≡ 0) × Unspent c.idempotency_key r.operations)
      ⊎ Invoked w x tool c m no_reconcile r

  execute_once-One :
      (w : Setting) (x : World) (ops : List Operation)
      → Unspent c.idempotency_key ops
      → One w x (execute_once w x ops tool c)
  unfolding execute_once
  execute_once-One w x ops (inl e) = elim (admit-New w x tool c ops e) [
    | inl (r, p, same, zero_) ↦ rw p (inl (zero_, rw same (inl e)))
    | inr (ops', o, p, (h, s)) ↦ rw p (inr (rest-Invoked w x tool c m no_reconcile ops' o h s))
  ]
  execute_once-One w x ops (inr (o, h, s)) = elim (admit-old w x tool c ops o h.by_key) [
    | inl (r, p, same, zero_) ↦ rw p (inl (zero_, rw same (inr (o, h, s))))
    | inr (ops', o', p, (e, f)) ↦
        rw (p, e, f) (inr (rest-Invoked w x tool c m no_reconcile ops o h s))
  ]

  execute_once-Quiet :
      (w : Setting) (x : World) (ops : List Operation)
      → Spent c.idempotency_key ops
      → Quiet w x tool c m no_reconcile (execute_once w x ops tool c)
  unfolding execute_once
  execute_once-Quiet w x ops (o, h, s) = elim (admit-old w x tool c ops o h.by_key) [
    | inl (r, p, same, zero_) ↦ rw p (zero_, rw same (o, h, s))
    | inr (ops', o', p, (e, f)) ↦ rw (p, e, f) (rest-Quiet w x tool c m no_reconcile ops o h s)
  ]

  execute_all-Spent :
      (calls : List (Setting × World)) (ops : List Operation)
      → Spent c.idempotency_key ops
      → (execute_all tool c calls ops).1 ≡ 0
  unfolding execute_all
  execute_all-Spent [] ops s = refl
  execute_all-Spent ((w, x) ∷ calls) ops s =
      let (none_now, s') = execute_once-Quiet w x ops s in
      rw (none_now, execute_all-Spent calls (execute_once w x ops tool c).operations s') refl

  at_most_once_from :
      (calls : List (Setting × World)) (ops : List Operation)
      → Unspent c.idempotency_key ops
      → (execute_all tool c calls ops).1 ≤ 1
  unfolding execute_all
  at_most_once_from [] ops s = ground arith
  at_most_once_from ((w, x) ∷ calls) ops s =
      let rest_ : List Operation = (execute_once w x ops tool c).operations in
      elim (execute_once-One w x ops s) [
        | inl (none_now, s') ↦ rw none_now (ground (arith, at_most_once_from calls rest_ s'))
        | inr (one_now, s') ↦
            let none_later : (execute_all tool c calls rest_).1 ≡ 0 =
              execute_all-Spent calls rest_ s' in
            rw (one_now, none_later) (ground arith)
      ]

  -- However often a call of a tool that is not idempotent and cannot be reconciled is repeated under
  -- a key without a row, whether it returns, throws or the process dies in it, the tool is invoked at
  -- most once.
  pub at_most_once :
      (calls : List (Setting × World)) (ops : List Operation)
      → find_by_key c.idempotency_key ops ≡ none
      → (execute_all tool c calls ops).1 ≤ 1
  at_most_once calls ops e = at_most_once_from calls ops (inl e)

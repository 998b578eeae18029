-- ===== src/Operation/Once.antt =====
-- A tool that is not idempotent and cannot be reconciled is invoked at most once for one key.
use asynchronnous_agent_os.Prelude.{
  ◌≡◌, refl, inl, inr, true, false, String, List, [], ◌∷◌, ◌++◌, none, some, arith, str_eq,
  Bool-cases,
}
use asynchronnous_agent_os.Table.{find}
use asynchronnous_agent_os.Operation.{
  prepared, executing, uncertain, confirmed, non_idempotent, state_eq, Operation, operation_key,
  Change, no_change, moved, find_by_key,
}
use asynchronnous_agent_os.Operation.Manager.{
  goes, ends, stop, uncertain_answer, World, Tool, Context, Setting, Run,
}
use asynchronnous_agent_os.Operation.Execute.{recover, resolve, perform, replay, run_phase, ◌>>=◌}
use asynchronnous_agent_os.Operation.KeyRows.{HasRow, moved_rows, move-Moves}
use asynchronnous_agent_os.Operation.Invocation.{is_spent, Spent, Invoked, perform-Invoked}

pub find_by_key-append :
    (key : String) (ops : List Operation) (o : Operation)
    → find_by_key key ops ≡ none
    → str_eq o.idempotency_key key ≡ true
    → find_by_key key (ops ++ (o ∷ [])) ≡ some o
unfolding find_by_key
find_by_key-append key [] o h e = ground arith
find_by_key-append key (x ∷ ops) o h e = ground (arith, find_by_key-append key ops o)

pub find-append :
    (ops : List Operation) (o : Operation)
    → find o.id ops ≡ none
    → find o.id (ops ++ (o ∷ [])) ≡ some o
unfolding find
find-append [] o h = ground arith
find-append (x ∷ ops) o h = ground (arith, find-append ops o)

module _ (w : Setting) (x : World) (tool : Tool) (c : Context) (m : tool.mode ≡ non_idempotent)
    (no_reconcile : tool.has_reconcile ≡ false) where
  abbrev key : String
  key = c.idempotency_key

  -- The phases behind the admission.
  abbrev pub rest : List Operation → Operation → Run
  rest ops o =
      run_phase
        (replay ops o
          >>= (λ ops' o'. recover w ops' o' tool)
          >>= (λ ops' o'. resolve w x ops' o' tool))
        (λ ops' o'. perform w x ops' o' tool)

  rest-prepared :
      (ops : List Operation) (o : Operation)
      → o.state ≡ prepared
      → rest ops o ≡ perform w x ops o tool
  unfolding recover resolve
  rest-prepared ops o e = ground arith

  recover-Spent :
      (ops : List Operation) (o : Operation)
      → HasRow key ops o
      → o.state ≡ executing
      → (ops' : List Operation) × (o' : Operation) × (recover w ops o tool ≡ goes ops' o')
        × HasRow key ops' o'
        × (o'.state ≡ uncertain)
  unfolding recover
  recover-Spent ops o h e =
      let ch : Change = record no_change {
        error = some "The previous executor stopped before recording the external outcome";
        next_reconcile_at = some w.now;
      } in
      let (moves, row) = move-Moves w key ops o h uncertain ch (ground arith) refl refl in
      (
        moved_rows w key ops o h uncertain ch (ground arith) refl,
        moved uncertain ch w.now o,
        ground arith,
        row,
        refl,
      )

  resolve_uncertain :
      (ops : List Operation) (o : Operation)
      → o.state ≡ uncertain
      → resolve w x ops o tool ≡ ends (stop ops (uncertain_answer o))
  unfolding resolve
  resolve_uncertain ops o u = ground arith

  abbrev pub Quiet : Run → Type 0
  Quiet r = (r.invocations ≡ 0) × Spent key r.operations

  recover-not_executing :
      (ops : List Operation) (o : Operation)
      → state_eq o.state executing ≡ false
      → recover w ops o tool ≡ goes ops o
  unfolding recover
  recover-not_executing ops o e = ground arith

  -- A spent operation is replayed or reported as uncertain.
  pub rest-Quiet :
      (ops : List Operation) (o : Operation)
      → HasRow key ops o
      → is_spent o.state ≡ true
      → Quiet (rest ops o)
  rest-Quiet ops o h e = elim (Bool-cases (state_eq o.state executing)) [
    | inl ex ↦
        let (ops', o', goes_on, row, u) = recover-Spent ops o h (ground arith) in
        let p : rest ops o ≡ stop ops' (uncertain_answer o') =
          ground (arith, resolve_uncertain ops' o' u) in
        rw p (refl, (o', row, rw u refl))
    | inr other ↦ elim (Bool-cases (state_eq o.state confirmed)) [
      | inl done ↦
          let p : (rest ops o).operations ≡ ops = ground arith in
          let q : (rest ops o).invocations ≡ 0 = ground arith in (q, rw p (o, h, e))
      | inr open_ ↦
          let u : o.state ≡ uncertain = ground arith in
          let p : rest ops o ≡ stop ops (uncertain_answer o) =
            ground (arith, recover-not_executing ops o other, resolve_uncertain ops o u) in
          rw p (refl, (o, h, e))
    ]
  ]

  pub rest-Invoked :
      (ops : List Operation) (o : Operation)
      → HasRow key ops o
      → o.state ≡ prepared
      → Invoked w x tool c m no_reconcile (rest ops o)
  rest-Invoked ops o h e =
      rw (rest-prepared ops o e) (perform-Invoked w x tool c m no_reconcile ops o h e)

-- ===== src/Operation/Invocation.antt =====
-- What an invocation of a tool leaves behind: a tool that is not idempotent and cannot be reconciled
-- has an operation that is executing, uncertain or confirmed.
use asynchronnous_agent_os.Prelude.{
  ◌≡◌, refl, ◌⊎◌, inl, inr, Bool, true, false, String, List, none, some, arith, Bool-cases,
}
use asynchronnous_agent_os.Json.{Json}
use asynchronnous_agent_os.Operation.{
  OperationState, prepared, executing, uncertain, confirmed, non_idempotent, local_idempotent,
  mode_eq, Operation, operation_key, Change, no_change, moved,
}
use asynchronnous_agent_os.Operation.Manager.{
  Reply, returns, throws, dies, Confirmation, uncertain_answer, World, Tool, Context, Setting, Run,
  Answer, decorated, move,
}
use asynchronnous_agent_os.Operation.Execute.{
  perform, confirm_with, perform_with, caught, finish, conclude, confirm, later, or_text,
}
use asynchronnous_agent_os.Operation.KeyRows.{HasRow, moved_rows, move-Moves, move-cases}

abbrev pub is_spent : OperationState → Bool
is_spent executing = true
is_spent uncertain = true
is_spent confirmed = true
is_spent _ = false

-- What one execution comes to for a key.
abbrev pub Spent : String → List Operation → Type 0
Spent key ops = (o : Operation) × HasRow key ops o × (is_spent o.state ≡ true)

module _ (w : Setting) (x : World) (tool : Tool) (c : Context) (m : tool.mode ≡ non_idempotent)
    (no_reconcile : tool.has_reconcile ≡ false) where
  abbrev pub key : String
  key = c.idempotency_key

  -- An invocation has happened, and the row of the key records it.
  abbrev pub Invoked : Run → Type 0
  Invoked r = (r.invocations ≡ 1) × Spent key r.operations

  local_not : mode_eq tool.mode local_idempotent ≡ false
  local_not = ground arith

  caught-Invoked :
      (ops : List Operation) (o : Operation) (message : String)
      → HasRow key ops o
      → o.state ≡ executing
      → Invoked (caught w x ops o tool message)
  caught-Invoked ops o message h e =
      let ch : Change = record no_change { error = some message; next_reconcile_at = later w } in
      let (moves, row) = move-Moves w key ops o h uncertain ch (ground arith) refl refl in
      (
        ground (arith, local_not),
        (
          moved uncertain ch w.now o,
          record {
            by_key = ground (arith, local_not, row.by_key);
            by_id = ground (arith, local_not, row.by_id);
          },
          refl,
        ),
      )

  -- A transition of an executing operation in the try block.
  finish-Invoked :
      (ops : List Operation) (o : Operation) (state : OperationState) (change : Change)
      (answer : Operation → Answer)
      → HasRow key ops o
      → o.state ≡ executing
      → change.expected_state ≡ none
      → (state ≡ confirmed) ⊎ (state ≡ uncertain)
      → Invoked (finish w x ops o tool (move w ops o state change) answer)
  finish-Invoked ops o state change answer h e n s =
      elim (move-cases w key ops o h state change (ground arith) (ground arith)) [
        | inl (moves, row) ↦ rw moves (refl, (moved state change w.now o, row, ground arith))
        | inr big ↦ rw big (caught-Invoked ops o "The transition was refused" h e)
      ]

  conclude-Invoked :
      (ops : List Operation) (o : Operation) (result : Json)
      → HasRow key ops o
      → o.state ≡ executing
      → Invoked (conclude w x ops o tool result)
  conclude-Invoked ops o result h e =
      finish-Invoked ops o confirmed (record no_change { result = some result })
        (λ o'. decorated (some result) o'.id o'.state false) h e refl (inl refl)

  confirmation-Invoked :
      (ops : List Operation) (o : Operation) (result : Json) (reply : Reply Confirmation)
      → HasRow key ops o
      → o.state ≡ executing
      → Invoked (confirm_with w x ops o tool result reply)
  confirmation-Invoked ops o result (returns a) h e = elim (Bool-cases a.confirmed) [
    | inl good ↦ rw good (conclude-Invoked ops o result h e)
    | inr bad ↦ rw bad (
        finish-Invoked ops o uncertain
          (record no_change {
            result = some result;
            reconciliation = a.detail;
            next_reconcile_at = later w;
            error = or_text a.reason "External confirmation is inconclusive";
          })
          uncertain_answer h e refl (inr refl))
  ]
  confirmation-Invoked ops o result (throws message) h e = caught-Invoked ops o message h e
  confirmation-Invoked ops o result dies h e = (refl, (o, h, rw e refl))

  confirm-Invoked :
      (ops : List Operation) (o : Operation) (result : Json)
      → HasRow key ops o
      → o.state ≡ executing
      → Invoked (confirm w x ops o tool result)
  confirm-Invoked ops o result h e = elim (Bool-cases tool.has_confirm) [
    | inl has ↦ rw has (confirmation-Invoked ops o result x.confirms h e)
    | inr not_has ↦ rw not_has (conclude-Invoked ops o result h e)
  ]

  perform_with-Invoked :
      (ops : List Operation) (o : Operation) (reply : Reply Json)
      → HasRow key ops o
      → o.state ≡ executing
      → Invoked (perform_with w x ops o tool reply)
  perform_with-Invoked ops o (returns result) h e = confirm-Invoked ops o result h e
  perform_with-Invoked ops o (throws message) h e = caught-Invoked ops o message h e
  perform_with-Invoked ops o dies h e = (refl, (o, h, rw e refl))

  -- The first execution of a prepared operation invokes the tool.
  pub perform-Invoked :
      (ops : List Operation) (o : Operation)
      → HasRow key ops o
      → o.state ≡ prepared
      → Invoked (perform w x ops o tool)
  unfolding perform
  perform-Invoked ops o h e =
      let ch : Change = record no_change {
        increment_attempt = true;
        expected_state = some o.state;
      } in
      let (moves, row) = move-Moves w key ops o h executing ch (ground arith) (ground arith) refl in
      rw (moves, perform)
        (perform_with-Invoked (moved_rows w key ops o h executing ch (ground arith) (ground arith))
          (moved executing ch w.now o) x.invokes row refl)

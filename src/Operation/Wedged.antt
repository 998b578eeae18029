-- ===== src/Operation/Wedged.antt =====
-- An operation that the process leaves in reconciliation.
use asynchronnous_agent_os.Prelude.{
  ℕ, ◌≡◌, refl, true, false, String, List, ◌∷◌, Option, some, arith, leb,
}
use asynchronnous_agent_os.Table.{find, update}
use asynchronnous_agent_os.Table.Laws.{find-update}
use asynchronnous_agent_os.Operation.{
  uncertain, reconciling, state_eq, Operation, operation_key, Change, no_change, invalid_transition,
  moved, transition_operation,
}
use asynchronnous_agent_os.Operation.Manager.{Reply, dies, Reconciliation, Tool, Setting}
use asynchronnous_agent_os.Operation.Execute.{fails, interrupted, reconcile}
use asynchronnous_agent_os.Operation.KeyRows.{state_eq_refl}
use asynchronnous_agent_os.Operation.Due.{
  failed_at, reconcile_each, reconcile_due, get_operations_due,
}

-- The transition stands before the try block, and the table has no move of this state to itself.
reconciling_fails :
    (w : Setting) (reply : Reply Reconciliation) (ops : List Operation) (o o' : Operation)
    (tool : Tool)
    → find o.id ops ≡ some o'
    → o'.state ≡ reconciling
    → tool.has_reconcile ≡ true
    → reconcile w reply ops o tool ≡ fails ops invalid_transition
unfolding reconcile transition_operation
reconciling_fails w reply ops o o' tool h s t = ground arith

-- Where the process dies in the reconciliation of an uncertain operation, the operation stays in
-- reconciliation, and every later reconciliation of it fails with the same error and changes nothing.
pub reconcile_wedged :
    (w : Setting) (ops : List Operation) (o : Operation) (tool : Tool)
    → find o.id ops ≡ some o
    → o.state ≡ uncertain
    → tool.has_reconcile ≡ true
    → (ops' : List Operation) × (o' : Operation) × (reconcile w dies ops o tool ≡ interrupted ops')
      × (find o.id ops' ≡ some o')
      × (o'.state ≡ reconciling)
      × ((later : Setting) (reply : Reply Reconciliation)
          → reconcile later reply ops' o' tool ≡ fails ops' invalid_transition)
unfolding reconcile transition_operation
reconcile_wedged w ops o tool h s t =
    let ch : Change = record no_change { increment_reconcile = true } in
    let o' : Operation = moved reconciling ch w.now o in
    let ops' : List Operation =
      update o.id (λ r. state_eq r.state o.state) (moved reconciling ch w.now) ops in
    let row : find o.id ops' ≡ some o' = ground (
      arith,
      find-update o.id o.id (λ r. state_eq r.state o.state) (moved reconciling ch w.now) (λ _. refl)
          ops,
      state_eq_refl o.state,
    ) in
    (
      ops',
      o',
      ground arith,
      row,
      refl,
      λ later reply. reconciling_fails later reply ops' o' o' tool row refl t,
    )

-- Where the oldest of the due operations has been left in reconciliation, is below the limit of
-- attempts and has a tool that can reconcile, the sweep fails on it: it changes nothing, and tries
-- none of the other due operations, whatever the tools would answer.
pub reconcile_due_blocked :
    (w : Setting) (replies : ℕ → Reply Reconciliation) (handlers : String → Option Tool)
    (ops : List Operation) (o : Operation) (others : List Operation) (tool : Tool)
    → get_operations_due w.now ops ≡ o ∷ others
    → find o.id ops ≡ some o
    → o.state ≡ reconciling
    → leb w.max_reconcile_attempts o.reconcile_attempt ≡ false
    → handlers o.tool_name ≡ some tool
    → tool.has_reconcile ≡ true
    → reconcile_due w replies handlers ops ≡ failed_at ops o.id invalid_transition
unfolding reconcile_due reconcile_each
reconcile_due_blocked w replies handlers ops o others tool due h s below is_tool t =
    ground (arith, reconciling_fails w (replies o.id) ops o o tool h s t)

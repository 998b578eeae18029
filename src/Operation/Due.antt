-- ===== src/Operation/Due.antt =====
-- src/kernel/operation-manager.js, reconcileDue and compensate, with getOperationsDueForReconciliation
-- of src/infra/store.js. `handlers` is the map of the registered tools.
use asynchronnous_agent_os.Prelude.{
  ℕ, zero, suc, Bool, true, ◌&&◌, ◌||◌, not, String, List, [], ◌∷◌, Option, none, some,
  if◌then◌else◌, leb, keep,
}
use Prim.Native.String.{◌++◌}
use asynchronnous_agent_os.Json.{Json, object, text, number, field, no_fields, Fields}
use asynchronnous_agent_os.Table.{find}
use asynchronnous_agent_os.Operation.{
  uncertain, reconciling, confirmed, compensating, compensated, compensation_uncertain, state_eq,
  Operation, operation_key, no_change, ok, err, Error, unknown_operation, not_confirmed,
  no_compensation,
}
use asynchronnous_agent_os.Operation.Manager.{
  Reply, returns, throws, dies, Reconciliation, Tool, Setting, move,
}
use asynchronnous_agent_os.Operation.Execute.{
  Reconciled, settled, fails, interrupted, settle, reconcile,
}

-- The rows' order of `ORDER BY updated_at ASC`; rows of one time keep theirs.
abbrev pub insert : Operation → List Operation → List Operation
insert o [] = o ∷ []
insert o (x ∷ ops) =
    let rest = insert o ops in if leb o.updated_at x.updated_at then o ∷ x ∷ ops else x ∷ rest

abbrev pub by_update : List Operation → List Operation
by_update [] = []
by_update (o ∷ ops) = insert o (by_update ops)

abbrev pub limit {ℓ} : {A : Type ℓ} → ℕ → List A → List A
limit n [] = []
limit zero (x ∷ xs) = []
limit (suc n) (x ∷ xs) = x ∷ limit n xs

abbrev pub is_due : ℕ → Operation → Bool
is_due now o =
    (state_eq o.state uncertain || state_eq o.state reconciling)
    && elim o.next_reconcile_at [ none ↦ true | some at ↦ leb at now ]

unfoldable pub get_operations_due : ℕ → List Operation → List Operation
get_operations_due now ops = limit 20 (by_update (keep (is_due now) ops))

-- All were tried; or one failed with an error, which ends the sweep; or the process died.
pub data Sweep : Type 0 where
  swept : List Operation → Sweep
  failed_at : List Operation → ℕ → Error → Sweep
  died_at : List Operation → ℕ → Sweep

module _ (w : Setting) (replies : ℕ → Reply Reconciliation) (handlers : String → Option Tool) where
  unfoldable pub reconcile_each : List Operation → List Operation → Sweep
  reconcile_each [] ops = swept ops
  reconcile_each (o ∷ due) ops =
      if leb w.max_reconcile_attempts o.reconcile_attempt
      then reconcile_each due ops
      else elim (handlers o.tool_name) [
        | none ↦ reconcile_each due ops
        | some tool ↦
            if not tool.has_reconcile
            then reconcile_each due ops
            else elim (reconcile w (replies o.id) ops o tool) [
              | settled ops' o' ↦ reconcile_each due ops'
              | fails ops' e ↦ failed_at ops' o.id e
              | interrupted ops' ↦ died_at ops' o.id
            ]
      ]

  unfoldable pub reconcile_due : List Operation → Sweep
  reconcile_due ops = reconcile_each (get_operations_due w.now ops) ops

abbrev pub compensation_of : Setting → Operation → String → Fields → Json
compensation_of w o reason more = object (
    field "reason" (text reason)
      (field "idempotencyKey" (text ("compensate:" ++ w.text_of_id o.id)) more))

-- The catch block.
abbrev pub undo_failed : Setting → List Operation → Operation → String → String → Reconciled
undo_failed w ops o reason message = settle ops (
    move w ops o compensation_uncertain (record no_change {
      compensation = some (compensation_of w o reason (field "error" (text message) no_fields));
      error = some message;
    }))

-- The try block, after what the callback came to.
abbrev pub undo : Setting → List Operation → Operation → String → Reply Json → Reconciled
undo w ops o reason dies = interrupted ops
undo w ops o reason (returns value) =
    elim (move w ops o compensated (record no_change {
      compensation = some (compensation_of w o reason (field "result" value no_fields));
    })) [
      | ok (ops', o') ↦ settled ops' o'
      | err e ↦ undo_failed w ops o reason "The transition was refused"
    ]
undo w ops o reason (throws message) = undo_failed w ops o reason message

unfoldable pub compensate :
    Setting → Reply Json → (String → Option Tool) → List Operation → ℕ → String → Reconciled
compensate w reply handlers ops id reason = elim (find id ops) [
  | none ↦ fails ops unknown_operation
  | some o ↦
      if state_eq o.state compensated
      then settled ops o
      else if not (state_eq o.state confirmed)
      then fails ops not_confirmed
      else elim (handlers o.tool_name) [
        | none ↦ fails ops no_compensation
        | some tool ↦
            if not tool.has_compensate
            then fails ops no_compensation
            else elim (move w ops o compensating (record no_change {
              compensation =
                  some (compensation_of w o reason (field "startedAt" (number w.now) no_fields));
            })) [ err e ↦ fails ops e | ok (ops', o') ↦ undo w ops' o' reason reply ]
      ]
]

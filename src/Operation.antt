-- ===== src/Operation.antt =====
-- src/infra/store.js, the table `operations`, and src/kernel/operation-manager.js: side effects of
-- tools, each recorded under an idempotency key. `Manager` has the
-- first phase of an execution, `Execute` the rest, `Due` the sweep of due reconciliations and
-- compensation; the other children prove. Ids (UUIDs) and keys are kept apart: `getOperation` is `find`
-- on an id and `find_by_key` on a key. No caller passes `prepared` to a transition. An error's text
-- is kept whole.
pub mod Manager
pub mod Execute
pub mod KeyRows
pub mod Invocation
pub mod Once
pub mod History
pub mod Due
pub mod Wedged
mod Samples
use asynchronnous_agent_os.Prelude.{
  ℕ, suc, Bool, true, false, ◌&&◌, ◌||◌, not, String, List, [], ◌∷◌, Option, none, some, str_eq,
  any, if◌then◌else◌,
}
use asynchronnous_agent_os.Json.{Json}
use asynchronnous_agent_os.Table.{Keyed, find, update}

pub data OperationState : Type 0 where
  prepared executing uncertain reconciling absent failed confirmed : OperationState
  compensating compensated compensation_uncertain : OperationState

pub data Mode : Type 0 where
  idempotent local_idempotent reconcilable non_idempotent : Mode

abbrev pub state_eq : OperationState → OperationState → Bool
state_eq prepared prepared = true
state_eq executing executing = true
state_eq uncertain uncertain = true
state_eq reconciling reconciling = true
state_eq absent absent = true
state_eq failed failed = true
state_eq confirmed confirmed = true
state_eq compensating compensating = true
state_eq compensated compensated = true
state_eq compensation_uncertain compensation_uncertain = true
state_eq _ _ = false

abbrev pub mode_eq : Mode → Mode → Bool
mode_eq idempotent idempotent = true
mode_eq local_idempotent local_idempotent = true
mode_eq reconcilable reconcilable = true
mode_eq non_idempotent non_idempotent = true
mode_eq _ _ = false

pub record Operation : Type 0 where
  pub id : ℕ
  pub idempotency_key : String
  pub goal_id : ℕ
  pub task_id : ℕ
  pub tool_name : String
  pub mode : Mode
  pub resource_pool : String
  pub state : OperationState
  pub request : Json
  pub prepared_state : Option Json
  pub result : Option Json
  pub reconciliation : Option Json
  pub compensation : Option Json
  pub attempt : ℕ
  pub reconcile_attempt : ℕ
  pub next_reconcile_at : Option ℕ
  pub last_error : Option String
  pub created_at : ℕ
  pub updated_at : ℕ
  pub confirmed_at : Option ℕ
  pub compensated_at : Option ℕ

instance abbrev pub operation_key : Keyed Operation
operation_key = record { key = λ o. o.id }

-- The errors that the methods throw.
pub data Error : Type 0 where
  invalid_transition changed_concurrently not_storable missing_ownership : Error
  key_reused approval_required unknown_operation not_confirmed no_compensation : Error
  thrown : String → Error

pub data Result {ℓ} (A : Type ℓ) : Type ℓ where
  ok : A → Result A
  err : Error → Result A

-- The input of `transitionOperation`; `none` is undefined or null.
pub record Change : Type 0 where
  pub result : Option Json
  pub reconciliation : Option Json
  pub compensation : Option Json
  pub increment_attempt : Bool
  pub increment_reconcile : Bool
  pub expected_state : Option OperationState
  pub next_reconcile_at : Option ℕ
  pub error : Option String

abbrev pub no_change : Change
no_change = record {
  result = none;
  reconciliation = none;
  compensation = none;
  increment_attempt = false;
  increment_reconcile = false;
  expected_state = none;
  next_reconcile_at = none;
  error = none;
}

abbrev pub transitions : OperationState → List OperationState
transitions prepared = executing ∷ []
transitions executing = executing ∷ confirmed ∷ uncertain ∷ failed ∷ []
transitions uncertain = reconciling ∷ executing ∷ []
transitions reconciling = confirmed ∷ absent ∷ uncertain ∷ []
transitions absent = executing ∷ []
transitions failed = executing ∷ []
transitions confirmed = compensating ∷ []
transitions compensating = compensated ∷ compensation_uncertain ∷ []
transitions compensation_uncertain = compensating ∷ []
transitions compensated = []

abbrev pub may_move : OperationState → OperationState → Bool
may_move from to = any (state_eq to) (transitions from)

-- COALESCE(?, column)
abbrev coalesce : Option Json → Option Json → Option Json
coalesce none old = old
coalesce (some new) old = some new

abbrev count : Bool → ℕ → ℕ
count true n = suc n
count false n = n

abbrev stamp : Bool → ℕ → Option ℕ → Option ℕ
stamp true now old = some now
stamp false now old = old

abbrev pub moved : OperationState → Change → ℕ → Operation → Operation
moved state change now o = record o {
  state = state;
  result = coalesce change.result o.result;
  reconciliation = coalesce change.reconciliation o.reconciliation;
  compensation = coalesce change.compensation o.compensation;
  attempt = count change.increment_attempt o.attempt;
  reconcile_attempt = count change.increment_reconcile o.reconcile_attempt;
  next_reconcile_at = change.next_reconcile_at;
  last_error = change.error;
  updated_at = now;
  confirmed_at = stamp (state_eq state confirmed) now o.confirmed_at;
  compensated_at = stamp (state_eq state compensated) now o.compensated_at;
}

abbrev pub unexpected : OperationState → Option OperationState → Bool
unexpected state none = false
unexpected state (some expected) = not (state_eq state expected)

-- `accepts limit value`: `boundedJson(stable(value), limit)` does not throw.
abbrev pub Accepts : Type 0
Accepts = ℕ → Json → Bool

abbrev fits : Accepts → ℕ → Option Json → Bool
fits accepts limit none = true
fits accepts limit (some value) = accepts limit value

abbrev pub storable : Accepts → Change → Bool
storable accepts change =
    fits accepts 2000000 change.result
    && (fits accepts 1000000 change.reconciliation && fits accepts 1000000 change.compensation)

-- `null` for a missing row. The row was read in the same synchronous call, so that the update's
-- test on its state holds.
unfoldable pub transition_operation :
    Accepts
    → List Operation
    → ℕ
    → OperationState
    → Change
    → ℕ
    → Result (List Operation × Option Operation)
transition_operation accepts ops id state change now = elim (find id ops) [
  | none ↦ ok (ops, none)
  | some o ↦
      if not (may_move o.state state)
      then err invalid_transition
      else if unexpected o.state change.expected_state
      then err changed_concurrently
      else if not (storable accepts change)
      then err not_storable
      else let ops' = update id (λ r. state_eq r.state o.state) (moved state change now) ops in
        ok (ops', find id ops')
]

unfoldable pub find_by_key : String → List Operation → Option Operation
find_by_key key [] = none
find_by_key key (o ∷ ops) = if str_eq o.idempotency_key key then some o else find_by_key key ops

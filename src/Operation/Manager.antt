-- ===== src/Operation/Manager.antt =====
-- src/kernel/operation-manager.js: the vocabulary of an execution and its first phase, with
-- prepareOperation of src/infra/store.js. The tool's callbacks are outside the program: what they
-- answer in one execution is the argument `World`. A callback may also not answer at all, because
-- the process dies while it waits; the rows stay as they were written before.
use asynchronnous_agent_os.Prelude.{
  ℕ, Bool, true, false, ◌&&◌, not, String, List, [], ◌∷◌, ◌++◌, Option, none, some, str_eq,
  if◌then◌else◌, ◌==◌, is_some,
}
use asynchronnous_agent_os.Json.{Json, object, text, field, no_fields}
use asynchronnous_agent_os.Table.{find}
use asynchronnous_agent_os.Store.{Store, get_task, get_goal, task_key, goal_key}
use asynchronnous_agent_os.Operation.{
  OperationState, prepared, Mode, non_idempotent, mode_eq, Operation, operation_key, Change,
  Accepts, Result, ok, err, Error, thrown, approval_required, key_reused, missing_ownership,
  not_storable, transition_operation, find_by_key,
}

-- What waiting for a callback comes to.
pub data Reply (A : Type 0) : Type 0 where
  returns : A → Reply A
  throws : String → Reply A
  dies : Reply A

pub record Confirmation : Type 0 where
  pub confirmed : Bool
  pub reason : Option String
  pub detail : Option Json

pub record Reconciliation : Type 0 where
  pub confirmed : Bool
  pub absent : Bool
  pub result : Option Json
  pub reason : Option String
  pub detail : Option Json

pub record World : Type 0 where
  pub prepares : Reply Json
  pub invokes : Reply Json
  pub confirms : Reply Confirmation
  pub reconciles : Reply Reconciliation
  pub aborted : Bool

-- A tool with a side-effect descriptor; the Booleans tell which callbacks it has.
pub record Tool : Type 0 where
  pub name : String
  pub resource_pool : String
  pub mode : Mode
  pub has_prepare : Bool
  pub has_confirm : Bool
  pub has_reconcile : Bool
  pub has_compensate : Bool

-- The call: its key, its owner, its arguments, and whether an operator has approved it.
pub record Context : Type 0 where
  pub idempotency_key : String
  pub goal_id : ℕ
  pub task_id : ℕ
  pub request : Json
  pub approval_granted : Bool

-- The program's surroundings: the clock, the interval of reconciliation, the id drawn for a new
-- operation, the store, the text of an id, the limit of attempts, and as parameters `boundedJson` of `stable`, `boundedText` and the
-- comparison of canonical JSON texts.
pub record Setting : Type 0 where
  pub now : ℕ
  pub reconcile_interval : ℕ
  pub accepts : Accepts
  pub same_json : Json → Json → Bool
  pub new_id : ℕ
  pub bounded : ℕ → String → Bool
  pub store : Store
  pub text_of_id : ℕ → String
  pub max_reconcile_attempts : ℕ

pub data Answer : Type 0 where
  -- The tool's result, with the operation's id and state, and whether it was replayed.
  decorated : Option Json → ℕ → OperationState → Bool → Answer
  -- `{ ok: false, uncertain: true, ... }`
  unsure : ℕ → OperationState → Answer
  -- `{ ok: false, ... }`
  refused : ℕ → OperationState → Answer
  raises : Error → Answer
  gone : Answer

-- The table afterwards, the answer, and how often the tool was invoked.
pub record Run : Type 0 where
  pub operations : List Operation
  pub answer : Answer
  pub invocations : ℕ

abbrev pub stop : List Operation → Answer → Run
stop ops answer = record { operations = ops; answer = answer; invocations = 0 }

-- A phase of `executeOnce` goes on with an operation, or ends the call.
pub data Phase : Type 0 where
  goes : List Operation → Operation → Phase
  ends : Run → Phase

abbrev pub uncertain_answer : Operation → Answer
uncertain_answer o = unsure o.id o.state

-- `this.store.transitionOperation(...)`, whose error leaves the method, and whose `null` cannot
-- occur, since no row is deleted.
abbrev pub move :
    Setting
    → List Operation
    → Operation
    → OperationState
    → Change
    → Result (List Operation × Operation)
move w ops o state change = elim (transition_operation w.accepts ops o.id state change w.now) [
  | err e ↦ err e
  | ok (ops', none) ↦ ok (ops', o)
  | ok (ops', some o') ↦ ok (ops', o')
]

abbrev pub replay_matches : Setting → Operation → Tool → Context → Bool
replay_matches w o tool c =
    str_eq o.tool_name tool.name
    && (mode_eq o.mode tool.mode
        && (str_eq o.resource_pool tool.resource_pool
            && (o.goal_id == c.goal_id
                && (o.task_id == c.task_id && w.same_json o.request c.request))))

abbrev pub new_operation : Setting → Tool → Context → Option Json → Operation
new_operation w tool c value = record {
  id = w.new_id;
  idempotency_key = c.idempotency_key;
  goal_id = c.goal_id;
  task_id = c.task_id;
  tool_name = tool.name;
  mode = tool.mode;
  resource_pool = tool.resource_pool;
  state = prepared;
  request = c.request;
  prepared_state = value;
  result = none;
  reconciliation = none;
  compensation = none;
  attempt = 0;
  reconcile_attempt = 0;
  next_reconcile_at = none;
  last_error = none;
  created_at = w.now;
  updated_at = w.now;
  confirmed_at = none;
  compensated_at = none;
}

abbrev pub stores : Setting → Option Json → Bool
stores w none = true
stores w (some value) = w.accepts 1000000 value

abbrev pub owned : Setting → Context → Bool
owned w c = elim (get_task w.store c.task_id) [
  | none ↦ false
  | some t ↦ t.goal_id == c.goal_id && is_some (get_goal w.store c.goal_id)
]

abbrev pub texts_fit : Setting → Tool → Context → Bool
texts_fit w tool c =
    w.bounded 512 c.idempotency_key && (w.bounded 256 tool.name && w.bounded 128 tool.resource_pool)

-- `prepareOperation`: a row of the same key is returned if it is of the same call.
unfoldable pub prepare_operation :
    Setting → List Operation → Tool → Context → Option Json → Result (List Operation × Operation)
prepare_operation w ops tool c value =
    if not (texts_fit w tool c)
    then err not_storable
    else if not (owned w c)
    then err missing_ownership
    else if not (w.accepts 1000000 c.request && stores w value)
    then err not_storable
    else elim (find_by_key c.idempotency_key ops) [
      | some o ↦ if replay_matches w o tool c then ok (ops, o) else err key_reused
      | none ↦
          -- The id is the primary key.
          if is_some (find w.new_id ops)
          then err (thrown "UNIQUE constraint failed: operations.id")
          else let o = new_operation w tool c value in ok (ops ++ (o ∷ []), o)
    ]

abbrev pub phase_of : List Operation → Result (List Operation × Operation) → Phase
phase_of ops (ok (ops', o)) = goes ops' o
phase_of ops (err e) = ends (stop ops (raises e))

abbrev pub request_hash : Context → Json
request_hash c = object (field "requestHash" (text c.idempotency_key) no_fields)

unfoldable pub prepare_new : Setting → World → List Operation → Tool → Context → Phase
prepare_new w x ops tool c =
    if not tool.has_prepare
    then phase_of ops (prepare_operation w ops tool c (some (request_hash c)))
    else elim x.prepares [
      | returns value ↦ phase_of ops (prepare_operation w ops tool c (some value))
      | throws e ↦ ends (stop ops (raises (thrown e)))
      | dies ↦ ends (stop ops gone)
    ]

unfoldable pub admit : Setting → World → List Operation → Tool → Context → Phase
admit w x ops tool c =
    if mode_eq tool.mode non_idempotent && not c.approval_granted
    then ends (stop ops (raises approval_required))
    else elim (find_by_key c.idempotency_key ops) [
      | some o ↦
          if replay_matches w o tool c then goes ops o else ends (stop ops (raises key_reused))
      | none ↦ prepare_new w x ops tool c
    ]

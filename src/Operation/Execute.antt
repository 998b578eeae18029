-- ===== src/Operation/Execute.antt =====
-- src/kernel/operation-manager.js: reconcile and executeOnce. Each call takes one reading of the
-- clock.
use asynchronnous_agent_os.Prelude.{
  ℕ, ◌+◌, Bool, true, false, ◌&&◌, ◌||◌, not, String, List, Option, none, some, if◌then◌else◌,
}
use asynchronnous_agent_os.Json.{Json}
use asynchronnous_agent_os.Operation.{
  executing, uncertain, reconciling, absent, failed, confirmed, compensated, Mode, idempotent,
  local_idempotent, state_eq, mode_eq, Operation, operation_key, no_change, Result, ok, err, Error,
}
use asynchronnous_agent_os.Operation.Manager.{
  Reply, returns, throws, dies, Confirmation, Reconciliation, World, Tool, Context, Setting, Answer,
  decorated, refused, raises, gone, Run, stop, Phase, goes, ends, uncertain_answer, move, admit,
}

-- What a reconciliation comes to: the operation, an error, or the end of the process.
pub data Reconciled : Type 0 where
  settled : List Operation → Operation → Reconciled
  fails : List Operation → Error → Reconciled
  interrupted : List Operation → Reconciled

abbrev pub settle : List Operation → Result (List Operation × Operation) → Reconciled
settle ops (ok (ops', o)) = settled ops' o
settle ops (err e) = fails ops e

abbrev pub later : Setting → Option ℕ
later w = some (w.now + w.reconcile_interval)

-- The catch block.
abbrev pub inconclusive : Setting → List Operation → Operation → String → Reconciled
inconclusive w ops o message = settle ops (
    move w ops o uncertain (record no_change { error = some message; next_reconcile_at = later w }))

-- A transition in the try block: its error is caught.
abbrev pub or_inconclusive :
    Setting → List Operation → Operation → Result (List Operation × Operation) → Reconciled
or_inconclusive w ops o (ok (ops', o')) = settled ops' o'
or_inconclusive w ops o (err e) = inconclusive w ops o "The transition was refused"

abbrev pub or_old : Option Json → Option Json → Option Json
or_old none old = old
or_old (some new) old = some new

abbrev pub or_text : Option String → String → Option String
or_text none default = some default
or_text (some reason) default = some reason

abbrev pub judge : Setting → List Operation → Operation → Reconciliation → Reconciled
judge w ops o r =
    if r.confirmed
    then or_inconclusive w ops o (
        move w ops o confirmed
          (record no_change { result = or_old r.result o.result; reconciliation = r.detail }))
    else if r.absent
    then or_inconclusive w ops o
        (move w ops o absent (record no_change { reconciliation = r.detail }))
    else or_inconclusive w ops o (
        move w ops o uncertain (record no_change {
          reconciliation = r.detail;
          next_reconcile_at = later w;
          error = or_text r.reason "Reconciliation remains inconclusive";
        }))

-- `reconcile`: the first transition stands before the try block.
unfoldable pub reconcile :
    Setting → Reply Reconciliation → List Operation → Operation → Tool → Reconciled
reconcile w reply ops o tool =
    if not tool.has_reconcile
    then settled ops o
    else elim (move w ops o reconciling (record no_change { increment_reconcile = true })) [
      | err e ↦ fails ops e
      | ok (ops', o') ↦ elim reply [
        | returns r ↦ judge w ops' o' r
        | throws message ↦ inconclusive w ops' o' message
        | dies ↦ interrupted ops'
      ]
    ]

-- `mode !== 'idempotent' && mode !== 'local-idempotent'`
abbrev pub repeatable : Mode → Bool
repeatable mode = mode_eq mode idempotent || mode_eq mode local_idempotent

-- An operation whose previous executor stopped is uncertain, unless it may be repeated.
unfoldable pub recover : Setting → List Operation → Operation → Tool → Phase
recover w ops o tool =
    if state_eq o.state executing && not (repeatable tool.mode)
    then elim (move w ops o uncertain (record no_change {
      error = some "The previous executor stopped before recording the external outcome";
      next_reconcile_at = some w.now;
    })) [ ok (ops', o') ↦ goes ops' o' | err e ↦ ends (stop ops (raises e)) ]
    else goes ops o

abbrev pub after_reconcile : Reconciled → Phase
after_reconcile (settled ops o) =
    if state_eq o.state confirmed
    then ends (stop ops (decorated o.result o.id o.state true))
    else if not (state_eq o.state absent)
    then ends (stop ops (uncertain_answer o))
    else goes ops o
after_reconcile (fails ops e) = ends (stop ops (raises e))
after_reconcile (interrupted ops) = ends (stop ops gone)

unfoldable pub resolve : Setting → World → List Operation → Operation → Tool → Phase
resolve w x ops o tool =
    if not (state_eq o.state uncertain || state_eq o.state reconciling)
    then goes ops o
    else if tool.has_reconcile
    then after_reconcile (reconcile w x.reconciles ops o tool)
    else if not (mode_eq tool.mode idempotent)
    then ends (stop ops (uncertain_answer o))
    else goes ops o

-- The catch block of an execution.
abbrev pub caught : Setting → World → List Operation → Operation → Tool → String → Run
caught w x ops o tool message =
    let local = mode_eq tool.mode local_idempotent in
    elim (move w ops o (if local then failed else uncertain) (record no_change {
      error = some message;
      next_reconcile_at = if local then none else later w;
    })) [
      | err e ↦ record { operations = ops; answer = raises e; invocations = 1 }
      | ok (ops', o') ↦ record {
        operations = ops';
        answer =
            if x.aborted
            then raises (Error.thrown message)
            else if local
            then refused o'.id o'.state
            else uncertain_answer o';
        invocations = 1;
      }
    ]

-- A transition in the try block: its error is caught.
abbrev pub finish :
    Setting
    → World
    → List Operation
    → Operation
    → Tool
    → Result (List Operation × Operation)
    → (Operation → Answer)
    → Run
finish w x ops o tool (ok (ops', o')) answer = record {
  operations = ops';
  answer = answer o';
  invocations = 1;
}
finish w x ops o tool (err e) answer = caught w x ops o tool "The transition was refused"

abbrev pub conclude : Setting → World → List Operation → Operation → Tool → Json → Run
conclude w x ops o tool result =
    finish w x ops o tool (move w ops o confirmed (record no_change { result = some result }))
      (λ o'. decorated (some result) o'.id o'.state false)

abbrev pub confirm_with :
    Setting → World → List Operation → Operation → Tool → Json → Reply Confirmation → Run
confirm_with w x ops o tool result (returns c) =
    if c.confirmed
    then conclude w x ops o tool result
    else finish w x ops o tool
        (move w ops o uncertain (record no_change {
          result = some result;
          reconciliation = c.detail;
          next_reconcile_at = later w;
          error = or_text c.reason "External confirmation is inconclusive";
        }))
        uncertain_answer
confirm_with w x ops o tool result (throws message) = caught w x ops o tool message
confirm_with w x ops o tool result dies = record {
  operations = ops;
  answer = gone;
  invocations = 1;
}

abbrev pub confirm : Setting → World → List Operation → Operation → Tool → Json → Run
confirm w x ops o tool result =
    if tool.has_confirm
    then confirm_with w x ops o tool result x.confirms
    else conclude w x ops o tool result

abbrev pub perform_with : Setting → World → List Operation → Operation → Tool → Reply Json → Run
perform_with w x ops o tool (returns result) = confirm w x ops o tool result
perform_with w x ops o tool (throws message) = caught w x ops o tool message
perform_with w x ops o tool dies = record { operations = ops; answer = gone; invocations = 1 }

-- The transition to EXECUTING, the call of the tool, and what follows.
unfoldable pub perform : Setting → World → List Operation → Operation → Tool → Run
perform w x ops o tool =
    elim (move w ops o executing
      (record no_change { increment_attempt = true; expected_state = some o.state })) [
        | err e ↦ stop ops (raises e)
        | ok (ops', o') ↦ perform_with w x ops' o' tool x.invokes
      ]

infixl 5 ◌>>=◌
abbrev pub ◌>>=◌ : Phase → (List Operation → Operation → Phase) → Phase
goes ops o >>= f = f ops o
ends r >>= f = ends r

abbrev pub run_phase : Phase → (List Operation → Operation → Run) → Run
run_phase (goes ops o) f = f ops o
run_phase (ends r) f = r

-- The early returns on a final state.
abbrev pub replay : List Operation → Operation → Phase
replay ops o =
    if state_eq o.state confirmed
    then ends (stop ops (decorated o.result o.id o.state true))
    else if state_eq o.state compensated
    then ends (stop ops (refused o.id o.state))
    else goes ops o

unfoldable pub execute_once : Setting → World → List Operation → Tool → Context → Run
unfolding admit recover resolve perform
execute_once w x ops tool c =
    run_phase
      (admit w x ops tool c
        >>= replay
        >>= (λ ops' o. recover w ops' o tool)
        >>= (λ ops' o. resolve w x ops' o tool))
      (λ ops' o. perform w x ops' o tool)

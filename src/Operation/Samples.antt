-- ===== src/Operation/Samples.antt =====
-- An operation on the store of one task, and the theorems of the sibling modules applied to it.
use asynchronnous_agent_os.Prelude.{ℕ, ◌≡◌, ◌≤◌, refl, Bool, true, false, List, [], ◌∷◌, none, some}
use asynchronnous_agent_os.Json.{Json, null, text}
use asynchronnous_agent_os.Table.{find}
use asynchronnous_agent_os.Store.Sample.{one_task}
use asynchronnous_agent_os.Operation.{
  Operation, operation_key, Mode, non_idempotent, reconcilable, uncertain, reconciling, find_by_key,
  invalid_transition,
}
use asynchronnous_agent_os.Operation.Manager.{
  Reply, returns, dies, Reconciliation, World, Tool, Context, Setting, new_operation,
}
use asynchronnous_agent_os.Operation.Execute.{fails, interrupted, reconcile}
use asynchronnous_agent_os.Operation.History.{execute_all, at_most_once}
use asynchronnous_agent_os.Operation.Due.{failed_at, get_operations_due, reconcile_due}
use asynchronnous_agent_os.Operation.Wedged.{reconcile_wedged, reconcile_due_blocked}

abbrev setting : ℕ → Setting
setting now = record {
  now = now;
  reconcile_interval = 60000;
  accepts = λ limit value. true;
  same_json = λ a b. true;
  new_id = now;
  bounded = λ limit t. true;
  store = one_task;
  text_of_id = λ id. "id";
  max_reconcile_attempts = 8;
}

abbrev mail : Mode → Bool → Tool
mail mode has_reconcile = record {
  name = "mail.send";
  resource_pool = "isolated-side-effects";
  mode = mode;
  has_prepare = false;
  has_confirm = false;
  has_reconcile = has_reconcile;
  has_compensate = false;
}

abbrev call : Context
call = record {
  idempotency_key = "7:send";
  goal_id = 7;
  task_id = 1;
  request = null;
  approval_granted = true;
}

abbrev world : Reply Json → World
world reply = record {
  prepares = dies;
  invokes = reply;
  confirms = dies;
  reconciles = dies;
  aborted = false;
}

-- The process dies in the first call; the second would have sent the mail again.
at_most_once_example :
    (execute_all
      (mail non_idempotent false)
      call
      ((setting 100, world dies) ∷ (setting 200, world (returns (text "sent"))) ∷ [])
      []).1
    ≤ 1
unfolding find_by_key
at_most_once_example =
    at_most_once (mail non_idempotent false) call refl refl
      ((setting 100, world dies) ∷ (setting 200, world (returns (text "sent"))) ∷ []) [] refl

abbrev unsure_mail : Operation
unsure_mail = record (new_operation (setting 100) (mail reconcilable true) call none) {
  state = uncertain;
  next_reconcile_at = some 150;
}

reconcile_wedged_example :
    (ops' : List Operation) × (o' : Operation) × (reconcile
        (setting 200)
        dies
        (unsure_mail ∷ [])
        unsure_mail
        (mail reconcilable true)
      ≡ interrupted ops')
    × (find 100 ops' ≡ some o')
    × (o'.state ≡ reconciling)
    × ((later : Setting) (reply : Reply Reconciliation)
        → reconcile later reply ops' o' (mail reconcilable true) ≡ fails ops' invalid_transition)
unfolding find
reconcile_wedged_example =
    reconcile_wedged (setting 200) (unsure_mail ∷ []) unsure_mail (mail reconcilable true) refl refl
      refl

abbrev wedged_mail : Operation
wedged_mail = record unsure_mail { state = reconciling; next_reconcile_at = none; updated_at = 200 }

abbrev other_mail : Operation
other_mail = record unsure_mail { id = 101; idempotency_key = "7:again"; updated_at = 201 }

reconcile_due_blocked_example :
    reconcile_due
      (setting 300)
      (λ id. dies)
      (λ name. some (mail reconcilable true))
      (other_mail ∷ wedged_mail ∷ [])
    ≡ failed_at (other_mail ∷ wedged_mail ∷ []) 100 invalid_transition
unfolding find get_operations_due
reconcile_due_blocked_example =
    reconcile_due_blocked (setting 300) (λ id. dies) (λ name. some (mail reconcilable true))
      (other_mail ∷ wedged_mail ∷ []) wedged_mail (other_mail ∷ []) (mail reconcilable true) refl
      refl refl refl refl refl

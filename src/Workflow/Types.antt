-- ===== src/Workflow/Types.antt =====
-- src/runtime/workflow-engine.js: workflow steps, what an action answers, and how a round ends.
use asynchronnous_agent_os.Prelude.{ℕ, zero, suc, true, String, List, [], ◌∷◌, Option, none, some}
use asynchronnous_agent_os.Json.{Json, null, boolean, object, Fields, no_fields, field}
use asynchronnous_agent_os.Store.{Store, Task, Snapshot, AuditType, task_key, goal_key}
use asynchronnous_agent_os.Events.{Surroundings}

-- A step of a workflow; `none` for a property that is missing.
pub data Step : Type 0 where
  recorded : (message : Json) → Step
  assigned : (name : String) (value : Json) → Step
  called : (action : String) (input : Json) (save_as : Option String) → Step
  delayed : (duration : Json) → Step
  awaits_event : (topic key : Json) (save_as : Option String) (timeout : ℕ) → Step
  emits : (topic key : Json) (payload : Option Json) → Step
  completes : (result : Option Json) → Step
  unsupported : (type : String) → Step

-- What an action answers: a value, a request to wait for a timer or an event, or an error.
pub data Reply : Type 0 where
  gives : Json → Reply
  waits_until : (state : Json) (wake_at : Option ℕ) (duration : ℕ) → Reply
  waits_for : (state : Json) (topic key : String) (deadline : Option ℕ) → Reply
  throws : String → Reply

-- One round: the clock, the error of the abort signal, the action's answer, what other calls do to
-- the store until then, and the surroundings of a publication.
pub record Moment : Type 0 where
  pub now : ℕ
  pub aborted : Option String
  pub reply : Reply
  pub meanwhile : Store → Store
  pub publication : Surroundings

-- The claimed task that the scheduler passes, and the parameters of the engine.
pub record Job : Type 0 where
  pub id : ℕ
  pub goal_id : ℕ
  pub lease_token : ℕ
  pub workflow : List Step
  pub snapshot : Snapshot
  pub objective : Json
  pub max_steps : ℕ
  pub expand : Fields → String → Json
  pub text_value : Json → String
  pub number_value : Json → ℕ
  pub text_of : ℕ → String

-- The turn returns what its last call returned, or throws.
pub data Outcome : Type 0 where
  returns : Option Task → Outcome
  raises : String → Outcome

abbrev pub step_at : ℕ → List Step → Option Step
step_at n [] = none
step_at zero (x ∷ xs) = some x
step_at (suc n) (x ∷ xs) = step_at n xs

abbrev pub append_note : Store → Job → AuditType → Store
append_note s j type = record s {
  audit = record { goal_id = j.goal_id; task_id = some j.id; type = type } ∷ s.audit;
}

abbrev pub or_else {ℓ} : {A : Type ℓ} → Option A → A → A
or_else none a = a
or_else (some b) a = b

-- `?? d`, where a property that is missing or null gives `d`.
abbrev pub json_or : Option Json → Json → Json
json_or none d = d
json_or (some null) d = d
json_or (some v) d = v

abbrev pub ok_result : Json
ok_result = object (field "ok" (boolean true) no_fields)

abbrev pub finish : Store × Option Task → Store × Outcome
finish (s, t) = (s, returns t)

-- A round goes on with a store and a snapshot, or ends the turn.
pub data Round : Type 0 where
  goes_on : Store → Snapshot → Round
  stops : Store × Outcome → Round

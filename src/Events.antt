-- ===== src/Events.antt =====
-- src/infra/store.js, publishEvent: the publication of an event, once for each replay key, and the
-- wake-up of the tasks that wait for it. `bounded` tells whether the texts and the payload are within
-- their limits, `same_json` compares canonical JSON texts, and `approval` is the status of the approval
-- that the correlation key names.
pub mod Consume
pub mod Replay
pub mod Growth
mod Samples
use asynchronnous_agent_os.Prelude.{
  ℕ, Bool, true, false, ◌&&◌, ◌||◌, not, String, List, [], ◌∷◌, ◌++◌, Option, none, some, str_eq,
  is_some, if◌then◌else◌, ◌==◌, any, keep, map,
}
use asynchronnous_agent_os.Domain.{WaitKind, event, status_eq, waiting, ready}
use asynchronnous_agent_os.Json.{Json, or_empty}
use asynchronnous_agent_os.Table.{find, update, each}
use asynchronnous_agent_os.Store.{
  Store, Task, Event, Delivery, PendingEvent, Snapshot, get_goal, update_task, append_audit,
  event_received, task_key, goal_key,
}
use asynchronnous_agent_os.Lifecycle.Sweep.{waits_for}

pub data ApprovalStatus : Type 0 where
  approved denied undecided : ApprovalStatus

-- The input; for `approval.resolved`, also what the payload's decision and status name.
pub record Publication : Type 0 where
  pub topic : String
  pub correlation_key : String
  pub payload : Json
  pub source : String
  pub idempotency_key : Option String
  pub tenant_id : Option String
  pub agent_id : Option String
  pub nonce : Option String
  pub authenticated : Bool
  pub auth_subject : Option String
  pub decision : Option ApprovalStatus
  pub claimed_status : Option ApprovalStatus

-- What surrounds a call: the clock, a fresh id, and the parameters.
pub record Surroundings : Type 0 where
  pub now : ℕ
  pub new_id : ℕ
  pub bounded : Publication → Bool
  pub same_json : Json → Json → Bool
  pub approval : Option ApprovalStatus

pub data Outcome : Type 0 where
  -- The event, the awakened tasks, and whether it is a duplicate.
  published : Event → List ℕ → Bool → Outcome
  unbounded unauthorized_approval reused_key constraint_failed : Outcome

abbrev pub approval_eq : Option ApprovalStatus → Option ApprovalStatus → Bool
approval_eq (some approved) (some approved) = true
approval_eq (some denied) (some denied) = true
approval_eq (some undecided) (some undecided) = true
approval_eq none none = true
approval_eq _ _ = false

abbrev pub same_text : Option String → Option String → Bool
same_text none none = true
same_text (some a) (some b) = str_eq a b
same_text _ _ = false

-- The decision of the payload is `approve` or `deny`, or none of these.
abbrev pub is_decided : Option ApprovalStatus → Bool
is_decided (some approved) = true
is_decided (some denied) = true
is_decided _ = false

unfoldable pub authorized : Surroundings → Publication → Bool
authorized w i =
    not (str_eq i.topic "approval.resolved")
    || (str_eq i.source "approval-api"
        && (i.authenticated
            && (same_text i.auth_subject (some "gateway-operator")
                && (is_some w.approval
                    && (is_decided i.decision
                        && (approval_eq w.approval i.decision
                            && approval_eq i.claimed_status w.approval))))))

abbrev pub has_key : String → Event → Bool
has_key key e = same_text e.idempotency_key (some key)

abbrev pub has_nonce : String → String → Event → Bool
has_nonce source nonce e = str_eq e.source source && same_text e.nonce (some nonce)

unfoldable pub first_with : (Event → Bool) → List Event → Option Event
first_with test [] = none
first_with test (e ∷ events) = if test e then some e else first_with test events

unfoldable pub find_existing : Publication → List Event → Option Event
find_existing i events = elim i.idempotency_key [
  | some key ↦ first_with (has_key key) events
  | none ↦ elim i.nonce [ some nonce ↦ first_with (has_nonce i.source nonce) events | none ↦ none ]
]

abbrev pub payload_of : Publication → Json
payload_of i = or_empty i.payload

unfoldable pub equivalent : Surroundings → Event → Publication → Bool
equivalent w e i =
    str_eq e.topic i.topic
    && (str_eq e.correlation_key i.correlation_key
        && (str_eq e.source i.source
            && (same_text e.idempotency_key i.idempotency_key
                && (same_text e.nonce i.nonce
                    && (same_text e.tenant_id i.tenant_id
                        && (same_text e.agent_id i.agent_id
                            && ((if e.authenticated then i.authenticated else not i.authenticated)
                                && (same_text e.auth_subject i.auth_subject
                                    && w.same_json e.payload (payload_of i)))))))))

abbrev pub event_of : Surroundings → Publication → Event
event_of w i = record {
  id = w.new_id;
  topic = i.topic;
  correlation_key = i.correlation_key;
  payload = payload_of i;
  source = i.source;
  idempotency_key = i.idempotency_key;
  tenant_id = i.tenant_id;
  agent_id = i.agent_id;
  nonce = i.nonce;
  authenticated = i.authenticated;
  auth_subject = i.auth_subject;
  created_at = w.now;
}

-- The primary key of `events` and its unique index on source and nonce; the column of idempotency
-- keys is unique too, but then the row was found before.
unfoldable pub violates : Event → List Event → Bool
violates e events =
    any (λ x. x.id == e.id) events
    || elim e.nonce [ none ↦ false | some nonce ↦ any (has_nonce e.source nonce) events ]

-- `(? IS NULL OR g.column = ?)`
abbrev pub admits : Option String → String → Bool
admits none value = true
admits (some wanted) value = str_eq value wanted

unfoldable pub awaits : Store → Event → Task → Bool
awaits s e t =
    status_eq t.status waiting
    && (waits_for event t.wait_kind
        && (same_text t.wait_topic (some e.topic)
            && (same_text t.wait_key (some e.correlation_key) && elim (get_goal s t.goal_id) [
              | none ↦ false
              | some g ↦ admits e.tenant_id g.tenant_id && admits e.agent_id g.agent_id
            ])))

abbrev pub pending : Event → PendingEvent
pending e = record {
  id = e.id;
  topic = e.topic;
  correlation_key = e.correlation_key;
  payload = e.payload;
  created_at = e.created_at;
}

-- The snapshot that is written is that of the row that was read.
abbrev pub received : Event → Task → ℕ → Task → Task
received e read now t = record t {
  status = ready;
  snapshot = record read.snapshot { pending_event = some (pending e) };
  wait_kind = none;
  wait_topic = none;
  wait_key = none;
  wake_at = none;
  next_run_at = now;
  updated_at = now;
}

-- `INSERT OR IGNORE INTO event_deliveries`
unfoldable pub deliver : Store → ℕ → ℕ → Store
deliver s e task =
    if any (λ d. d.event_id == e && d.task_id == task) s.deliveries
    then s
    else record s { deliveries = s.deliveries ++ (record { event_id = e; task_id = task } ∷ []) }

unfoldable pub awaken : Event → ℕ → Store → Task → Store
awaken e now s t =
    append_audit
      (update_task (deliver s e.id t.id) t.id (λ r. status_eq r.status waiting) (received e t now))
      t event_received

unfoldable pub publish_event : Surroundings → Store → Publication → Store × Outcome
publish_event w s i =
    if not (w.bounded i)
    then (s, unbounded)
    else if not (authorized w i)
    then (s, unauthorized_approval)
    else elim (find_existing i s.events) [
      | some e ↦ if equivalent w e i then (s, published e [] true) else (s, reused_key)
      | none ↦
          let e = event_of w i in
          let rows = keep (awaits s e) s.tasks in
          if violates e s.events then (s, constraint_failed) else (
            each (awaken e w.now) (record s { events = s.events ++ (e ∷ []) }) rows,
            published e (map (λ t. t.id) rows) false,
          )
    ]

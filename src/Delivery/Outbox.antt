-- ===== src/Delivery/Outbox.antt =====
-- src/infra/store.js, the table `outbox`, and src/platform/channels.js: the loop that drains it.
-- The bounds on texts are left out; `same_json` compares canonical texts. The id of a new row is an
-- argument; SQLite refuses one that is in use.
use asynchronnous_agent_os.Prelude.{
  ℕ, suc, ◌+◌, ◌*◌, ◌^◌, min, Bool, true, false, ◌&&◌, not, String, List, [], ◌∷◌, ◌++◌, Option,
  none, some, str_eq, leb, if◌then◌else◌, keep,
}
use asynchronnous_agent_os.Json.{Json, or_empty}
use asynchronnous_agent_os.Events.{same_text}
use asynchronnous_agent_os.Table.{Keyed, find, update}
use asynchronnous_agent_os.Usage.Quota.{take}

pub data OutboxStatus : Type 0 where
  pending retry delivered failed : OutboxStatus

-- `status IN ('PENDING', 'RETRY')`
abbrev pub is_open : OutboxStatus → Bool
is_open pending = true
is_open retry = true
is_open delivered = false
is_open failed = false

pub record Letter : Type 0 where
  pub id : ℕ
  pub session_id : Option String
  pub channel : String
  pub target : String
  pub payload : Json
  pub status : OutboxStatus
  pub attempt : ℕ
  pub next_attempt_at : ℕ
  pub idempotency_key : String
  pub last_error : Option String
  pub created_at : ℕ
  pub delivered_at : Option ℕ

instance abbrev pub letter_key : Keyed Letter
letter_key = record { key = λ r. r.id }

pub record Mail : Type 0 where
  pub session_id : Option String
  pub channel : String
  pub target : String
  pub payload : Json
  pub idempotency_key : String

pub data Queueing : Type 0 where
  queued : Letter → Queueing
  reused_key id_in_use message_refused : Queueing

-- `SELECT * FROM outbox WHERE idempotency_key = ?`
unfoldable pub letter_under : String → List Letter → Option Letter
letter_under key [] = none
letter_under key (r ∷ rows) = if str_eq r.idempotency_key key then some r else letter_under key rows

abbrev pub same_mail : (Json → Json → Bool) → Letter → Mail → Bool
same_mail same_json r i =
    same_text r.session_id i.session_id
    && (str_eq r.channel i.channel
        && (str_eq r.target i.target && same_json r.payload (or_empty i.payload)))

abbrev pub letter_of : Mail → ℕ → ℕ → Letter
letter_of i id now = record {
  id = id;
  session_id = i.session_id;
  channel = i.channel;
  target = i.target;
  payload = or_empty i.payload;
  status = pending;
  attempt = 0;
  next_attempt_at = now;
  idempotency_key = i.idempotency_key;
  last_error = none;
  created_at = now;
  delivered_at = none;
}

unfoldable pub enqueue_outbox :
    (Json → Json → Bool) → List Letter → Mail → ℕ → ℕ → List Letter × Queueing
enqueue_outbox same_json rows i id now = elim (letter_under i.idempotency_key rows) [
  | some r ↦ if same_mail same_json r i then (rows, queued r) else (rows, reused_key)
  | none ↦ elim (find id rows) [
    | some r ↦ (rows, id_in_use)
    | none ↦ (rows ++ (letter_of i id now ∷ []), queued (letter_of i id now))
  ]
]

-- `outbox.payload_json !== encode(payload)`: `same_text_of` compares the encoded texts.
abbrev pub same_message : (Json → Json → Bool) → Letter → String → Mail → Bool
same_message same_text_of r session i =
    same_text r.session_id (some session)
    && (str_eq r.channel i.channel
        && (str_eq r.target i.target && same_text_of r.payload i.payload))

abbrev pub letter_in : String → Mail → ℕ → ℕ → Letter
letter_in session i id at = record (letter_of i id at) {
  session_id = some session;
  payload = i.payload;
}

-- `session` is the id of the message's session, none for an unknown one; `appended` tells that
-- `appendMessage` returns. Where the code throws, the transaction is rolled back; `at` is the time of
-- the message. The table of messages is left out, and the bound on the key.
unfoldable pub append_message_and_enqueue_outbox :
    (Json → Json → Bool)
    → List Letter
    → Option String
    → Bool
    → Mail
    → ℕ
    → ℕ
    → List Letter × Queueing
append_message_and_enqueue_outbox same_text_of rows none appended i id at = (rows, message_refused)
append_message_and_enqueue_outbox same_text_of rows (some session) appended i id at =
    if not appended then (rows, message_refused) else elim (letter_under i.idempotency_key rows) [
      | some r ↦
          if same_message same_text_of r session i then (rows, queued r) else (rows, reused_key)
      | none ↦ elim (find id rows) [
        | some r ↦ (rows, id_in_use)
        | none ↦ let r = letter_in session i id at in (rows ++ (r ∷ []), queued r)
      ]
    ]

-- `DELETE FROM outbox WHERE session_id = ?`, in `purgeSession`.
unfoldable pub purge_outbox : List Letter → String → List Letter
purge_outbox rows session = keep (λ r. not (same_text r.session_id (some session))) rows

abbrev pub is_due : ℕ → Letter → Bool
is_due now r = is_open r.status && leb r.next_attempt_at now

-- The rows stand in the order of creation.
unfoldable pub get_due_outbox : List Letter → ℕ → ℕ → List Letter
get_due_outbox rows limit now = take limit (keep (is_due now) rows)

abbrev pub arrived : ℕ → Letter → Letter
arrived now r = record r { status = delivered; delivered_at = some now; attempt = suc r.attempt }

unfoldable pub mark_outbox_delivered : List Letter → ℕ → ℕ → List Letter
mark_outbox_delivered rows id now = update id (λ r. is_open r.status) (arrived now) rows

-- `Math.min(60_000, 1_000 * 2 ** attempt)`
abbrev pub retry_delay : ℕ → ℕ
retry_delay attempt = min 60000 (1000 * 2 ^ attempt)

abbrev pub bounced : String → ℕ → ℕ → Letter → Letter
bounced error attempt now r = record r {
  status = if leb 5 attempt then failed else retry;
  attempt = attempt;
  next_attempt_at = now + retry_delay attempt;
  last_error = some error;
}

-- `none` where the code throws, at an unknown row.
unfoldable pub mark_outbox_failed : List Letter → ℕ → String → ℕ → Option (List Letter)
mark_outbox_failed rows id error now = elim (find id rows) [
  | none ↦ none
  | some r ↦ some (update id (λ _. true) (bounced error (r.attempt + 1) now) rows)
]

-- What a channel answers to a letter: delivered, or an error; and what other calls do to the table
-- while it is sent.
pub record Channels : Type 0 where
  pub send : Letter → Option String
  pub meanwhile : Letter → List Letter → List Letter

unfoldable pub send_each : Channels → ℕ → List Letter → List Letter → Option (List Letter)
send_each c now rows [] = some rows
send_each c now rows (r ∷ due) =
    let rows' = c.meanwhile r rows in
    elim (c.send r) [
      | none ↦ send_each c now (mark_outbox_delivered rows' r.id now) due
      | some error ↦ elim (mark_outbox_failed rows' r.id error now) [
        | none ↦ none
        | some rows'' ↦ send_each c now rows'' due
      ]
    ]

unfoldable pub drain_outbox : Channels → ℕ → List Letter → Option (List Letter)
drain_outbox c now rows = send_each c now rows (get_due_outbox rows 20 now)

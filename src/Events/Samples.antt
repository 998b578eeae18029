-- ===== src/Events/Samples.antt =====
-- A task that waits for an event, and the theorem of the sibling module applied to its publication.
use asynchronnous_agent_os.Prelude.{◌≡◌, ◌≢◌, refl, true, false, [], ◌∷◌, some, none}
use asynchronnous_agent_os.Domain.{waiting, running, event}
use asynchronnous_agent_os.Json.{null}
use asynchronnous_agent_os.Table.{find, update, each}
use asynchronnous_agent_os.Store.{Event, Store}
use asynchronnous_agent_os.Store.Sample.{start, fresh, one_task}
use asynchronnous_agent_os.Events.{
  Publication, Surroundings, published, publish_event, find_existing, first_with, authorized,
  violates, awaits, awaken, deliver, event_of,
}
use asynchronnous_agent_os.Events.Consume.{
  consume_queued_event, consume_event_and_checkpoint, is_queued, earliest, consumed_once,
}
use asynchronnous_agent_os.Events.Replay.{publish_twice}

abbrev listener : Store
listener = record one_task {
  tasks =
      record (fresh 1) {
        status = waiting;
        wait_kind = some event;
        wait_topic = some "mail";
        wait_key = some "inbox";
      }
      ∷ [];
}

abbrev mail : Publication
mail = record {
  topic = "mail";
  correlation_key = "inbox";
  payload = null;
  source = "imap";
  idempotency_key = some "m-1";
  tenant_id = none;
  agent_id = none;
  nonce = none;
  authenticated = false;
  auth_subject = none;
  decision = none;
  claimed_status = none;
}

abbrev around : Surroundings
around = record {
  now = 120;
  new_id = 31;
  bounded = λ i. true;
  same_json = λ a b. true;
  approval = none;
}

abbrev notified : Store
notified = (publish_event around listener mail).0

publish_twice_example :
    publish_event (record around { now = 150; new_id = 32 }) notified mail
    ≡ (notified, published (event_of around mail) [] true)
unfolding publish_event find_existing first_with authorized violates awaits awaken deliver each
    update find
publish_twice_example =
    publish_twice around 150 32 listener notified mail "m-1" (event_of around mail) (1 ∷ []) false
      (λ j. refl) refl refl

abbrev second : Event
second =
    event_of (record around { now = 130; new_id = 33 })
      (record mail { idempotency_key = some "m-2" })

abbrev queue : Store
queue = record one_task {
  tasks = record (fresh 1) { status = running; lease_token = some 9 } ∷ [];
  events = event_of around mail ∷ second ∷ [];
}

abbrev consumed : Store
consumed = (consume_event_and_checkpoint queue 1 31 start (some 9) 140).0

-- The queue then holds the second event.
consumed_once_example : second.id ≢ 31
unfolding consume_queued_event consume_event_and_checkpoint is_queued earliest deliver find update
consumed_once_example =
    consumed_once queue 1 31 start (some 9) 140
      (record (fresh 1) { status = running; lease_token = some 9 }) consumed "mail" "inbox" second
      refl refl refl (λ d m. m) refl

-- ===== src/Delivery/Samples.antt =====
-- A letter that bounces, and the theorem of the sibling module applied to it.
use asynchronnous_agent_os.Prelude.{refl, Bool, true, List, [], ◌∷◌, none, some, All}
use asynchronnous_agent_os.Json.{Json, null}
use asynchronnous_agent_os.Table.{find, update}
use asynchronnous_agent_os.Delivery.Outbox.{
  Letter, Mail, letter_key, letter_under, letter_of, letter_in, enqueue_outbox,
  append_message_and_enqueue_outbox, bounced, mark_outbox_failed,
}
use asynchronnous_agent_os.Delivery.Sends.{
  Run, empty, next, enqueues, appends, bounces, OneEach, IsTried, letters_bounded,
}

abbrev greeting : Mail
greeting = record {
  session_id = none;
  channel = "console";
  target = "ops";
  payload = null;
  idempotency_key = "greet:1";
}

abbrev same_json : Json → Json → Bool
same_json a b = true

abbrev waiting : Letter
waiting = letter_of greeting 1 100

abbrev reply : Mail
reply = record greeting { idempotency_key = "reply:1" }

abbrev after_bounce : List Letter
after_bounce = bounced "offline" 1 200 waiting ∷ letter_in "s-1" reply 2 110 ∷ []

bounce_run : Run after_bounce
unfolding enqueue_outbox append_message_and_enqueue_outbox mark_outbox_failed find update
    letter_under
bounce_run =
    next
      (next (next empty (enqueues same_json greeting 1 100))
        (appends same_json (some "s-1") true reply 2 110))
      (bounces 1 200 "offline" waiting after_bounce refl refl refl)

letters_bounded_example : OneEach after_bounce × All IsTried after_bounce
letters_bounded_example = letters_bounded bounce_run

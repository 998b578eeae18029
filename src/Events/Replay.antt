-- ===== src/Events/Replay.antt =====
-- A publication that is repeated.
use asynchronnous_agent_os.Prelude.{
  ℕ, ◌≡◌, refl, ◌⊎◌, inl, inr, Bool, true, String, List, [], ◌∷◌, ◌++◌, Option, none, some, eq_iff,
  arith, keep, Option-cases, ◌∙◌,
}
use asynchronnous_agent_os.Json.{Json}
use asynchronnous_agent_os.Table.{each}
use asynchronnous_agent_os.Store.{Store, Task, Event}
use asynchronnous_agent_os.Events.{
  Publication, Surroundings, published, same_text, has_key, first_with, find_existing, equivalent,
  event_of, payload_of, awaits, awaken, deliver, publish_event, authorized,
}

same_text_refl : (t : Option String) → same_text t t ≡ true
same_text_refl none = refl
same_text_refl (some a) = (eq_iff a a).1 refl

first_with-append :
    (test : Event → Bool) (events : List Event) (e : Event)
    → first_with test events ≡ none
    → test e ≡ true
    → first_with test (events ++ (e ∷ [])) ≡ some e
unfolding first_with
first_with-append test [] e h t = ground arith
first_with-append test (x ∷ events) e h t = ground (arith, first_with-append test events e)

-- The wake-ups write no event.
each-awaken :
    (e : Event) (now : ℕ) (rows : List Task) (s : Store)
    → (each (awaken e now) s rows).events ≡ s.events
unfolding each awaken deliver
each-awaken e now [] s = refl
each-awaken e now (t ∷ rows) s =
    let p : (awaken e now s t).events ≡ s.events = ground arith in
    each-awaken e now rows (awaken e now s t) ∙ p

own_event :
    (w v : Surroundings) (i : Publication)
    → ((j : Json) → v.same_json j j ≡ true)
    → equivalent v (event_of w i) i ≡ true
unfolding equivalent
own_event w v i same = ground (
  arith,
  (eq_iff i.topic i.topic).1 refl,
  (eq_iff i.correlation_key i.correlation_key).1 refl,
  (eq_iff i.source i.source).1 refl,
  same_text_refl i.idempotency_key,
  same_text_refl i.nonce,
  same_text_refl i.tenant_id,
  same_text_refl i.agent_id,
  same_text_refl i.auth_subject,
  same (payload_of i),
)

-- What a publication that succeeds has done.
abbrev Stored : Surroundings → Store → Store → Publication → Event → Type 0
Stored w s s' i e =
    ((find_existing i s.events ≡ some e) × (equivalent w e i ≡ true) × (s' ≡ s))
    ⊎ ((find_existing i s.events ≡ none) × (e ≡ event_of w i) × (s'.events ≡ s.events ++ (e ∷ [])))

publish_event-Stored :
    (w : Surroundings) (s s' : Store) (i : Publication) (e : Event) (awakened : List ℕ)
    (duplicate : Bool)
    → publish_event w s i ≡ (s', published e awakened duplicate)
    → (w.bounded i ≡ true) × (authorized w i ≡ true) × Stored w s s' i e
unfolding publish_event
publish_event-Stored w s s' i e awakened duplicate h =
    elim (Option-cases (find_existing i s.events)) [
      | inl absent ↦
          let own : e ≡ event_of w i = ground arith in
          let rows : List Task = keep (awaits s (event_of w i)) s.tasks in
          let s1 : Store = record s { events = s.events ++ (event_of w i ∷ []) } in
          let after : s' ≡ each (awaken (event_of w i) w.now) s1 rows = ground arith in
          let stored : s'.events ≡ s.events ++ (e ∷ []) =
            rw (after, own) (each-awaken (event_of w i) w.now rows s1) in
          (ground arith, ground arith, inr (absent, own, stored))
      | inr (x, found) ↦
          let known : x ≡ e = ground arith in
          (ground arith, ground arith, inl (rw known at found, ground arith, ground arith))
    ]

publish_event-existing :
    (w : Surroundings) (s : Store) (i : Publication) (e : Event)
    → w.bounded i ≡ true
    → authorized w i ≡ true
    → find_existing i s.events ≡ some e
    → equivalent w e i ≡ true
    → publish_event w s i ≡ (s, published e [] true)
unfolding publish_event
publish_event-existing w s i e b a f q = ground arith

find_existing-append :
    (i : Publication) (key : String) (events : List Event) (e : Event)
    → i.idempotency_key ≡ some key
    → e.idempotency_key ≡ some key
    → find_existing i events ≡ none
    → find_existing i (events ++ (e ∷ [])) ≡ some e
unfolding find_existing
find_existing-append i key events e k own h =
    let fits : has_key key e ≡ true = rw own (same_text_refl (some key)) in
    let absent : first_with (has_key key) events ≡ none = ground arith in
    rw k (first_with-append (has_key key) events e absent fits)

-- Where an event has been published under an idempotency key, the same publication with the same
-- surroundings but for the clock and the fresh id changes nothing, wakes no task, and returns the
-- event of the first as a duplicate.
pub publish_twice :
    (w : Surroundings) (later new_id : ℕ) (s s' : Store) (i : Publication) (key : String)
    (e : Event) (awakened : List ℕ) (duplicate : Bool)
    → ((j : Json) → w.same_json j j ≡ true)
    → i.idempotency_key ≡ some key
    → publish_event w s i ≡ (s', published e awakened duplicate)
    → publish_event (record w { now = later; new_id = new_id }) s' i ≡ (s', published e [] true)
unfolding authorized equivalent
publish_twice w later new_id s s' i key e awakened duplicate same k h =
    let (b, a, stored) = publish_event-Stored w s s' i e awakened duplicate h in
    let v : Surroundings = record w { now = later; new_id = new_id } in
    elim stored [
      | inl (found, q, kept) ↦ publish_event-existing v s' i e b a (rw kept found) q
      | inr (absent, own, rows) ↦
          let named : e.idempotency_key ≡ some key = rw own k in
          publish_event-existing v s' i e b a
            (rw rows (find_existing-append i key s.events e k named absent))
            (rw own (own_event w v i same))
    ]

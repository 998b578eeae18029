-- ===== src/Events/Consume.antt =====
-- src/infra/store.js, consumeQueuedEvent and consumeEventAndCheckpoint: a worker takes an event that
-- was published before its task waited for it.
use asynchronnous_agent_os.Prelude.{
  ℕ, ◌≡◌, ◌≢◌, inl, inr, Bool, true, false, ◌&&◌, not, String, List, [], ◌∷◌, ◌++◌, Option, none,
  some, str_eq, arith, if◌then◌else◌, ◌==◌, ==_refl, any, keep, leb, ltb, Bool-cases, Option-cases,
  In, first, later,
}
use asynchronnous_agent_os.Table.{find}
use asynchronnous_agent_os.Store.{
  Store, Task, Event, Delivery, Snapshot, get_task, get_goal, update_task, runs_under, touch,
  task_key, goal_key,
}
use asynchronnous_agent_os.Events.{deliver, same_text}

-- `(e.column IS NULL OR e.column = ?)`
abbrev pub open_to : Option String → Option String → Bool
open_to none owner = true
open_to (some wanted) owner = same_text owner (some wanted)

abbrev pub delivered : Store → ℕ → ℕ → Bool
delivered s e task = any (λ d. d.event_id == e && d.task_id == task) s.deliveries

unfoldable pub is_queued : Store → Task → String → String → Event → Bool
is_queued s t topic key e =
    let tenant : Option String = elim (get_goal s t.goal_id) [
      | none ↦ none
      | some g ↦ some g.tenant_id
    ] in
    let agent : Option String = elim (get_goal s t.goal_id) [
      | none ↦ none
      | some g ↦ some g.agent_id
    ] in
    not (delivered s e.id t.id)
    && (str_eq e.topic topic
        && (str_eq e.correlation_key key
            && (leb t.created_at e.created_at
                && (open_to e.tenant_id tenant && open_to e.agent_id agent))))

-- `ORDER BY created_at ASC LIMIT 1`; of events of one time, the first.
unfoldable pub earliest : List Event → Option Event
earliest [] = none
earliest (e ∷ events) = elim (earliest events) [
  | none ↦ some e
  | some f ↦ if ltb f.created_at e.created_at then some f else some e
]

unfoldable pub consume_queued_event : Store → ℕ → String → String → Option Event
consume_queued_event s task topic key = elim (get_task s task) [
  | none ↦ none
  | some t ↦ earliest (keep (is_queued s t topic key) s.events)
]

-- The row of a delivery names a row of `events` (a foreign key).
abbrev pub is_published : Store → ℕ → Bool
is_published s e = any (λ x. x.id == e) s.events

-- At an event that is not in the table the insertion throws, and the transaction is rolled back.
unfoldable pub consume_event_and_checkpoint :
    Store → ℕ → ℕ → Snapshot → Option ℕ → ℕ → Store × Option Task
consume_event_and_checkpoint s task e snapshot lease now = elim (get_task s task) [
  | none ↦ (s, none)
  | some t ↦
      let s' =
        update_task s task (runs_under lease) (λ r. record (touch now r) { snapshot = snapshot }) in
      let s'' = if runs_under lease t then deliver s' e task else s' in
      if runs_under lease t && not (is_published s e) then (s, none) else (s'', get_task s'' task)
]

earliest-keep :
    (p : Event → Bool) (events : List Event) (e : Event)
    → earliest (keep p events) ≡ some e
    → p e ≡ true
unfolding earliest
earliest-keep p [] e h = ground arith
earliest-keep p (x ∷ events) e h = elim (Bool-cases (p x)) [
  | inl fits ↦ elim (Option-cases (earliest (keep p events))) [
    | inl last ↦ let own : x ≡ e = ground arith in rw own at fits
    | inr (f, found) ↦
        let ih : p f ≡ true = earliest-keep p events f found in
        elim (Bool-cases (ltb f.created_at x.created_at)) [
          | inl older ↦ let own : f ≡ e = ground arith in rw own at ih
          | inr newer ↦ let own : x ≡ e = ground arith in rw own at fits
        ]
  ]
  | inr other ↦ earliest-keep p events e (rw other at h)
]

any-append :
    (p : Delivery → Bool) (ds : List Delivery) (d : Delivery)
    → p d ≡ true
    → any p (ds ++ (d ∷ [])) ≡ true
any-append p [] d h = ground arith
any-append p (x ∷ ds) d h = ground (arith, any-append p ds d h)

deliver-delivered : (s : Store) (e task : ℕ) → delivered (deliver s e task) e task ≡ true
unfolding deliver
deliver-delivered s e task = elim (Bool-cases (delivered s e task)) [
  | inl before ↦ rw before before
  | inr new ↦ rw new (
      any-append (λ d. d.event_id == e && d.task_id == task) s.deliveries
        (record { event_id = e; task_id = task }) (ground (arith, ==_refl e, ==_refl task)))
]

In-any :
    (p : Delivery → Bool) (ds : List Delivery) (d : Delivery)
    → In d ds
    → p d ≡ true
    → any p ds ≡ true
In-any p [] d m h = elim m [ ]
In-any p (x ∷ ds) _ first h = rw h
In-any p (x ∷ ds) d (later m) h = ground (arith, In-any p ds d m h)

any-In :
    (p : Delivery → Bool) (ds es : List Delivery)
    → ((d : Delivery) → In d ds → In d es)
    → any p ds ≡ true
    → any p es ≡ true
any-In p [] es sub h = ground arith
any-In p (x ∷ ds) es sub h = elim (Bool-cases (p x)) [
  | inl e ↦ In-any p es x (sub x first) e
  | inr e ↦ any-In p ds es (λ d m. sub d (later m)) (ground arith)
]

find_id : (tasks : List Task) (id : ℕ) (t : Task) → find id tasks ≡ some t → t.id ≡ id
unfolding find
find_id [] id t h = ground arith
find_id (x ∷ tasks) id t h = ground (arith, find_id tasks id t)

-- Where a worker under the task's lease has consumed an event of the table, no look at the queue finds
-- that event for the task in any later store that still has the deliveries which the call left.
pub consumed_once :
    (s : Store) (task e : ℕ) (snapshot : Snapshot) (lease : Option ℕ) (now : ℕ) (t : Task)
    (after : Store) (topic key : String) (f : Event)
    → get_task s task ≡ some t
    → runs_under lease t ≡ true
    → is_published s e ≡ true
    → ((d : Delivery)
        → In d (consume_event_and_checkpoint s task e snapshot lease now).0.deliveries
        → In d after.deliveries)
    → consume_queued_event after task topic key ≡ some f
    → f.id ≢ e
unfolding consume_event_and_checkpoint consume_queued_event is_queued
consumed_once s task e snapshot lease now t after topic key f h r known stands found =
    let s' : Store =
      update_task s task (runs_under lease) (λ u. record (touch now u) { snapshot = snapshot }) in
    let left : (consume_event_and_checkpoint s task e snapshot lease now).0.deliveries
        ≡ (deliver s' e task).deliveries =
      ground arith in
    let taken : delivered after e task ≡ true =
      any-In (λ d. d.event_id == e && d.task_id == task) (deliver s' e task).deliveries
        after.deliveries (λ d m. stands d (rw left m)) (deliver-delivered s' e task) in
    elim (Option-cases (get_task after task)) [
      | inl gone ↦ ground arith
      | inr (u, there) ↦
          let own : u.id ≡ task = find_id after.tasks task u there in
          let queued : is_queued after u topic key f ≡ true =
            earliest-keep (is_queued after u topic key) after.events f (ground arith) in
          let free : delivered after f.id u.id ≡ false = ground arith in
          let free' : delivered after f.id task ≡ false = rw own at free in
          λ p. absurd (cc (taken, free', p))
    ]

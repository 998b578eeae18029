-- ===== src/Events/Growth.antt =====
-- The publication and the consumption of events take the rows of `tasks` to rows that they may become.
use asynchronnous_agent_os.Prelude.{ℕ, ◌≡◌, true, List, [], ◌∷◌, ◌++◌, Option, arith, keep}
use asynchronnous_agent_os.Domain.{status_eq, waiting}
use asynchronnous_agent_os.Table.{each}
use asynchronnous_agent_os.Store.{Store, Task, Event, Snapshot, runs_under, touch}
use asynchronnous_agent_os.Lifecycle.Evolve.{Evolves, Grows, Grows-refl, Grows-trans}
use asynchronnous_agent_os.Lifecycle.Settle.{update-Rows}
use asynchronnous_agent_os.Events.{
  Publication, Surroundings, received, deliver, awaken, publish_event, awaits, event_of,
}
use asynchronnous_agent_os.Events.Consume.{consume_event_and_checkpoint}

Evolves-received :
    (e : Event) (read : Task) (now : ℕ) (t : Task)
    → status_eq t.status waiting ≡ true
    → Evolves t (received e read now t)
Evolves-received e read now t h = ground arith

awaken-Grows : (e : Event) (now : ℕ) (s : Store) (t : Task) → Grows s (awaken e now s t)
unfolding awaken deliver
awaken-Grows e now s t = ground (
  arith,
  update-Rows s t.id (λ r. status_eq r.status waiting) (received e t now)
      (Evolves-received e t now),
)

each-awaken-Grows :
    (e : Event) (now : ℕ) (rows : List Task) (s : Store) → Grows s (each (awaken e now) s rows)
unfolding each
each-awaken-Grows e now [] s = Grows-refl s
each-awaken-Grows e now (t ∷ rows) s =
    Grows-trans s (awaken e now s t) (each (awaken e now) (awaken e now s t) rows)
      (awaken-Grows e now s t) (each-awaken-Grows e now rows (awaken e now s t))

pub publish_event-Grows :
    (w : Surroundings) (s : Store) (i : Publication) → Grows s (publish_event w s i).0
unfolding publish_event
publish_event-Grows w s i =
    let e : Event = event_of w i in
    let s' : Store = record s { events = s.events ++ (e ∷ []) } in
    ground (arith, Grows-refl s, each-awaken-Grows e w.now (keep (awaits s e) s.tasks) s')

pub consume_event_and_checkpoint-Grows :
    (s : Store) (task e : ℕ) (snapshot : Snapshot) (lease : Option ℕ) (now : ℕ)
    → Grows s (consume_event_and_checkpoint s task e snapshot lease now).0
unfolding consume_event_and_checkpoint deliver
consume_event_and_checkpoint-Grows s task e snapshot lease now = ground (
  arith,
  Grows-refl s,
  update-Rows s task (runs_under lease) (λ r. record (touch now r) { snapshot = snapshot })
      (λ t h. ground arith),
)

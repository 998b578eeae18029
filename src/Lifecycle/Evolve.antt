-- ===== src/Lifecycle/Evolve.antt =====
-- What holds of every row of `tasks`, and how a row may change from one state of the store to a
-- later one.
use asynchronnous_agent_os.Prelude.{
  ℕ, ◌≤◌, ◌<◌, ◌≡◌, refl, Bool, true, false, ◌&&◌, List, [], ◌∷◌, Option, none, some, arith,
  is_some, All, inl, inr, ◌==◌, Bool-cases,
}
use asynchronnous_agent_os.Domain.{
  WaitKind, timer, event, status_eq, is_terminal, waiting, running, paused,
}
use asynchronnous_agent_os.Table.{find, Distinct}
use asynchronnous_agent_os.Table.Laws.{Rows, Rows-refl, Rows-trans, Rows-All}
use asynchronnous_agent_os.Store.{Store, Task, task_key}

abbrev pub names_wait : Option WaitKind → Task → Bool
names_wait none t = false
names_wait (some timer) t = is_some t.wake_at
names_wait (some event) t = is_some t.wait_topic && is_some t.wait_key

-- A task holds a lease exactly while it runs, has an end time exactly when its status is final,
-- names what it waits for and what it was paused from, and has attempts left unless it has ended. A
-- task that waits names a timer and its time, or an event and its topic and key.
pub record IsValid (t : Task) : Type 0 where
  pub leased : is_some t.lease_token ≡ status_eq t.status running
  pub expires : is_some t.lease_expires_at ≡ status_eq t.status running
  pub ended : is_some t.completed_at ≡ is_terminal t.status
  pub waits : t.status ≡ waiting → names_wait t.wait_kind t ≡ true
  pub pauses : t.status ≡ paused → is_some t.paused_from_status ≡ true
  pub attempts_left : is_terminal t.status ≡ false → t.failure_count < t.max_attempts
  pub attempts_bounded : t.failure_count ≤ t.max_attempts

-- The outcome of a task: what must not change once its status is final.
pub record SameOutcome (t u : Task) : Type 0 where
  pub status : u.status ≡ t.status
  pub result : u.result ≡ t.result
  pub completed_at : u.completed_at ≡ t.completed_at
  pub failure_count : u.failure_count ≡ t.failure_count

pub record Evolves (t u : Task) : Type 0 where
  pub id : u.id ≡ t.id
  pub goal_id : u.goal_id ≡ t.goal_id
  pub depends_on : u.depends_on ≡ t.depends_on
  pub max_attempts : u.max_attempts ≡ t.max_attempts
  pub revision : t.revision ≤ u.revision
  pub attempt : t.attempt ≤ u.attempt
  pub valid : IsValid t → IsValid u
  pub outcome : IsValid t → is_terminal t.status ≡ true → SameOutcome t u

pub Evolves-refl : (t : Task) → Evolves t t
Evolves-refl t = record {
  id = refl;
  goal_id = refl;
  depends_on = refl;
  max_attempts = refl;
  revision = omega arith;
  attempt = omega arith;
  valid = λ v. v;
  outcome =
      λ v e. record { status = refl; result = refl; completed_at = refl; failure_count = refl };
}

pub Evolves-trans : (t u v : Task) → Evolves t u → Evolves u v → Evolves t v
Evolves-trans t u v a b = record {
  id = cc (a.id, b.id);
  goal_id = cc (a.goal_id, b.goal_id);
  depends_on = cc (a.depends_on, b.depends_on);
  max_attempts = cc (a.max_attempts, b.max_attempts);
  revision = omega (arith, a.revision, b.revision);
  attempt = omega (arith, a.attempt, b.attempt);
  valid = λ h. b.valid (a.valid h);
  outcome = λ h e.
      let x = a.outcome h e in
      let y = b.outcome (a.valid h) (rw x.status e) in
      record {
        status = cc (x.status, y.status);
        result = cc (x.result, y.result);
        completed_at = cc (x.completed_at, y.completed_at);
        failure_count = cc (x.failure_count, y.failure_count);
      };
}

-- The rows of one state of the store and those of a later one.
abbrev pub Grows : Store → Store → Type 0
Grows s s' = Rows Evolves s.tasks s'.tasks

pub Grows-refl : (s : Store) → Grows s s
Grows-refl s = Rows-refl Evolves Evolves-refl s.tasks

pub Grows-trans : (s s' s'' : Store) → Grows s s' → Grows s' s'' → Grows s s''
Grows-trans s s' s'' g h = Rows-trans Evolves Evolves-trans s.tasks s'.tasks s''.tasks g h

pub record IsSound (s : Store) : Type 0 where
  pub distinct : Distinct s.tasks
  pub valid : All IsValid s.tasks

find-Evolves-none :
    (i : ℕ) (xs ys : List Task) → Rows Evolves xs ys → find i xs ≡ none → find i ys ≡ none
unfolding find
find-Evolves-none i [] [] g e = refl
find-Evolves-none i [] (y ∷ ys) g e = absurd g
find-Evolves-none i (x ∷ xs) [] g e = absurd g
find-Evolves-none i (x ∷ xs) (y ∷ ys) g e = ground (arith, g.0.id, find-Evolves-none i xs ys g.1)

Rows-Distinct : (xs ys : List Task) → Rows Evolves xs ys → Distinct xs → Distinct ys
Rows-Distinct [] [] g d = tt
Rows-Distinct [] (y ∷ ys) g d = absurd g
Rows-Distinct (x ∷ xs) [] g d = absurd g
Rows-Distinct (x ∷ xs) (y ∷ ys) g d =
    (rw (g.0.id) (find-Evolves-none x.id xs ys g.1 d.0), Rows-Distinct xs ys g.1 d.1)

pub Grows-IsSound : (s s' : Store) → Grows s s' → IsSound s → IsSound s'
Grows-IsSound s s' g h = record {
  distinct = Rows-Distinct s.tasks s'.tasks g h.distinct;
  valid = Rows-All Evolves IsValid (λ t u e v. e.valid v) s.tasks s'.tasks g h.valid;
}

pub find-Evolves :
    (i : ℕ) (t : Task) (ts us : List Task)
    → Rows Evolves ts us
    → find i ts ≡ some t
    → (u : Task) × (find i us ≡ some u) × Evolves t u
unfolding find
find-Evolves i t [] us h e = cc
find-Evolves i t (x ∷ ts) [] h e = absurd h
find-Evolves i t (x ∷ ts) (y ∷ us) h e = elim (Bool-cases (x.id == i)) [
  | inl found ↦
      let e' : some x ≡ some t = rw found at e in
      let same : x ≡ t = cc e' in (y, rw (h.0.id, found), rw same at (h.0))
  | inr later ↦
      let e' : find i ts ≡ some t = rw later at e in
      let (u, f, g) = find-Evolves i t ts us h.1 e' in (u, rw (h.0.id, later) f, g)
]

pub find-IsValid :
    (i : ℕ) (t : Task) (ts : List Task) → All IsValid ts → find i ts ≡ some t → IsValid t
unfolding find
find-IsValid i t [] v e = cc
find-IsValid i t (x ∷ ts) v e = elim (Bool-cases (x.id == i)) [
  | inl found ↦
      let e' : some x ≡ some t = rw found at e in let same : x ≡ t = cc e' in rw same at (v.0)
  | inr later ↦ let e' : find i ts ≡ some t = rw later at e in find-IsValid i t ts v.1 e'
]

-- What calls make of a store: a task stays, as a row that it may become, and the rows are valid.
pub record Later (s s' : Store) : Type 0 where
  pub kept :
      (id : ℕ) (t : Task)
      → find id s.tasks ≡ some t
      → (u : Task) × (find id s'.tasks ≡ some u) × Evolves t u
  pub sound : IsSound s'

pub Later-grown : {s s' : Store} → IsSound s → Grows s s' → Later s s'
Later-grown {s} {s'} h g = record {
  kept = λ id t e. find-Evolves id t s.tasks s'.tasks g e;
  sound = Grows-IsSound s s' g h;
}

pub Later-refl : {s : Store} → IsSound s → Later s s
Later-refl {s} h = Later-grown h (Grows-refl s)

pub Later-trans : {s t u : Store} → Later s t → Later t u → Later s u
Later-trans {s} {t} {u} a b = record {
  kept = λ id x e.
      let (y, f, g) = a.kept id x e in
      let (z, f', g') = b.kept id y f in (z, f', Evolves-trans x y z g g');
  sound = b.sound;
}

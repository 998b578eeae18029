-- ===== src/Lifecycle/Verdict.antt =====
-- Why `reconcileBlocked` fails a blocked task or makes it ready.
use asynchronnous_agent_os.Prelude.{
  ℕ, ◌≡◌, ◌≢◌, ◌≤◌, ◌⊎◌, refl, inl, inr, true, false, List, [], ◌∷◌, some, arith, ◌==◌, ==_refl,
  ==_iff, Bool-cases, Option-cases, All, In, first, later, any, all, length,
}
use asynchronnous_agent_os.Domain.{ready, blocked, succeeded, failed, cancelled}
use asynchronnous_agent_os.Table.{Distinct}
use asynchronnous_agent_os.Table.Laws.{find-update}
use asynchronnous_agent_os.Table.Keys.{Stands}
use asynchronnous_agent_os.Table.Loops.{each-Rows}
use asynchronnous_agent_os.Store.{Store, Task, get_task, task_key}
use asynchronnous_agent_os.Lifecycle.Settle.{reconcile_one-frame}
use asynchronnous_agent_os.Lifecycle.Dependents.{
  Settles, Settles-refl, Settles-trans, reconcile_one-Settles, reconcile_blocked-Settles, find-kept,
}
use asynchronnous_agent_os.Lifecycle.Goals.{
  get_tasks, is_lost, is_done, has_failed, all_succeeded, upstream_failed, unblocked, reconcile_one,
  is_blocked_in, reconcile_blocked,
}

abbrev pub HasSucceeded : Store → ℕ → Type 0
HasSucceeded s d = (x : Task) × (get_task s d ≡ some x) × (x.status ≡ succeeded)

abbrev pub IsLost : Store → ℕ → Type 0
IsLost s d = (x : Task) × (get_task s d ≡ some x) × ((x.status ≡ failed) ⊎ (x.status ≡ cancelled))

-- The row is as it was; or it was blocked, and is ready since all its dependencies have succeeded; or
-- it was blocked, and has failed since one of them has failed or was cancelled.
abbrev pub Verdict : Store → Task → Task → Type 0
Verdict s t u =
    (u ≡ t)
    ⊎ ((t.status ≡ blocked) × (u.status ≡ ready) × All (HasSucceeded s) t.depends_on)
    ⊎ ((t.status ≡ blocked) × (u.status ≡ failed) × ((d : ℕ) × In d t.depends_on × IsLost s d))

any-IsLost :
    (s : Store) (ids : List ℕ)
    → any is_lost (get_tasks s ids) ≡ true
    → (d : ℕ) × In d ids × IsLost s d
any-IsLost s [] h = ground arith
any-IsLost s (d ∷ ids) h = elim (Option-cases (get_task s d)) [
  | inl e ↦ let (x, m, l) = any-IsLost s ids (ground arith) in (x, later m, l)
  | inr (x, e) ↦ elim (Bool-cases (is_lost x)) [
    | inl l ↦ (d, first, (x, e, ground arith))
    | inr l ↦ let (y, m, k) = any-IsLost s ids (ground arith) in (y, later m, k)
  ]
]

length-get_tasks : (s : Store) (ids : List ℕ) → length (get_tasks s ids) ≤ length ids
length-get_tasks s [] = ground arith
length-get_tasks s (d ∷ ids) = elim (Option-cases (get_task s d)) [
  | inl e ↦ ground (arith, length-get_tasks s ids)
  | inr (x, e) ↦ ground (arith, length-get_tasks s ids)
]

all-HasSucceeded :
    (s : Store) (ids : List ℕ)
    → length (get_tasks s ids) ≡ length ids
    → all is_done (get_tasks s ids) ≡ true
    → All (HasSucceeded s) ids
all-HasSucceeded s [] n h = tt
all-HasSucceeded s (d ∷ ids) n h = elim (Option-cases (get_task s d)) [
  | inl e ↦ absurd (ground (arith, length-get_tasks s ids))
  | inr (x, e) ↦ ((x, e, ground arith), all-HasSucceeded s ids (ground arith) (ground arith))
]

module _ (goal now : ℕ) where
  -- A row that is not blocked stands after a step of the loop.
  step-kept :
      (s : Store) (t x : Task) (d : ℕ)
      → Stands s.tasks t
      → is_blocked_in goal t ≡ true
      → get_task s d ≡ some x
      → x.status ≢ blocked
      → get_task (reconcile_one now s t) d ≡ some x
  unfolding reconcile_one
  step-kept s t x d st b e ne = elim (Bool-cases (t.id == d)) [
    | inl own ↦
        let here : t.id ≡ d = (==_iff t.id d).0 own in
        let same : t ≡ x = let f : get_task s d ≡ some t = rw (← here) st in cc (e, f) in
        absurd (ground (arith, same, b))
    | inr other ↦ ground (
      arith,
      find-update t.id d (λ _. true) (upstream_failed now) (λ y. refl) s.tasks,
      find-update t.id d (λ _. true) (unblocked now) (λ y. refl) s.tasks,
    )
  ]

  other-kept :
      (s : Store) (t : Task) (i : ℕ)
      → (t.id == i) ≡ false
      → get_task (reconcile_one now s t) i ≡ get_task s i
  unfolding reconcile_one
  other-kept s t i ne = ground (
    arith,
    find-update t.id i (λ _. true) (upstream_failed now) (λ y. refl) s.tasks,
    find-update t.id i (λ _. true) (unblocked now) (λ y. refl) s.tasks,
  )

  own_row :
      (s : Store) (t u : Task)
      → Stands s.tasks t
      → is_blocked_in goal t ≡ true
      → get_task (reconcile_one now s t) t.id ≡ some u
      → Verdict s t u
  unfolding reconcile_one
  own_row s t u st b e =
      let failed_row =
        find-update t.id t.id (λ _. true) (upstream_failed now) (λ y. refl) s.tasks in
      let ready_row = find-update t.id t.id (λ _. true) (unblocked now) (λ y. refl) s.tasks in
      elim (Bool-cases (has_failed s t)) [
        | inl f ↦
            let is : u ≡ upstream_failed now t = ground (arith, failed_row, ==_refl t.id) in
            inr (inr (ground arith, rw is refl, any-IsLost s t.depends_on f))
        | inr f ↦ elim (Bool-cases (all_succeeded s t)) [
          | inl g ↦
              let is : u ≡ unblocked now t = ground (arith, ready_row, ==_refl t.id) in
              let n : length (get_tasks s t.depends_on) ≡ length t.depends_on = ground arith in
              inr (inl (ground arith, rw is refl, all-HasSucceeded s t.depends_on n (ground arith)))
          | inr g ↦ inl (ground arith)
        ]
      ]

  module _ (s : Store) (t : Task) (st : Stands s.tasks t) (b : is_blocked_in goal t ≡ true) where
    done_stays :
        (ids : List ℕ) → All (HasSucceeded s) ids → All (HasSucceeded (reconcile_one now s t)) ids
    done_stays [] h = tt
    done_stays (d ∷ ids) ((x, e, done), h) =
        ((x, step-kept s t x d st b e (ground arith), done), done_stays ids h)

    verdict_stays : (a u : Task) → Verdict s a u → Verdict (reconcile_one now s t) a u
    verdict_stays a u (inl e) = inl e
    verdict_stays a u (inr (inl (was, is, h))) = inr (inl (was, is, done_stays a.depends_on h))
    verdict_stays a u (inr (inr (was, is, (d, m, (x, e, lost))))) =
        inr (inr (was, is, (d, m, (x, step-kept s t x d st b e (ground arith), lost))))

    -- A row that is still blocked is the one that the loop began with.
    blocked_is_old : (a : Task) → Verdict s a t → t ≡ a
    blocked_is_old a (inl e) = e
    blocked_is_old a (inr (inl (was, is, h))) = absurd (ground arith)
    blocked_is_old a (inr (inr (was, is, h))) = absurd (ground arith)

  -- The verdicts so far, of the rows that the loop began with.
  abbrev Judged : Store → Store → Type 0
  Judged start s =
      (i : ℕ) (a u : Task) → get_task start i ≡ some a → get_task s i ≡ some u → Verdict s a u

  step-Judged :
      (start s : Store) (t : Task)
      → Judged start s
      → Stands s.tasks t
      → is_blocked_in goal t ≡ true
      → Judged start (reconcile_one now s t)
  step-Judged start s t h st b i a u e f = elim (Bool-cases (t.id == i)) [
    | inr other ↦
        let g : get_task s i ≡ some u = rw (other-kept s t i other) at f in
        verdict_stays s t st b a u (h i a u e g)
    | inl own ↦
        let here : t.id ≡ i = (==_iff t.id i).0 own in
        let g : get_task s i ≡ some t = rw (← here) st in
        let same : t ≡ a = blocked_is_old s t st b a (h i a t e g) in
        let k : get_task (reconcile_one now s t) t.id ≡ some u = rw (← here) at f in
        rw (← same) (verdict_stays s t st b t u (own_row s t u st b k))
  ]

  judged : (s : Store) → Distinct s.tasks → Judged s (reconcile_blocked s goal now)
  unfolding reconcile_blocked
  judged s d =
      (each-Rows (λ r. r.tasks) (reconcile_one now) (Settles goal now) (Settles-refl goal now)
        (Settles-trans goal now) (is_blocked_in goal) (Judged s)
        (λ r t h st b. step-Judged s r t h st b) (λ r t _. reconcile_one-Settles goal now r t)
        (λ r t u _. reconcile_one-frame goal now r t u) s (λ i a u e f. inl (cc (e, f))) d).0

  -- Where no two rows have one id, the pass over the blocked tasks of a goal keeps every task, and
  -- each is as it was; or it was blocked, and is ready, and each of its dependencies is in the table
  -- and has succeeded; or it was blocked, and has failed, and one of its dependencies has failed or
  -- was cancelled.
  pub reconcile_blocked_lem :
      (s : Store) (id : ℕ) (t : Task)
      → Distinct s.tasks
      → get_task s id ≡ some t
      → (u : Task) × (get_task (reconcile_blocked s goal now) id ≡ some u)
        × Verdict (reconcile_blocked s goal now) t u
  reconcile_blocked_lem s id t d e =
      let (u, f) =
        find-kept goal now id t s.tasks (reconcile_blocked s goal now).tasks
          (reconcile_blocked-Settles goal now s d) e in
      (u, f, judged s d id t u e f)

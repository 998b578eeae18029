-- ===== src/Lifecycle/Fixpoint.antt =====
-- `reconcileBlocked` is one pass in the order of the table. Where every dependency of a blocked task
-- stands before it, one pass is enough.
use asynchronnous_agent_os.Prelude.{
  ℕ, ◌≡◌, refl, sym, ◌∙◌, inl, inr, Bool, true, false, List, [], ◌∷◌, none, some, arith, ◌==◌, All,
  Bool-cases,
}
use asynchronnous_agent_os.Domain.{status_eq, blocked}
use asynchronnous_agent_os.Table.{find, each, Distinct}
use asynchronnous_agent_os.Table.Laws.{find-update}
use asynchronnous_agent_os.Table.Keys.{Stands, Picked}
use asynchronnous_agent_os.Store.{Store, Task, task_key}
use asynchronnous_agent_os.Lifecycle.Goals.{
  get_tasks, upstream_failed, unblocked, has_failed, all_succeeded, reconcile_one,
}

-- No dependency of a row is the row itself or a later one.
abbrev pub IsOrdered : List Task → Type 0
IsOrdered [] = Unit
IsOrdered (t ∷ rows) = All (λ d. find d (t ∷ rows) ≡ none) t.depends_on × IsOrdered rows

-- Neither test of the pass holds of the row any more, if it is still blocked.
abbrev pub Settled : Store → Task → Type 0
Settled s t =
    (u : Task)
    → find t.id s.tasks ≡ some u
    → status_eq u.status blocked ≡ true
    → (has_failed s t ≡ false) × (all_succeeded s t ≡ false)

abbrev Agrees : Store → Store → ℕ → Type 0
Agrees s s' d = find d s'.tasks ≡ find d s.tasks

get_tasks-Agrees :
    (s s' : Store) (ids : List ℕ) → All (Agrees s s') ids → get_tasks s' ids ≡ get_tasks s ids
get_tasks-Agrees s s' [] h = refl
get_tasks-Agrees s s' (i ∷ ids) h = ground (arith, h.0, get_tasks-Agrees s s' ids h.1)

module _ (now : ℕ) where
  one-Agrees :
      (s : Store) (t : Task) (d : ℕ) → (t.id == d) ≡ false → Agrees s (reconcile_one now s t) d
  unfolding reconcile_one
  one-Agrees s t d ne = ground (
    arith,
    find-update t.id d (λ _. true) (upstream_failed now) (λ _. refl) s.tasks,
    find-update t.id d (λ _. true) (unblocked now) (λ _. refl) s.tasks,
  )

  ne_of_fresh :
      (t : Task) (rows : List Task) (d : ℕ) → find d (t ∷ rows) ≡ none → (t.id == d) ≡ false
  unfolding find
  ne_of_fresh t rows d h = ground arith

  fresh_tail : (t : Task) (rows : List Task) (d : ℕ) → find d (t ∷ rows) ≡ none → find d rows ≡ none
  unfolding find
  fresh_tail t rows d h = ground arith

  each-Agrees :
      (rows : List Task) (s : Store) (d : ℕ)
      → find d rows ≡ none
      → Agrees s (each (reconcile_one now) s rows) d
  unfolding each
  each-Agrees [] s d h = refl
  each-Agrees (t ∷ rows) s d h =
      each-Agrees rows (reconcile_one now s t) d (fresh_tail t rows d h)
      ∙ one-Agrees s t d (ne_of_fresh t rows d h)

  All-each-Agrees :
      (rows : List Task) (s : Store) (ids : List ℕ)
      → All (λ d. find d rows ≡ none) ids
      → All (Agrees s (each (reconcile_one now) s rows)) ids
  All-each-Agrees rows s [] h = tt
  All-each-Agrees rows s (d ∷ ids) h = (each-Agrees rows s d h.0, All-each-Agrees rows s ids h.1)

  -- What the handler does to its own row.
  flags_of_one :
      (s : Store) (t : Task)
      → Stands s.tasks t
      → ((u : Task)
          → find t.id (reconcile_one now s t).tasks ≡ some u
          → status_eq u.status blocked ≡ true
          → (has_failed s t ≡ false) × (all_succeeded s t ≡ false))
  unfolding reconcile_one
  flags_of_one s t e u f b = ground (
    arith,
    find-update t.id t.id (λ _. true) (upstream_failed now) (λ _. refl) s.tasks,
    find-update t.id t.id (λ _. true) (unblocked now) (λ _. refl) s.tasks,
  )

  first-Settled :
      (s : Store) (t : Task) (rows : List Task)
      → Stands s.tasks t
      → find t.id rows ≡ none
      → All (λ d. find d (t ∷ rows) ≡ none) t.depends_on
      → Settled (each (reconcile_one now) s (t ∷ rows)) t
  unfolding each
  first-Settled s t rows e fresh deps u f b =
      let s1 = reconcile_one now s t in
      let s2 = each (reconcile_one now) s1 rows in
      let f' : find t.id s1.tasks ≡ some u = sym (each-Agrees rows s1 t.id fresh) ∙ f in
      let same : get_tasks s2 t.depends_on ≡ get_tasks s t.depends_on =
        get_tasks-Agrees s s2 t.depends_on (All-each-Agrees (t ∷ rows) s t.depends_on deps) in
      rw same (flags_of_one s t e u f' b)

  Picked-one :
      (p : Task → Bool) (s : Store) (t : Task) (rows : List Task)
      → find t.id rows ≡ none
      → All (Picked p s.tasks) rows
      → All (Picked p (reconcile_one now s t).tasks) rows
  unfolding find
  Picked-one p s t [] fresh h = tt
  Picked-one p s t (r ∷ rows) fresh h = elim (Bool-cases (r.id == t.id)) [
    | inl e ↦ absurd (ground arith)
    | inr e ↦ (
      (one-Agrees s t r.id (ground arith) ∙ h.0.0, h.0.1),
      Picked-one p s t rows (ground arith) h.1,
    )
  ]

  pub each-Settled :
      (p : Task → Bool) (rows : List Task) (s : Store)
      → All (Picked p s.tasks) rows
      → Distinct rows
      → IsOrdered rows
      → All (Settled (each (reconcile_one now) s rows)) rows
  unfolding each
  each-Settled p [] s h d o = tt
  each-Settled p (t ∷ rows) s h d o = (
    first-Settled s t rows h.0.0 d.0 o.0,
    each-Settled p rows (reconcile_one now s t) (Picked-one p s t rows d.0 h.1) d.1 o.1,
  )

  -- A pass over rows of which neither test holds changes nothing.
  pub each_idle :
      (rows : List Task) (s : Store)
      → All (λ t. (has_failed s t ≡ false) × (all_succeeded s t ≡ false)) rows
      → each (reconcile_one now) s rows ≡ s
  unfolding each reconcile_one
  each_idle [] s h = refl
  each_idle (t ∷ rows) s h = rw (h.0.0, h.0.1) (each_idle rows s h.1)

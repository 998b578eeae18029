-- ===== src/Lifecycle/Dependents.antt =====
-- What `reconcileBlocked` does to each row, and to the rows that it leaves alone.
use asynchronnous_agent_os.Prelude.{
  ℕ, ◌≡◌, refl, ◌⊎◌, inl, inr, true, false, List, [], ◌∷◌, some, arith, ◌==◌, Bool-cases,
}
use asynchronnous_agent_os.Domain.{status_eq, blocked}
use asynchronnous_agent_os.Table.{find, update, Distinct}
use asynchronnous_agent_os.Table.Laws.{Rows, Rows-update_found}
use asynchronnous_agent_os.Table.Keys.{Stands}
use asynchronnous_agent_os.Table.Loops.{each-Rows}
use asynchronnous_agent_os.Store.{Store, Task, task_key}
use asynchronnous_agent_os.Lifecycle.Settle.{reconcile_one-frame, reconcile_goal-tasks}
use asynchronnous_agent_os.Lifecycle.Goals.{
  upstream_failed, unblocked, reconcile_one, is_blocked_in, reconcile_blocked, reconcile,
}

module _ (goal now : ℕ) where
  -- A row stays as it is, or was blocked in the goal and is failed or made ready.
  abbrev pub Settles : Task → Task → Type 0
  Settles t u =
      (u ≡ t)
      ⊎ (is_blocked_in goal t ≡ true) × ((u ≡ upstream_failed now t) ⊎ (u ≡ unblocked now t))

  pub Settles-refl : (t : Task) → Settles t t
  Settles-refl t = inl refl

  left_blocked :
      (t u : Task)
      → (u ≡ upstream_failed now t) ⊎ (u ≡ unblocked now t)
      → is_blocked_in goal u ≡ false
  left_blocked t u h = ground arith

  pub still_blocked : (t u : Task) → Settles t u → is_blocked_in goal u ≡ true → u ≡ t
  still_blocked t u (inl e) b = e
  still_blocked t u (inr (c, e)) b = absurd (cc (b, left_blocked t u e))

  pub Settles-trans : (t u v : Task) → Settles t u → Settles u v → Settles t v
  Settles-trans t u v (inl e) (inl f) = inl (cc (e, f))
  Settles-trans t u v (inl e) (inr (b, f)) = rw (← e) (inr (b, f))
  Settles-trans t u v (inr (b, e)) (inl f) = rw f (inr (b, e))
  Settles-trans t u v (inr (b, e)) (inr (c, f)) = absurd (cc (c, left_blocked t u e))

  update-Settles :
      (s : Store) (write : Task → Task) (t : Task)
      → Stands s.tasks t
      → Settles t (write t)
      → Rows Settles s.tasks (update t.id (λ _. true) write s.tasks)
  update-Settles s write t e h =
      Rows-update_found Settles Settles-refl t.id (λ _. true) write s.tasks (λ a f _. same a f)
    where
      same : (a : Task) → find t.id s.tasks ≡ some a → Settles a (write a)
      same a f = let p : a ≡ t = cc (e, f) in rw p h

  pub reconcile_one-Settles :
      (s : Store) (t : Task)
      → Stands s.tasks t
      → is_blocked_in goal t ≡ true
      → Rows Settles s.tasks (reconcile_one now s t).tasks
  unfolding reconcile_one
  reconcile_one-Settles s t e h =
      let r : Rows Settles s.tasks s.tasks = Rows-same s.tasks in
      let f : Rows Settles s.tasks (update t.id (λ _. true) (upstream_failed now) s.tasks) =
        update-Settles s (upstream_failed now) t e (inr (h, inl refl)) in
      let u : Rows Settles s.tasks (update t.id (λ _. true) (unblocked now) s.tasks) =
        update-Settles s (unblocked now) t e (inr (h, inr refl)) in
      ground arith
    where
      Rows-same : (ts : List Task) → Rows Settles ts ts
      Rows-same = elim [ [] ↦ tt | t ∷ (ts → ih) ↦ (inl refl, ih) ]

  -- The pass fails or unblocks blocked tasks of the goal, and changes no other row.
  pub reconcile_blocked-Settles :
      (s : Store) → Distinct s.tasks → Rows Settles s.tasks (reconcile_blocked s goal now).tasks
  unfolding reconcile_blocked
  reconcile_blocked-Settles s d =
      (each-Rows (λ r. r.tasks) (reconcile_one now) Settles Settles-refl Settles-trans
        (is_blocked_in goal) (λ _. Unit {0}) (λ r t _ _ _. tt) (λ r t _. reconcile_one-Settles r t)
        (λ r t u _. reconcile_one-frame goal now r t u) s tt d).1

  Settles-id : (t u : Task) → Settles t u → u.id ≡ t.id
  Settles-id t u (inl e) = rw e
  Settles-id t u (inr (b, inl e)) = rw e
  Settles-id t u (inr (b, inr e)) = rw e

  pub find-kept :
      (i : ℕ) (t : Task) (ts us : List Task)
      → Rows Settles ts us
      → find i ts ≡ some t
      → (u : Task) × (find i us ≡ some u)
  unfolding find
  find-kept i t [] us h e = ground arith
  find-kept i t (x ∷ ts) [] h e = absurd h
  find-kept i t (x ∷ ts) (y ∷ us) h e = elim (Bool-cases (x.id == i)) [
    | inl here ↦ (y, rw (Settles-id x y h.0, here))
    | inr there ↦
        let e' : find i ts ≡ some t = rw there at e in
        rw (Settles-id x y h.0, there) (find-kept i t ts us h.1 e')
  ]

  eq_of_Settles : (t u : Task) → status_eq t.status blocked ≡ false → Settles t u → u ≡ t
  eq_of_Settles t u n (inl e) = e
  eq_of_Settles t u n (inr (b, e)) = absurd (ground arith)

  find-Settles :
      (i : ℕ) (r : Task) (ts us : List Task)
      → Rows Settles ts us
      → find i ts ≡ some r
      → status_eq r.status blocked ≡ false
      → find i us ≡ some r
  unfolding find
  find-Settles i r [] [] h e n = e
  find-Settles i r [] (u ∷ us) h e n = absurd h
  find-Settles i r (t ∷ ts) [] h e n = absurd h
  find-Settles i r (t ∷ ts) (u ∷ us) h e n = elim (Bool-cases (t.id == i)) [
    | inl here ↦
        let e' : some t ≡ some r = rw here at e in
        let tr : t ≡ r = cc e' in
        let free : status_eq t.status blocked ≡ false = rw tr n in
        let same : u ≡ t = eq_of_Settles t u free h.0 in rw (same, here) e'
    | inr there ↦
        let e' : find i ts ≡ some r = rw there at e in
        rw (Settles-id t u h.0, there) (find-Settles i r ts us h.1 e' n)
  ]

  -- A row that is not blocked stands after the reconciliation as it stood before.
  pub reconcile-Stands :
      (s : Store) (r : Task)
      → Distinct s.tasks
      → Stands s.tasks r
      → status_eq r.status blocked ≡ false
      → Stands (reconcile s goal now).tasks r
  unfolding reconcile
  reconcile-Stands s r d e n = rw (reconcile_goal-tasks goal now (reconcile_blocked s goal now)) (
      find-Settles r.id r s.tasks (reconcile_blocked s goal now).tasks
        (reconcile_blocked-Settles s d) e n)

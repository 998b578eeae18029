-- ===== src/Lifecycle/OnePass.antt =====
-- Whether one pass of `reconcileBlocked` settles a goal depends on the order of the rows.
use asynchronnous_agent_os.Prelude.{
  ℕ, ◌≡◌, inl, inr, Bool, true, false, List, [], ◌∷◌, arith, All, keep, Bool-cases,
}
use asynchronnous_agent_os.Domain.{status_eq, blocked}
use asynchronnous_agent_os.Table.Laws.{Rows}
use asynchronnous_agent_os.Table.Keys.{Stands, All-Stands, All-Picked, Distinct-keep}
use asynchronnous_agent_os.Store.{Store, Task, task_key}
use asynchronnous_agent_os.Lifecycle.Evolve.{IsSound, Grows-IsSound}
use asynchronnous_agent_os.Lifecycle.Settle.{reconcile_blocked-Grows}
use asynchronnous_agent_os.Lifecycle.Dependents.{Settles, still_blocked, reconcile_blocked-Settles}
use asynchronnous_agent_os.Lifecycle.Fixpoint.{IsOrdered, Settled, each-Settled, each_idle}
use asynchronnous_agent_os.Lifecycle.Goals.{
  has_failed, all_succeeded, is_blocked_in, reconcile_blocked,
}

All-keep_imp :
    (P : Task → Type 0) (p : Task → Bool) (ts : List Task)
    → All P (keep p ts)
    → All (λ t. p t ≡ true → P t) ts
All-keep_imp P p [] h = tt
All-keep_imp P p (t ∷ ts) h = elim (Bool-cases (p t)) [
  | inl e ↦ let h' : All P (t ∷ keep p ts) = rw e at h in ((λ _. h'.0), All-keep_imp P p ts h'.1)
  | inr e ↦
      let h' : All P (keep p ts) = rw e at h in ((λ f. absurd (cc (e, f))), All-keep_imp P p ts h')
]

module _ (goal now : ℕ) where
  blocked_in : (t : Task) → is_blocked_in goal t ≡ true → status_eq t.status blocked ≡ true
  blocked_in t h = ground arith

  idle_of_Settled :
      (s : Store) (ts us : List Task)
      → Rows (Settles goal now) ts us
      → All (λ t. is_blocked_in goal t ≡ true → Settled s t) ts
      → All (Stands s.tasks) us
      → All
          (λ u. (has_failed s u ≡ false) × (all_succeeded s u ≡ false))
          (keep (is_blocked_in goal) us)
  idle_of_Settled s [] [] h a st = tt
  idle_of_Settled s [] (u ∷ us) h a st = absurd h
  idle_of_Settled s (t ∷ ts) [] h a st = tt
  idle_of_Settled s (t ∷ ts) (u ∷ us) h a st = elim (Bool-cases (is_blocked_in goal u)) [
    | inl e ↦
        let same : u ≡ t = still_blocked goal now t u h.0 e in
        let at_t : is_blocked_in goal u ≡ true → Settled s u = rw same (a.0) in
        rw e (at_t e u st.0 (blocked_in u e), idle_of_Settled s ts us h.1 a.1 st.1)
    | inr e ↦ rw e (idle_of_Settled s ts us h.1 a.1 st.1)
  ]

  -- If no blocked task of the goal depends on itself or on a blocked task of the goal that stands
  -- after it, then one pass reaches a fixed point: a second pass changes nothing in the store.
  pub reconcile_blocked_twice :
      (s : Store) (later : ℕ)
      → IsSound s
      → IsOrdered (keep (is_blocked_in goal) s.tasks)
      → reconcile_blocked (reconcile_blocked s goal now) goal later ≡ reconcile_blocked s goal now
  unfolding reconcile_blocked
  reconcile_blocked_twice s later h o =
      let s' = reconcile_blocked s goal now in
      let sound : IsSound s' = Grows-IsSound s s' (reconcile_blocked-Grows goal now s h) h in
      let rows = keep (is_blocked_in goal) s.tasks in
      let settled : All (Settled s') rows =
        each-Settled now (is_blocked_in goal) rows s
          (All-Picked (is_blocked_in goal) s.tasks s.tasks (All-Stands s.tasks h.distinct))
          (Distinct-keep (is_blocked_in goal) s.tasks h.distinct) o in
      each_idle later (keep (is_blocked_in goal) s'.tasks) s' (
        idle_of_Settled s' s.tasks s'.tasks (reconcile_blocked-Settles goal now s h.distinct)
          (All-keep_imp (Settled s') (is_blocked_in goal) s.tasks settled)
          (All-Stands s'.tasks sound.distinct))

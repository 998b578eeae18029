-- ===== src/Lifecycle/Notices.antt =====
-- A notice that is attached to the tasks of a goal, and a session that is purged.
use asynchronnous_agent_os.Prelude.{
  ℕ, ◌≡◌, Bool, List, [], ◌∷◌, Option, some, arith, keep, All, Bool-cases, Option-cases, inl, inr,
  not,
}
use asynchronnous_agent_os.Table.{each}
use asynchronnous_agent_os.Table.Keys.{Distinct-keep}
use asynchronnous_agent_os.Store.{Store, Task, Goal, Snapshot, task_key}
use asynchronnous_agent_os.Lifecycle.Evolve.{IsValid, Grows, Grows-refl, Grows-trans, IsSound}
use asynchronnous_agent_os.Lifecycle.Settle.{update-Rows}
use asynchronnous_agent_os.Lifecycle.Writes.{Evolves-checkpointed}
use asynchronnous_agent_os.Lifecycle.Goals.{tasks_of}
use asynchronnous_agent_os.Lifecycle.Turn.{checkpointed}
use asynchronnous_agent_os.Lifecycle.Notice.{
  is_resumable, notify, inject_cognitive_notice, of_session, purge_session,
}

module _ (notice : Snapshot → Option Snapshot) (now : ℕ) where
  notify-Grows : (s : Store) (t : Task) → Grows s (notify notice now s t)
  unfolding notify
  notify-Grows s t = elim (Option-cases (notice t.snapshot)) [
    | inl e ↦ rw (e, notify) (Grows-refl s)
    | inr (n, e) ↦
        rw (e, notify)
          (update-Rows s t.id is_resumable (checkpointed n now)
            (λ u _. Evolves-checkpointed n now u))
  ]

  each-notify-Grows : (rows : List Task) (s : Store) → Grows s (each (notify notice now) s rows)
  unfolding each
  each-notify-Grows [] s = Grows-refl s
  each-notify-Grows (t ∷ rows) s =
      Grows-trans s (notify notice now s t) (each (notify notice now) (notify notice now s t) rows)
        (notify-Grows s t) (each-notify-Grows rows (notify notice now s t))

  pub inject_cognitive_notice-Grows :
      (s : Store) (goal : ℕ) → Grows s (inject_cognitive_notice notice s goal now)
  unfolding inject_cognitive_notice
  inject_cognitive_notice-Grows s goal = each-notify-Grows (keep is_resumable (tasks_of s goal)) s

All-keep :
    (P : Task → Type 0) (test : Task → Bool) (ts : List Task) → All P ts → All P (keep test ts)
All-keep P test [] a = tt
All-keep P test (t ∷ ts) a = elim (Bool-cases (test t)) [
  | inl e ↦ rw e (a.0, All-keep P test ts a.1)
  | inr e ↦ rw e (All-keep P test ts a.1)
]

pub purge_session-IsSound :
    (in_session : Goal → Bool) (s s' : Store)
    → IsSound s
    → purge_session in_session s ≡ some s'
    → IsSound s'
unfolding purge_session
purge_session-IsSound in_session s s' h e =
    let left : Task → Bool = λ t. not (of_session in_session s t.goal_id) in
    let is : keep left s.tasks ≡ s'.tasks = ground arith in
    record {
      distinct = rw is at (Distinct-keep left s.tasks h.distinct);
      valid = rw is at (All-keep IsValid left s.tasks h.valid);
    }

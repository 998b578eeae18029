-- ===== src/Lifecycle/Swept.antt =====
-- What the sweeps of the leases and of the timers make of each task.
use asynchronnous_agent_os.Prelude.{
  ℕ, ◌≡◌, ◌≢◌, ◌≤◌, ◌<◌, ◌⊎◌, List, [], ◌∷◌, none, some, arith, map, ◌==◌, Bool-cases, inl, inr,
  if◌then◌else◌,
}
use asynchronnous_agent_os.Domain.{timer, ready, running, waiting}
use asynchronnous_agent_os.Table.{find}
use asynchronnous_agent_os.Store.{Store, Task, get_task, task_key}
use asynchronnous_agent_os.Lifecycle.Evolve.{IsValid, IsSound, find-IsValid}
use asynchronnous_agent_os.Lifecycle.Sweep.{
  lease_is_over, returned, recover_expired_leases, timer_is_due, awake, wake_due_timers,
}
use asynchronnous_agent_os.Lifecycle.Sweeps.{recover_expired_leases-map, wake_due_timers-map}

find-map :
    (f : Task → Task)
    → ((t : Task) → (f t).id ≡ t.id)
    → (i : ℕ) (ts : List Task) (t : Task) → find i ts ≡ some t
    → find i (map f ts) ≡ some (f t)
unfolding find
find-map f same i [] t e = ground arith
find-map f same i (x ∷ ts) t e = elim (Bool-cases (x.id == i)) [
  | inl a ↦ ground (arith, same x)
  | inr a ↦ ground (arith, same x, find-map f same i ts t)
]

-- The lease of the task has run out, and the task is ready again without it; or it has not, and the row
-- is as it was.
abbrev pub LeaseSwept : ℕ → Task → Task → Type 0
LeaseSwept now t u =
    ((t.status ≡ running)
      × ((e : ℕ) × (t.lease_expires_at ≡ some e) × (e ≤ now))
      × (u.status ≡ ready)
      × (u.lease_owner ≡ none)
      × (u.lease_token ≡ none)
      × (u.lease_expires_at ≡ none)
      × (u.next_run_at ≡ now)
      × (u.snapshot ≡ t.snapshot)
      × (u.failure_count ≡ t.failure_count))
    ⊎ (((t.status ≢ running) ⊎ ((e : ℕ) × (t.lease_expires_at ≡ some e) × (now < e))) × (u ≡ t))

lease_swept :
    (now : ℕ) (t : Task)
    → IsValid t
    → LeaseSwept now t (if lease_is_over now t then returned now t else t)
lease_swept now t v = ground arith

abbrev pub TimerSwept : ℕ → Task → Task → Type 0
TimerSwept now t u =
    ((t.status ≡ waiting)
      × (t.wait_kind ≡ some timer)
      × ((e : ℕ) × (t.wake_at ≡ some e) × (e ≤ now))
      × (u.status ≡ ready)
      × (u.wait_kind ≡ none)
      × (u.wake_at ≡ none)
      × (u.next_run_at ≡ now)
      × (u.snapshot ≡ t.snapshot)
      × (u.failure_count ≡ t.failure_count))
    ⊎ (((t.status ≢ waiting)
          ⊎ (t.wait_kind ≢ some timer)
          ⊎ ((e : ℕ) × (t.wake_at ≡ some e) × (now < e)))
        × (u ≡ t))

timer_swept :
    (now : ℕ) (t : Task)
    → IsValid t
    → TimerSwept now t (if timer_is_due now t then awake now t else t)
timer_swept now t v = ground arith

module _ (now : ℕ) (s : Store) (id : ℕ) (t : Task) where
  -- The sweep of the leases makes each running task whose lease has run out ready again, without an
  -- owner, a token or an end of the lease, due at once and with the snapshot and the failures that it
  -- had; and it changes no other task.
  pub recover_expired_leases_lem :
      IsSound s
      → get_task s id ≡ some t
      → (u : Task) × (get_task (recover_expired_leases s now).0 id ≡ some u) × LeaseSwept now t u
  recover_expired_leases_lem h e = (
    _,
    rw (recover_expired_leases-map now s h) (find-map _ (λ x. ground arith) id s.tasks t e),
    lease_swept now t (find-IsValid id t s.tasks h.valid e),
  )

  -- The sweep of the timers makes each task that waits for a timer whose time has come ready, without
  -- the wait, due at once and with the snapshot and the failures that it had; and it changes no other
  -- task.
  pub wake_due_timers_lem :
      IsSound s
      → get_task s id ≡ some t
      → (u : Task) × (get_task (wake_due_timers s now).0 id ≡ some u) × TimerSwept now t u
  wake_due_timers_lem h e = (
    _,
    rw (wake_due_timers-map now s h) (find-map _ (λ x. ground arith) id s.tasks t e),
    timer_swept now t (find-IsValid id t s.tasks h.valid e),
  )

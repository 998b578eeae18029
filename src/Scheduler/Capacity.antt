-- ===== src/Scheduler/Capacity.antt =====
-- A drain starts no more tasks than the scheduler has places.
use asynchronnous_agent_os.Prelude.{
  ℕ, suc, ◌-◌, ◌*◌, ◌≤◌, List, [], ◌∷◌, arith, leb, length, length-append, Bool-cases, Option-cases,
  inl, inr,
}
use asynchronnous_agent_os.Store.{Task}
use asynchronnous_agent_os.Lifecycle.Turn.{claim_task}
use asynchronnous_agent_os.Scheduler.Queue.{get_ready_tasks}
use asynchronnous_agent_os.Scheduler.Drain.{
  Worker, Runtime, add_active, consider, consider_each, drain,
}

add_active-length : (id : ℕ) (active : List ℕ) → length (add_active id active) ≤ suc (length active)
add_active-length id active = ground (arith, length-append active (id ∷ []))

module _ (w : Worker) (now : ℕ) where
  consider-length :
      (k : Runtime) (c : Task) → length (consider w now k c).active ≤ suc (length k.active)
  unfolding consider
  consider-length k c =
      elim (Option-cases (claim_task k.store c.id w.id (w.draw c.id) w.lease_ms now).1) [
        | inl e ↦ ground arith
        | inr (t, e) ↦ ground (arith, add_active-length t.id k.active)
      ]

  consider_each-bounded :
      (k : Runtime) (candidates : List Task)
      → length k.active ≤ w.max_concurrency
      → length (consider_each w now k candidates).active ≤ w.max_concurrency
  unfolding consider_each
  consider_each-bounded k [] h = h
  consider_each-bounded k (c ∷ candidates) h =
      elim (Bool-cases (leb w.max_concurrency (length k.active))) [
        | inl full ↦ ground arith
        | inr free ↦
            let step = consider-length k c in
            let rest =
              consider_each-bounded (consider w now k c) candidates (ground (arith, step)) in
            ground (arith, rest)
      ]

-- At most `max_concurrency` tasks run after a drain, if no more did before.
pub drain_bounded :
    (w : Worker) (now : ℕ) (k : Runtime)
    → length k.active ≤ w.max_concurrency
    → length (drain w now k).active ≤ w.max_concurrency
unfolding drain
drain_bounded w now k h = ground (
  arith,
  consider_each-bounded w now k
      (get_ready_tasks k.store w.deadline ((w.max_concurrency - length k.active) * 2) now) h,
)

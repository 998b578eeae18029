-- ===== src/Monitors/Completion.antt =====
-- What a poll that completes under its lease writes.
use asynchronnous_agent_os.Prelude.{
  ℕ, ◌+◌, ◌≡◌, refl, true, [], ◌∷◌, some, arith, ==_refl, ◌++◌, ◌⊎◌, none, false,
}
use asynchronnous_agent_os.Table.Laws.{find-update}
use asynchronnous_agent_os.Monitors.{
  Monitor, Watch, Reading, idle, monitor_key, get_monitor, runs_with, observed, complete_monitor,
}
use asynchronnous_agent_os.Monitors.Calls.{Holds}

-- What the completion of a poll makes of its monitor.
abbrev pub TakesOver : Reading → ℕ → Monitor → Monitor → Type 0
TakesOver r now m u =
    (u.last_state ≡ some r.state)
    × (u.last_observation_at ≡ some now)
    × (((r.changed ≡ true) × (u.last_changed_at ≡ some now))
        ⊎ ((r.changed ≡ false) × (u.last_changed_at ≡ m.last_changed_at)))
    × (u.status ≡ idle)
    × (u.lease_token ≡ none)
    × (u.lease_expires_at ≡ none)
    × (u.failure_count ≡ 0)
    × (u.next_poll_at ≡ now + m.interval_ms)

-- The row that a completion writes, and the observations.
abbrev pub Completed : Watch → ℕ → ℕ → Reading → ℕ → Monitor → Type 0
Completed w id token r now m =
    ((u : Monitor) × ((complete_monitor w id token r now).1 ≡ some u)
      × (get_monitor (complete_monitor w id token r now).0 id ≡ some u)
      × TakesOver r now m u)
    × (((r.changed ≡ true)
          × ((complete_monitor w id token r now).0.observations
              ≡ w.observations
                ++ (record { monitor_id = id; changed = true; state = r.state; created_at = now }
                    ∷ [])))
        ⊎ (r.changed ≡ false))

pub complete_held :
    (w : Watch) (id token expires : ℕ) (r : Reading) (now : ℕ) (m : Monitor)
    → Holds w id token expires m
    → Completed w id token r now m
unfolding complete_monitor
complete_held w id token expires r now m h =
    let found =
      find-update id id (runs_with token) (observed r m.last_changed_at now) (λ x. refl)
        w.monitors in
    (
      (
        observed r m.last_changed_at now m,
        ground (arith, h.0, h.1, h.2, ==_refl id, ==_refl token, found),
        ground (arith, h.0, h.1, h.2, ==_refl id, ==_refl token, found),
        ground arith,
      ),
      ground (arith, h.0, h.1, h.2, ==_refl token),
    )

-- ===== src/Monitors/Backoff.antt =====
-- How a poll that fails is put off.
use asynchronnous_agent_os.Prelude.{
  ℕ, ◌+◌, ◌*◌, ◌≤◌, ◌≡◌, refl, true, String, none, some, arith, ==_refl,
}
use asynchronnous_agent_os.Table.Laws.{find-update}
use asynchronnous_agent_os.Monitors.{
  Monitor, Watch, idle, monitor_key, get_monitor, runs_with, broken, poll_delay, fail_monitor,
}

poll_delay-le : (interval failures : ℕ) → poll_delay interval failures ≤ interval * 8
poll_delay-le interval failures = omega arith

-- A poll that fails under its lease leaves the monitor idle, with one more failure and no lease, and
-- due again within eight intervals.
pub fail_monitor_lem :
    (w : Watch) (id token : ℕ) (error : String) (now : ℕ) (m : Monitor)
    → get_monitor w id ≡ some m
    → runs_with token m ≡ true
    → (u : Monitor) × ((fail_monitor w id token error now).1 ≡ some u)
      × (u.status ≡ idle)
      × (u.lease_token ≡ none)
      × (u.failure_count ≡ m.failure_count + 1)
      × (u.next_poll_at ≤ now + m.interval_ms * 8)
unfolding fail_monitor
fail_monitor_lem w id token error now m e h =
    let failures = m.failure_count + 1 in
    let write = broken error failures (poll_delay m.interval_ms failures) now in
    (
      write m,
      ground (arith, ==_refl id, find-update id id (runs_with token) write (λ x. refl) w.monitors),
      refl,
      refl,
      refl,
      omega (arith, poll_delay-le m.interval_ms failures),
    )

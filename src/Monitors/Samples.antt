-- ===== src/Monitors/Samples.antt =====
-- A monitor that is polled, and the theorems of the sibling modules applied to it.
use asynchronnous_agent_os.Prelude.{
  ℕ, ◌≡◌, ◌≤◌, refl, arith, true, false, List, [], ◌∷◌, none, some,
}
use asynchronnous_agent_os.Json.{null}
use asynchronnous_agent_os.Table.{find, update}
use asynchronnous_agent_os.Monitors.{
  Monitor, Watch, Reading, idle, monitor_key, monitor_of, claimed, claim_monitor, fail_monitor,
}
use asynchronnous_agent_os.Monitors.Calls.{Call, claims, triggers, recovers, run, Holds}
use asynchronnous_agent_os.Monitors.Completion.{Completed}
use asynchronnous_agent_os.Monitors.Exclusion.{poll_excludes}
use asynchronnous_agent_os.Monitors.Backoff.{fail_monitor_lem}

abbrev sensor : Monitor
sensor =
    monitor_of
      (record {
        id = 5;
        agent_id = "main";
        tenant_id = "default";
        name = "Disk";
        sensor_type = "file";
        config = null;
        interval_ms = 1000;
        next_poll_at = 100;
        enabled = true;
      })
      100

abbrev polled : Watch
polled = (claim_monitor (record { monitors = sensor ∷ []; observations = [] }) 5 31 30000 200).0

abbrev reading : Reading
reading = record { state = null; changed = true; record_unchanged = false }

abbrev others : List (Call × ℕ)
others = (claims 5 32 30000, 300) ∷ (triggers 5, 400) ∷ (recovers, 500) ∷ []

poll_excludes_example :
    (m : Monitor) × Holds (run polled others) 5 31 30200 m
    × Completed (run polled others) 5 31 reading 600 m
unfolding claim_monitor find update
poll_excludes_example =
    poll_excludes 5 31 30200 polled others reading 600
      (claimed 31 30000 200 sensor, (refl, refl, refl, refl))
      ((omega arith, ground arith), ((omega arith, tt), ((omega arith, tt), tt)))

fail_monitor_lem_example :
    (u : Monitor) × ((fail_monitor polled 5 31 "timeout" 250).1 ≡ some u)
    × (u.status ≡ idle)
    × (u.lease_token ≡ none)
    × (u.failure_count ≡ 1)
    × (u.next_poll_at ≤ 8250)
unfolding claim_monitor find update
fail_monitor_lem_example =
    fail_monitor_lem polled 5 31 "timeout" 250 (claimed 31 30000 200 sensor) refl refl

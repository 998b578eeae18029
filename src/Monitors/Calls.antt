-- ===== src/Monitors/Calls.antt =====
-- The calls on the monitors, in any order, and what it is that a poll holds.
use asynchronnous_agent_os.Prelude.{ℕ, ◌≡◌, ◌≢◌, ◌<◌, Bool, String, List, [], ◌∷◌, some}
use asynchronnous_agent_os.Json.{Json}
use asynchronnous_agent_os.Monitors.{
  Monitor, MonitorInput, Watch, Reading, running, create_monitor, monitor_key, get_monitor,
  claim_monitor, complete_monitor, fail_monitor, recover_expired_monitor_leases,
  set_monitor_enabled, trigger_monitor,
}

-- A call on the monitors, at its time.
pub data Call : Type 0 where
  claims : (id token lease_ms : ℕ) → Call
  completes : (id token : ℕ) → Reading → Call
  fails : (id token : ℕ) → String → Call
  recovers : Call
  enables : (id : ℕ) → Bool → Call
  triggers : (id : ℕ) → Call
  creates : (Json → Json → Bool) → MonitorInput → Call

abbrev pub perform : Watch → Call → ℕ → Watch
perform w (claims id token lease_ms) now = (claim_monitor w id token lease_ms now).0
perform w (completes id token r) now = (complete_monitor w id token r now).0
perform w (fails id token error) now = (fail_monitor w id token error now).0
perform w recovers now = recover_expired_monitor_leases w now
perform w (enables id on) now = (set_monitor_enabled w id on now).0
perform w (triggers id) now = (trigger_monitor w id now).0
perform w (creates same_json i) now = (create_monitor same_json w i now).0

-- The call names no token, or another than this one.
abbrev pub NamesOther : ℕ → Call → Type 0
NamesOther token (claims id other lease_ms) = other ≢ token
NamesOther token (completes id other r) = other ≢ token
NamesOther token (fails id other error) = other ≢ token
NamesOther token _ = Unit {0}

abbrev pub Holds : Watch → ℕ → ℕ → ℕ → Monitor → Type 0
Holds w id token expires m =
    (get_monitor w id ≡ some m)
    × (m.status ≡ running)
    × (m.lease_token ≡ some token)
    × (m.lease_expires_at ≡ some expires)

abbrev pub IsHeld : Watch → ℕ → ℕ → ℕ → Type 0
IsHeld w id token expires = (m : Monitor) × Holds w id token expires m

-- The calls one after the other, each at its time.
abbrev pub run : Watch → List (Call × ℕ) → Watch
run w [] = w
run w ((c, now) ∷ calls) = run (perform w c now) calls

abbrev pub FromOthers : ℕ → ℕ → Call × ℕ → Type 0
FromOthers token expires (c, now) = (now < expires) × NamesOther token c

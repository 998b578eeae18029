-- ===== src/Monitors.antt =====
-- src/infra/store.js, the tables `monitors` and `monitor_observations`: sensors that are polled under
-- a lease. The bounds on the lengths of texts are left out; `same_json` compares canonical texts.
pub mod Calls
pub mod Completion
pub mod Exclusion
pub mod Backoff
mod Samples
use asynchronnous_agent_os.Prelude.{
  ℕ, suc, ◌+◌, ◌*◌, ◌^◌, min, Bool, true, false, ◌&&◌, ◌||◌, not, String, List, [], ◌∷◌, ◌++◌,
  Option, none, some, str_eq, same, sql_eq, sql_le, leb, ltb, if◌then◌else◌, ◌==◌, map, is_some,
}
use asynchronnous_agent_os.Json.{Json}
use asynchronnous_agent_os.Table.{Keyed, find, update}

pub data MonitorStatus : Type 0 where
  idle running : MonitorStatus

abbrev pub is_running : MonitorStatus → Bool
is_running idle = false
is_running running = true

pub record Monitor : Type 0 where
  pub id : ℕ
  pub agent_id : String
  pub tenant_id : String
  pub name : String
  pub sensor_type : String
  pub config : Json
  pub interval_ms : ℕ
  pub next_poll_at : ℕ
  pub enabled : Bool
  pub status : MonitorStatus
  pub lease_token : Option ℕ
  pub lease_expires_at : Option ℕ
  pub last_state : Option Json
  pub last_observation_at : Option ℕ
  pub last_changed_at : Option ℕ
  pub failure_count : ℕ
  pub last_error : Option String
  pub revision : ℕ
  pub updated_at : ℕ

pub record Observation : Type 0 where
  pub monitor_id : ℕ
  pub changed : Bool
  pub state : Json
  pub created_at : ℕ

pub record Watch : Type 0 where
  pub monitors : List Monitor
  pub observations : List Observation

instance abbrev pub monitor_key : Keyed Monitor
monitor_key = record { key = λ m. m.id }

abbrev pub get_monitor : Watch → ℕ → Option Monitor
get_monitor w id = find id w.monitors

abbrev pub update_monitor : Watch → ℕ → (Monitor → Bool) → (Monitor → Monitor) → Watch
update_monitor w id test write = record w { monitors = update id test write w.monitors }

-- What a caller of createMonitor passes, with its defaults filled in.
pub record MonitorInput : Type 0 where
  pub id : ℕ
  pub agent_id : String
  pub tenant_id : String
  pub name : String
  pub sensor_type : String
  pub config : Json
  pub interval_ms : ℕ
  pub next_poll_at : ℕ
  pub enabled : Bool

pub data Creation : Type 0 where
  created : Option Monitor → Creation
  bad_interval reused_id : Creation

abbrev pub same_input : (Json → Json → Bool) → Monitor → MonitorInput → Bool
same_input same_json m i =
    str_eq m.agent_id i.agent_id
    && (str_eq m.tenant_id i.tenant_id
        && (str_eq m.name i.name
            && (str_eq m.sensor_type i.sensor_type
                && ((m.interval_ms == i.interval_ms) && same_json m.config i.config))))

abbrev pub monitor_of : MonitorInput → ℕ → Monitor
monitor_of i now = record {
  id = i.id;
  agent_id = i.agent_id;
  tenant_id = i.tenant_id;
  name = i.name;
  sensor_type = i.sensor_type;
  config = i.config;
  interval_ms = i.interval_ms;
  next_poll_at = i.next_poll_at;
  enabled = i.enabled;
  status = idle;
  lease_token = none;
  lease_expires_at = none;
  last_state = none;
  last_observation_at = none;
  last_changed_at = none;
  failure_count = 0;
  last_error = none;
  revision = 0;
  updated_at = now;
}

unfoldable pub create_monitor : (Json → Json → Bool) → Watch → MonitorInput → ℕ → Watch × Creation
create_monitor same_json w i now =
    if ltb i.interval_ms 10 || ltb 31536000000 i.interval_ms
    then (w, bad_interval)
    else elim (get_monitor w i.id) [
      | some m ↦ if same_input same_json m i then (w, created (some m)) else (w, reused_id)
      | none ↦
          let w' = record w { monitors = w.monitors ++ (monitor_of i now ∷ []) } in
          (w', created (get_monitor w' i.id))
    ]

abbrev pub is_claimable : ℕ → Monitor → Bool
is_claimable now m = m.enabled && (not (is_running m.status) && leb m.next_poll_at now)

abbrev pub claimed : ℕ → ℕ → ℕ → Monitor → Monitor
claimed token lease_ms now m = record m {
  status = running;
  lease_token = some token;
  lease_expires_at = some (now + lease_ms);
  updated_at = now;
}

-- `token` is the UUID drawn for the lease.
unfoldable pub claim_monitor : Watch → ℕ → ℕ → ℕ → ℕ → Watch × Option Monitor
claim_monitor w id token lease_ms now =
    let w' = update_monitor w id (is_claimable now) (claimed token lease_ms now) in
    elim (get_monitor w id) [
      | none ↦ (w', none)
      | some m ↦ if is_claimable now m then (w', get_monitor w' id) else (w', none)
    ]

-- `status = 'RUNNING' AND lease_token = ?`
abbrev pub runs_with : ℕ → Monitor → Bool
runs_with token m = is_running m.status && sql_eq m.lease_token (some token)

abbrev pub free : ℕ → Monitor → Monitor
free now m = record m {
  status = idle;
  lease_token = none;
  lease_expires_at = none;
  updated_at = now;
}

-- A reading of the sensor.
pub record Reading : Type 0 where
  pub state : Json
  pub changed : Bool
  pub record_unchanged : Bool

-- `changed_at` is the column of the row that was read.
abbrev pub observed : Reading → Option ℕ → ℕ → Monitor → Monitor
observed r changed_at now m = record (free now m) {
  last_state = some r.state;
  last_observation_at = some now;
  last_changed_at = if r.changed then some now else changed_at;
  next_poll_at = now + m.interval_ms;
  failure_count = 0;
  last_error = none;
  revision = suc m.revision;
}

unfoldable pub complete_monitor : Watch → ℕ → ℕ → Reading → ℕ → Watch × Option Monitor
complete_monitor w id token r now = elim (get_monitor w id) [
  | none ↦ (w, none)
  | some m ↦
      let w' = update_monitor w id (runs_with token) (observed r m.last_changed_at now) in
      if not (same m.lease_token (some token))
      then (w, none)
      else if runs_with token m && (r.changed || r.record_unchanged)
      then (
        record w' {
          observations =
              w'.observations
              ++ (record { monitor_id = id; changed = r.changed; state = r.state; created_at = now }
                  ∷ []);
        },
        get_monitor w' id,
      )
      else (w', get_monitor w' id)
]

-- `Math.min(interval * 8, interval * 2 ** Math.min(failures, 5))`
abbrev pub poll_delay : ℕ → ℕ → ℕ
poll_delay interval failures = min (interval * 8) (interval * 2 ^ min failures 5)

abbrev pub broken : String → ℕ → ℕ → ℕ → Monitor → Monitor
broken error failures delay now m = record (free now m) {
  failure_count = failures;
  last_error = some error;
  next_poll_at = now + delay;
  revision = suc m.revision;
}

unfoldable pub fail_monitor : Watch → ℕ → ℕ → String → ℕ → Watch × Option Monitor
fail_monitor w id token error now = elim (get_monitor w id) [
  | none ↦ (w, none)
  | some m ↦
      let failures = m.failure_count + 1 in
      let w' =
        update_monitor w id (runs_with token)
          (broken error failures (poll_delay m.interval_ms failures) now) in
      if not (same m.lease_token (some token)) then (w, none) else (w', get_monitor w' id)
]

abbrev pub is_expired : ℕ → Monitor → Bool
is_expired now m = is_running m.status && sql_le m.lease_expires_at now

abbrev pub recovered : ℕ → Monitor → Monitor
recovered now m = if is_expired now m then record (free now m) { next_poll_at = now } else m

unfoldable pub recover_expired_monitor_leases : Watch → ℕ → Watch
recover_expired_monitor_leases w now = record w { monitors = map (recovered now) w.monitors }

unfoldable pub set_monitor_enabled : Watch → ℕ → Bool → ℕ → Watch × Option Monitor
set_monitor_enabled w id enabled now = elim (get_monitor w id) [
  | none ↦ (w, none)
  | some m ↦
      let kept =
        update_monitor w id (λ _. true) (λ x. record x { enabled = enabled; updated_at = now }) in
      let reset =
        update_monitor w id (λ _. true)
          (λ x. record (free now x) { enabled = enabled; next_poll_at = now }) in
      if is_running m.status then (kept, get_monitor kept id) else (reset, get_monitor reset id)
]

unfoldable pub trigger_monitor : Watch → ℕ → ℕ → Watch × Option Monitor
trigger_monitor w id now = elim (get_monitor w id) [
  | none ↦ (w, none)
  | some m ↦
      let w' =
        update_monitor w id (λ _. true)
          (λ x. record (free now x) { enabled = true; next_poll_at = now }) in
      if is_running m.status then (w, some m) else (w', get_monitor w' id)
]

-- ===== src/Scheduler/Drain.antt =====
-- src/runtime/scheduler.js: drain, tick and start. A turn that a drain starts runs up to its first
-- wait within the drain: what it does until then is the argument `launch`.
use asynchronnous_agent_os.Prelude.{
  ℕ, ◌+◌, ◌-◌, ◌*◌, max, false, String, List, [], ◌∷◌, ◌++◌, Option, none, some, leb, if◌then◌else◌,
  contains, length,
}
use asynchronnous_agent_os.Json.{Json}
use asynchronnous_agent_os.Store.{Store, Task}
use asynchronnous_agent_os.Claims.{
  Claim, Declared, acquire_resource_claims, release_resource_claims, release_stale_resource_claims,
}
use asynchronnous_agent_os.Lifecycle.Turn.{claim_task, defer_ready_task, fail_task}
use asynchronnous_agent_os.Lifecycle.Sweep.{
  recover_expired_leases, wake_due_timers, expire_event_waits, recover_orphaned_tasks,
}
use asynchronnous_agent_os.Scheduler.Queue.{get_ready_tasks}

-- What the resource kernel answers; without one every task is admitted.
pub data Admission : Type 0 where
  admitted : Admission
  retry_later : (retry_at : ℕ) (reason : String) → Admission
  rejected : (reason : String) → Admission

pub record Worker : Type 0 where
  pub id : ℕ
  pub max_concurrency : ℕ
  pub tick_ms : ℕ
  pub lease_ms : ℕ
  pub admit : Store → Task → Admission
  -- The claims that the metadata of a task's goal declare, and the detail of one that has none.
  pub declared : Task → List Declared
  pub no_detail : Json
  pub deadline : ℕ → Option ℕ
  -- The token that is drawn for the lease of a task.
  pub draw : ℕ → ℕ
  pub launch : Task → Store → Store

-- The tables, and the tasks that run.
pub record Runtime : Type 0 where
  pub store : Store
  pub claims : List Claim
  pub active : List ℕ

-- `this.active.add(id)`
abbrev pub add_active : ℕ → List ℕ → List ℕ
add_active id active = if contains id active then active else active ++ (id ∷ [])

-- The scopes that the text lists are left out.
abbrev conflict_reason : String
conflict_reason = "Semantic resource conflict"

module _ (w : Worker) (now : ℕ) where
  -- A claim that fails gives the resources back.
  abbrev pub start_task : Runtime → List Claim → Task → Runtime
  start_task k claims c =
      let (s, claimed) = claim_task k.store c.id w.id (w.draw c.id) w.lease_ms now in
      elim claimed [
        | none ↦ record k { store = s; claims = (release_resource_claims claims c.id now).0 }
        | some t ↦ record k {
          store = w.launch t s;
          claims = claims;
          active = add_active t.id k.active;
        }
      ]

  abbrev pub claim_and_start : Runtime → Task → Runtime
  claim_and_start k c =
      let (claims, acquired) =
        acquire_resource_claims k.store w.no_detail (w.declared c) k.claims c.id w.id now in
      if acquired then start_task k claims c else record k {
        store =
            (defer_ready_task k.store c.id (now + max 500 (w.tick_ms * 2)) conflict_reason now).0;
      }

  -- One candidate.
  unfoldable pub consider : Runtime → Task → Runtime
  consider k c = elim (w.admit k.store c) [
    | retry_later at reason ↦ record k { store = (defer_ready_task k.store c.id at reason now).0 }
    | rejected reason ↦ record k { store = (fail_task k.store c.id reason false none now).0 }
    | admitted ↦ claim_and_start k c
  ]

  unfoldable pub consider_each : Runtime → List Task → Runtime
  consider_each k [] = k
  consider_each k (c ∷ candidates) =
      if leb w.max_concurrency (length k.active) then k else consider_each (consider k c) candidates

  unfoldable pub drain : Runtime → Runtime
  drain k =
      let capacity = w.max_concurrency - length k.active in
      if leb capacity 0
      then k
      else consider_each k (get_ready_tasks k.store w.deadline (capacity * 2) now)

  -- The sweeps of a tick; the drain that it requests runs later.
  unfoldable pub tick : Runtime → Runtime
  tick k =
      let leases = (recover_expired_leases k.store now).0 in
      let timers = (wake_due_timers leases now).0 in
      let events = (expire_event_waits timers now).0 in
      record k { store = events; claims = release_stale_resource_claims events k.claims now }

  unfoldable pub start : Runtime → Runtime
  start k =
      let s = (recover_orphaned_tasks k.store now).0 in
      tick (record k { store = s; claims = release_stale_resource_claims s k.claims now })

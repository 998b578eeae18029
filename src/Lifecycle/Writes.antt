-- ===== src/Lifecycle/Writes.antt =====
-- Each SET list of src/infra/store.js turns a row into one that it may become.
use asynchronnous_agent_os.Prelude.{ℕ, ◌≡◌, Bool, true, false, String, Option, some, arith}
use asynchronnous_agent_os.Domain.{is_terminal}
use asynchronnous_agent_os.Json.{Json}
use asynchronnous_agent_os.Store.{Task, Snapshot, runs_under}
use asynchronnous_agent_os.Lifecycle.Evolve.{IsValid, Evolves}
use asynchronnous_agent_os.Lifecycle.Turn.{
  claimable, claimed, checkpointed, yielded, deferred, waits_for_timer, waits_for_event, completed,
  failure, can_retry, fenced,
}

pub Evolves-claimed :
    (worker token lease_ms now : ℕ) (t : Task)
    → claimable now t ≡ true
    → Evolves t (claimed worker token lease_ms now t)
Evolves-claimed worker token lease_ms now t h = ground arith

pub Evolves-checkpointed :
    (snapshot : Snapshot) (now : ℕ) (t : Task) → Evolves t (checkpointed snapshot now t)
Evolves-checkpointed snapshot now t = ground arith

pub Evolves-yielded :
    (snapshot : Snapshot) (lease : Option ℕ) (now : ℕ) (t : Task)
    → runs_under lease t ≡ true
    → Evolves t (yielded snapshot now t)
Evolves-yielded snapshot lease now t h = ground arith

pub Evolves-completed :
    (snapshot : Snapshot) (result : Json) (lease : Option ℕ) (now : ℕ) (t : Task)
    → runs_under lease t ≡ true
    → Evolves t (completed snapshot result now t)
Evolves-completed snapshot result lease now t h = ground arith

pub Evolves-deferred :
    (next : ℕ) (reason : String) (now : ℕ) (t : Task) → Evolves t (deferred next reason now t)
Evolves-deferred next reason now t = ground arith

pub Evolves-waits_for_timer :
    (snapshot : Snapshot) (wake : ℕ) (lease : Option ℕ) (now : ℕ) (t : Task)
    → runs_under lease t ≡ true
    → Evolves t (waits_for_timer snapshot wake now t)
Evolves-waits_for_timer snapshot wake lease now t h = ground arith

pub Evolves-waits_for_event :
    (snapshot : Snapshot) (topic key : String) (deadline lease : Option ℕ) (now : ℕ) (t : Task)
    → runs_under lease t ≡ true
    → Evolves t (waits_for_event snapshot topic key deadline now t)
Evolves-waits_for_event snapshot topic key deadline lease now t h = ground arith

-- A failure is recorded on a task that has not ended.
pub Evolves-failure :
    (retryable : Bool) (error : String) (now : ℕ) (t : Task)
    → (IsValid t → is_terminal t.status ≡ false)
    → Evolves t (failure (can_retry retryable t) error now t)
Evolves-failure retryable error now t h = ground (arith)

-- A lease that is not fenced off is held by a running task.
pub live_of_lease :
    (lease : ℕ) (t : Task)
    → fenced (some lease) t ≡ false
    → IsValid t
    → is_terminal t.status ≡ false
live_of_lease lease t h v = ground arith

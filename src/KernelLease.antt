-- ===== src/KernelLease.antt =====
-- src/infra/store.js, the table `kernel_leases`, which has one row at most: the lease that one kernel
-- process holds. Owners are UUID texts that are only compared: they are numbers.
mod Samples
use asynchronnous_agent_os.Prelude.{
  ℕ, ◌+◌, ◌<◌, ◌≡◌, ◌≢◌, refl, Bool, true, false, not, ◌&&◌, List, [], ◌∷◌, Option, none, some,
  arith, ltb, if◌then◌else◌, ◌==◌, All,
}

pub record Lease : Type 0 where
  pub owner_id : ℕ
  pub host_pid : ℕ
  pub expires_at : ℕ
  pub updated_at : ℕ

-- Each operation takes the row and the clock, and answers whether it took effect.
unfoldable pub acquire_kernel_lease : ℕ → ℕ → ℕ → ℕ → Option Lease → Option Lease × Bool
acquire_kernel_lease owner pid lease_ms now row =
    let taken : Option Lease = some (record {
      owner_id = owner;
      host_pid = pid;
      expires_at = now + lease_ms;
      updated_at = now;
    }) in
    elim row [
      | none ↦ (taken, true)
      | some l ↦
          if not (l.owner_id == owner) && ltb now l.expires_at
          then (some l, false)
          else (taken, true)
    ]

unfoldable pub renew_kernel_lease : ℕ → ℕ → ℕ → Option Lease → Option Lease × Bool
renew_kernel_lease owner lease_ms now none = (none, false)
renew_kernel_lease owner lease_ms now (some l) =
    if l.owner_id == owner
    then (some (record l { expires_at = now + lease_ms; updated_at = now }), true)
    else (some l, false)

unfoldable pub release_kernel_lease : ℕ → Option Lease → Option Lease × Bool
release_kernel_lease owner none = (none, false)
release_kernel_lease owner (some l) = if l.owner_id == owner then (none, true) else (some l, false)

-- A call of a process, with its time.
pub data Call : Type 0 where
  acquires : (owner pid lease_ms now : ℕ) → Call
  renews : (owner lease_ms now : ℕ) → Call
  releases : (owner now : ℕ) → Call

abbrev pub caller : Call → ℕ
caller (acquires owner pid lease_ms now) = owner
caller (renews owner lease_ms now) = owner
caller (releases owner now) = owner

abbrev pub time : Call → ℕ
time (acquires owner pid lease_ms now) = now
time (renews owner lease_ms now) = now
time (releases owner now) = now

abbrev pub call : Call → Option Lease → Option Lease × Bool
call (acquires owner pid lease_ms now) = acquire_kernel_lease owner pid lease_ms now
call (renews owner lease_ms now) = renew_kernel_lease owner lease_ms now
call (releases owner now) = release_kernel_lease owner

-- The calls one after the other: the row at the end, and whether any took effect.
unfoldable pub calls : List Call → Option Lease → Option Lease × Bool
calls [] row = (row, false)
calls (c ∷ cs) row =
    let (row', effect) = call c row in
    let (row'', more) = calls cs row' in (row'', if effect then true else more)

-- The calls of other processes before a time.
abbrev pub Foreign : ℕ → ℕ → List Call → Type 0
Foreign owner until = All (λ c. (caller c ≢ owner) × (time c < until))

other_waits :
    (c : Call) (l : Lease)
    → caller c ≢ l.owner_id
    → time c < l.expires_at
    → call c (some l) ≡ (some l, false)
unfolding acquire_kernel_lease renew_kernel_lease release_kernel_lease
other_waits (acquires owner pid lease_ms now) l o t = ground arith
other_waits (renews owner lease_ms now) l o t = ground arith
other_waits (releases owner now) l o t = ground arith

others_wait :
    (cs : List Call) (l : Lease)
    → Foreign l.owner_id l.expires_at cs
    → calls cs (some l) ≡ (some l, false)
unfolding calls
others_wait [] l h = refl
others_wait (c ∷ cs) l ((o, t), h) = rw (other_waits c l o t, others_wait cs l h) refl

-- Where a process has acquired the kernel's lease, whatever the other processes call before it runs
-- out has no effect, and the process can then renew it.
pub lease_excludes :
    (owner pid lease_ms now : ℕ) (row : Option Lease) (row' : Option Lease) (cs : List Call)
    (renewal : ℕ) (later : ℕ)
    → acquire_kernel_lease owner pid lease_ms now row ≡ (row', true)
    → Foreign owner (now + lease_ms) cs
    → (calls cs row' ≡ (row', false))
      × ((renew_kernel_lease owner renewal later (calls cs row').0).1 ≡ true)
unfolding acquire_kernel_lease renew_kernel_lease
lease_excludes owner pid lease_ms now row row' cs renewal later h f =
    let l : Lease = record {
      owner_id = owner;
      host_pid = pid;
      expires_at = now + lease_ms;
      updated_at = now;
    } in
    let taken : row' ≡ some l = ground arith in
    let same : calls cs (some l) ≡ (some l, false) = others_wait cs l f in
    rw (taken, same) (refl, ground arith)

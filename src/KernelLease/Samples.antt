-- ===== src/KernelLease/Samples.antt =====
-- Runs of the kernel's lease.
use asynchronnous_agent_os.Prelude.{◌≡◌, refl, true, false, List, [], ◌∷◌, Option, some, arith}
use asynchronnous_agent_os.KernelLease.{
  Lease, acquire_kernel_lease, renew_kernel_lease, calls, Call, acquires, renews, releases,
  lease_excludes,
}

abbrev stale_row : Option Lease
stale_row = some (record { owner_id = 8; host_pid = 70; expires_at = 90; updated_at = 40 })

abbrev own_row : Option Lease
own_row = some (record { owner_id = 7; host_pid = 71; expires_at = 150; updated_at = 100 })

abbrev intruders : List Call
intruders = acquires 8 70 50 120 ∷ renews 8 50 130 ∷ releases 8 140 ∷ []

lease_excludes_example :
    (calls intruders own_row ≡ (own_row, false))
    × ((renew_kernel_lease 7 50 145 (calls intruders own_row).0).1 ≡ true)
unfolding acquire_kernel_lease
lease_excludes_example = lease_excludes 7 71 50 100 stale_row own_row intruders 50 145 refl (
  (ground arith, ground arith),
  ((ground arith, ground arith), ((ground arith, ground arith), tt)),
)

-- ===== src/Monitors/Exclusion.antt =====
-- A poll keeps its lease on the monitor whatever others call before the lease runs out.
use asynchronnous_agent_os.Prelude.{
  ℕ, ◌+◌, ◌≡◌, ◌≢◌, ◌<◌, refl, Bool, true, String, List, [], ◌∷◌, some, arith, ◌==◌, ==_iff, All,
  map, Bool-cases, Option-cases, inl, inr, ◌++◌,
}
use asynchronnous_agent_os.Json.{Json}
use asynchronnous_agent_os.Table.{find}
use asynchronnous_agent_os.Table.Laws.{find-update}
use asynchronnous_agent_os.Monitors.{
  Monitor, MonitorInput, Watch, Reading, monitor_of, create_monitor, monitor_key, get_monitor,
  is_claimable, claimed, claim_monitor, runs_with, free, observed, complete_monitor, poll_delay,
  broken, fail_monitor, recovered, recover_expired_monitor_leases, set_monitor_enabled,
  trigger_monitor,
}
use asynchronnous_agent_os.Monitors.Completion.{Completed, complete_held}
use asynchronnous_agent_os.Monitors.Calls.{
  Call, claims, completes, fails, recovers, enables, triggers, creates, perform, NamesOther, Holds,
  IsHeld, run, FromOthers,
}

find-recovered :
    (now i : ℕ) (ms : List Monitor) (m : Monitor)
    → find i ms ≡ some m
    → find i (map (recovered now) ms) ≡ some (recovered now m)
unfolding find
find-recovered now i [] m e = ground arith
find-recovered now i (x ∷ ms) m e = elim (Bool-cases (x.id == i)) [
  | inl a ↦ ground arith
  | inr a ↦ ground (arith, find-recovered now i ms m)
]

find-append :
    (i : ℕ) (ms : List Monitor) (x m : Monitor)
    → find i ms ≡ some m
    → find i (ms ++ (x ∷ [])) ≡ some m
unfolding find
find-append i [] x m e = ground arith
find-append i (y ∷ ms) x m e = ground (arith, find-append i ms x m)

module _ (id token expires : ℕ) (w : Watch) (now : ℕ) (before : now < expires) (m : Monitor)
    (h : Holds w id token expires m) where
  claim_monitor-IsHeld :
      (i other lease_ms : ℕ) → IsHeld (claim_monitor w i other lease_ms now).0 id token expires
  unfolding claim_monitor
  claim_monitor-IsHeld i other lease_ms = (
    m,
    (
      ground (
        arith,
        h.0,
        h.1,
        find-update i id (is_claimable now) (claimed other lease_ms now) (λ x. refl) w.monitors,
      ),
      h.1,
      h.2,
      h.3,
    ),
  )

  complete_monitor-IsHeld :
      (i other : ℕ) (r : Reading)
      → other ≢ token
      → IsHeld (complete_monitor w i other r now).0 id token expires
  unfolding complete_monitor
  complete_monitor-IsHeld i other r ne = elim (Option-cases (get_monitor w i)) [
    | inl a ↦ (m, (ground (arith, h.0), h.1, h.2, h.3))
    | inr (x, a) ↦ (
      m,
      (
        ground (
          arith,
          h.0,
          h.1,
          h.2,
          find-update i id (runs_with other) (observed r x.last_changed_at now) (λ x. refl)
              w.monitors,
        ),
        h.1,
        h.2,
        h.3,
      ),
    )
  ]

  fail_monitor-IsHeld :
      (i other : ℕ) (error : String)
      → other ≢ token
      → IsHeld (fail_monitor w i other error now).0 id token expires
  unfolding fail_monitor
  fail_monitor-IsHeld i other error ne = elim (Option-cases (get_monitor w i)) [
    | inl a ↦ (m, (ground (arith, h.0), h.1, h.2, h.3))
    | inr (x, a) ↦ (
      m,
      (
        ground (
          arith,
          h.0,
          h.1,
          h.2,
          find-update i id (runs_with other)
              (broken error (x.failure_count + 1) (poll_delay x.interval_ms (x.failure_count + 1))
                now)
              (λ x. refl) w.monitors,
        ),
        h.1,
        h.2,
        h.3,
      ),
    )
  ]

  recover_expired_monitor_leases-IsHeld :
      IsHeld (recover_expired_monitor_leases w now) id token expires
  unfolding recover_expired_monitor_leases
  recover_expired_monitor_leases-IsHeld =
      (m, (ground (arith, h.1, h.3, find-recovered now id w.monitors m h.0), h.1, h.2, h.3))

  set_monitor_enabled-IsHeld :
      (i : ℕ) (on : Bool) → IsHeld (set_monitor_enabled w i on now).0 id token expires
  unfolding set_monitor_enabled
  set_monitor_enabled-IsHeld i on =
      let found =
        find-update i id (λ _. true) (λ x. record x { enabled = on; updated_at = now }) (λ x. refl)
          w.monitors in
      let reset =
        find-update i id (λ _. true) (λ x. record (free now x) { enabled = on; next_poll_at = now })
          (λ x. refl) w.monitors in
      elim (Bool-cases (i == id)) [
        | inl e ↦ (
          record m { enabled = on; updated_at = now },
          (ground (arith, h.0, h.1, found, ==_iff i id), h.1, h.2, h.3),
        )
        | inr e ↦ (m, (ground (arith, h.0, found, reset), h.1, h.2, h.3))
      ]

  trigger_monitor-IsHeld : (i : ℕ) → IsHeld (trigger_monitor w i now).0 id token expires
  unfolding trigger_monitor
  trigger_monitor-IsHeld i = (
    m,
    (
      ground (
        arith,
        h.0,
        h.1,
        find-update i id (λ _. true)
            (λ x. record (free now x) { enabled = true; next_poll_at = now }) (λ x. refl)
            w.monitors,
        ==_iff i id,
      ),
      h.1,
      h.2,
      h.3,
    ),
  )

  create_monitor-IsHeld :
      (same_json : Json → Json → Bool) (i : MonitorInput)
      → IsHeld (create_monitor same_json w i now).0 id token expires
  unfolding create_monitor
  create_monitor-IsHeld same_json i =
      (m, (ground (arith, h.0, find-append id w.monitors (monitor_of i now) m h.0), h.1, h.2, h.3))

perform-IsHeld :
    (id token expires : ℕ) (w : Watch) (now : ℕ) (c : Call)
    → now < expires
    → NamesOther token c
    → IsHeld w id token expires
    → IsHeld (perform w c now) id token expires
perform-IsHeld id token expires w now (claims i other lease_ms) b ne (m, h) =
    claim_monitor-IsHeld id token expires w now b m h i other lease_ms
perform-IsHeld id token expires w now (completes i other r) b ne (m, h) =
    complete_monitor-IsHeld id token expires w now b m h i other r ne
perform-IsHeld id token expires w now (fails i other error) b ne (m, h) =
    fail_monitor-IsHeld id token expires w now b m h i other error ne
perform-IsHeld id token expires w now recovers b ne (m, h) =
    recover_expired_monitor_leases-IsHeld id token expires w now b m h
perform-IsHeld id token expires w now (enables i on) b ne (m, h) =
    set_monitor_enabled-IsHeld id token expires w now b m h i on
perform-IsHeld id token expires w now (triggers i) b ne (m, h) =
    trigger_monitor-IsHeld id token expires w now b m h i
perform-IsHeld id token expires w now (creates same_json i) b ne (m, h) =
    create_monitor-IsHeld id token expires w now b m h same_json i

run-IsHeld :
    (id token expires : ℕ) (w : Watch) (calls : List (Call × ℕ))
    → All (FromOthers token expires) calls
    → IsHeld w id token expires
    → IsHeld (run w calls) id token expires
run-IsHeld id token expires w [] a h = h
run-IsHeld id token expires w ((c, now) ∷ calls) a h =
    run-IsHeld id token expires (perform w c now) calls a.1
      (perform-IsHeld id token expires w now c a.0.0 a.0.1 h)

-- Where a poll has a lease on a monitor, whatever calls without its token come before the lease runs
-- out leave the lease with it, and it can then complete: the monitor keeps the state that was read and
-- the time, gives up the lease, is idle without failures, and is due after its interval; a change is
-- dated and stored as an observation.
pub poll_excludes :
    (id token expires : ℕ) (w : Watch) (calls : List (Call × ℕ)) (r : Reading) (now : ℕ)
    → IsHeld w id token expires
    → All (FromOthers token expires) calls
    → (m : Monitor) × Holds (run w calls) id token expires m
      × Completed (run w calls) id token r now m
poll_excludes id token expires w calls r now h a =
    let (m, k) = run-IsHeld id token expires w calls a h in
    (m, k, complete_held (run w calls) id token expires r now m k)

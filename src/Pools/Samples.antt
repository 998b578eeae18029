-- ===== src/Pools/Samples.antt =====
-- Runs of a pool.
use asynchronnous_agent_os.Prelude.{refl, false, [], ◌∷◌}
use asynchronnous_agent_os.Pools.{acquire, abort, drain_queue, drain, give_back}
use asynchronnous_agent_os.Pools.Machine.{
  Run, start, asks, ends, aborts, Reach, here, step, IsSound, every_run-IsSound,
}

-- The second call is aborted while it waits; the end of the first hands its permit to the third.
abbrev last : Run
last = record {
  pool = record { name = "io"; capacity = 1; active = 1; queue = [] };
  holders = 3 ∷ [];
  grants = 1 ∷ 3 ∷ [];
  arrivals = 1 ∷ 2 ∷ 3 ∷ [];
}

run : Reach (start "io" 0) last
unfolding acquire abort drain_queue drain give_back
run =
    step
      (step (step (step (step here (asks 1 false)) (asks 2 false)) (asks 3 false)) (aborts 2 refl))
      (ends 1 (λ _. false) refl)

every_run-IsSound_example : IsSound last
every_run-IsSound_example = every_run-IsSound "io" 0 last run

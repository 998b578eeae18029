-- ===== src/Claims/Samples.antt =====
-- Runs of claims, and the theorems of the sibling modules applied to them.
use asynchronnous_agent_os.Prelude.{
  ℕ, ◌≡◌, refl, true, List, [], ◌∷◌, none, some, arith, first, later,
}
use asynchronnous_agent_os.Domain.{running}
use asynchronnous_agent_os.Json.{null}
use asynchronnous_agent_os.Table.{find}
use asynchronnous_agent_os.Table.Laws.{Rows}
use asynchronnous_agent_os.Store.{Store}
use asynchronnous_agent_os.Store.Sample.{fresh, one_task}
use asynchronnous_agent_os.Claims.{
  shared, Claim, Declared, with_mode, requests, acquire_resource_claims,
  release_stale_resource_claims,
}
use asynchronnous_agent_os.Claims.Exclusion.{acquires, Reach, here, next, held_claims_share}
use asynchronnous_agent_os.Claims.Stale.{ClaimSwept, release_stale_resource_claims_lem}

-- Tasks 1 and 2 of goal 7; the first runs.
abbrev two_tasks : Store
two_tasks = record one_task { tasks = record (fresh 1) { status = running } ∷ fresh 2 ∷ [] }

abbrev reads : List Declared
reads = with_mode (some "docs") true null ∷ []

abbrev claim_by : ℕ → ℕ → Claim
claim_by task now = record {
  goal_id = 7;
  task_id = task;
  scope = "docs";
  mode = shared;
  held = true;
  owner = 5;
  detail = null;
  acquired_at = now;
  released_at = none;
}

abbrev both : List Claim
both = claim_by 1 100 ∷ claim_by 2 110 ∷ []

run :
    Reach (record { store = two_tasks; claims = [] }) (record { store = two_tasks; claims = both })
unfolding acquire_resource_claims requests find
run = next (next here (acquires null reads 1 5 100)) (acquires null reads 2 5 110)

held_claims_share_example : (shared ≡ shared) × (shared ≡ shared)
unfolding find
held_claims_share_example =
    held_claims_share two_tasks (record { store = two_tasks; claims = both }) run (claim_by 1 100)
      (claim_by 2 110) first (later first) refl refl (ground arith) refl refl

release_stale_resource_claims_lem_example :
    Rows (ClaimSwept two_tasks 200) both (release_stale_resource_claims two_tasks both 200)
release_stale_resource_claims_lem_example = release_stale_resource_claims_lem two_tasks both 200

-- ===== src/Claims.antt =====
-- src/infra/store.js, the table `resource_claims`: what a task's quantum claims of named resources,
-- shared or exclusive. `declared` is the list that the goal's metadata declares. The ids of new rows
-- are drawn by the calls, and no statement selects by them. The rows that a release returns are
-- those that it wrote, in the order of the table.
pub mod Exclusion
pub mod Stale
mod Samples
use asynchronnous_agent_os.Prelude.{
  ℕ, Bool, true, false, ◌&&◌, ◌||◌, not, String, List, [], ◌∷◌, ◌++◌, Option, none, some, str_eq,
  if◌then◌else◌, ◌==◌, any, keep, map, is_some,
}
use asynchronnous_agent_os.Domain.{status_eq, running}
use asynchronnous_agent_os.Json.{Json}
use asynchronnous_agent_os.Table.{find, each}
use asynchronnous_agent_os.Store.{Store, Task, get_task, get_goal, task_key, goal_key}

pub data Mode : Type 0 where
  shared exclusive : Mode

pub record Claim : Type 0 where
  pub goal_id : ℕ
  pub task_id : ℕ
  pub scope : String
  pub mode : Mode
  -- `status = 'HELD'`, against `'RELEASED'`.
  pub held : Bool
  pub owner : ℕ
  pub detail : Json
  pub acquired_at : ℕ
  pub released_at : Option ℕ

-- An entry of `resourceClaims`: a text, or an object, whose scope may be missing. The Boolean tells
-- whether the lower-case text of its mode is `shared`.
pub data Declared : Type 0 where
  name_only : String → Declared
  with_mode : Option String → Bool → Json → Declared

pub record Request : Type 0 where
  pub scope : String
  pub mode : Mode
  pub detail : Json

abbrev pub is_exclusive : Mode → Bool
is_exclusive shared = false
is_exclusive exclusive = true

-- `byScope.set`: an entry of the scope keeps its place.
abbrev pub set_scope : Request → List Request → List Request
set_scope r [] = r ∷ []
set_scope r (x ∷ rs) =
    let rest = set_scope r rs in if str_eq x.scope r.scope then r ∷ rs else x ∷ rest

abbrev pub add_request : Request → List Request → List Request
add_request r rs =
    if not (any (λ x. str_eq x.scope r.scope) rs) || is_exclusive r.mode then set_scope r rs else rs

abbrev pub read : Json → List Request → Declared → List Request
read no_detail rs (name_only scope) =
    if str_eq scope ""
    then rs
    else add_request (record { scope = scope; mode = exclusive; detail = no_detail }) rs
read no_detail rs (with_mode none is_shared detail) = rs
read no_detail rs (with_mode (some scope) is_shared detail) =
    if str_eq scope ""
    then rs
    else add_request
        (record { scope = scope; mode = if is_shared then shared else exclusive; detail = detail })
        rs

unfoldable pub requests : Json → List Request → List Declared → List Request
requests no_detail rs [] = rs
requests no_detail rs (d ∷ declared) = requests no_detail (read no_detail rs d) declared

abbrev pub tenant_of : Store → ℕ → Option String
tenant_of s goal = elim (get_goal s goal) [ none ↦ none | some g ↦ some g.tenant_id ]

abbrev pub same_tenant : Option String → Option String → Bool
same_tenant (some a) (some b) = str_eq a b
same_tenant _ _ = false

-- The WHERE clause: a claim that stands against a request of the task.
abbrev pub conflicts_with : Store → Task → Request → Claim → Bool
conflicts_with s t r c =
    str_eq c.scope r.scope
    && (c.held
        && (not (c.task_id == t.id)
            && (same_tenant (tenant_of s c.goal_id) (tenant_of s t.goal_id)
                && (is_exclusive c.mode || is_exclusive r.mode))))

abbrev pub claim_of : Task → ℕ → ℕ → Request → Claim
claim_of t owner now r = record {
  goal_id = t.goal_id;
  task_id = t.id;
  scope = r.scope;
  mode = r.mode;
  held = true;
  owner = owner;
  detail = r.detail;
  acquired_at = now;
  released_at = none;
}

-- The rows afterwards, and `acquired`.
unfoldable pub acquire_resource_claims :
    Store → Json → List Declared → List Claim → ℕ → ℕ → ℕ → List Claim × Bool
acquire_resource_claims s no_detail declared claims id owner now = elim (get_task s id) [
  | none ↦ (claims, false)
  | some t ↦
      let requested = requests no_detail [] declared in
      if any (λ r. any (conflicts_with s t r) claims) requested
      then (claims, false)
      else (claims ++ map (claim_of t owner now) requested, true)
]

abbrev pub holds : ℕ → Claim → Bool
holds task c = c.task_id == task && c.held

abbrev pub released : ℕ → Claim → Claim
released now c = record c { held = false; released_at = some now }

abbrev pub release_if : (Claim → Bool) → ℕ → Claim → Claim
release_if test now c = if test c then released now c else c

unfoldable pub release_resource_claims : List Claim → ℕ → ℕ → List Claim × List Claim
release_resource_claims claims task now =
    (map (release_if (holds task) now) claims, map (released now) (keep (holds task) claims))

-- `t.id IS NULL OR t.status != 'RUNNING'`, of the row that the join adds.
abbrev pub not_running : Store → ℕ → Bool
not_running s task = elim (get_task s task) [
  | none ↦ true
  | some t ↦ not (status_eq t.status running)
]

abbrev pub is_stale : Store → Claim → Bool
is_stale s c = c.held && not_running s c.task_id

unfoldable pub release_stale_resource_claims : Store → List Claim → ℕ → List Claim
release_stale_resource_claims s claims now =
    each (λ rows c. (release_resource_claims rows c.task_id now).0) claims
      (keep (is_stale s) claims)

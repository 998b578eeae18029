-- ===== src/Usage/Ledger.antt =====
-- src/infra/store.js: recordResourceUsage, recordResourceUsageBatch, aggregateResourceUsage and
-- updateGoalBudget.
use asynchronnous_agent_os.Prelude.{
  ℕ, ◌+◌, Bool, true, false, ◌&&◌, not, String, List, [], ◌∷◌, ◌++◌, Option, none, some, str_eq,
  if◌then◌else◌, ◌==◌, any, leb,
}
use asynchronnous_agent_os.Table.{update}
use asynchronnous_agent_os.Usage.Books.{
  Books, Contract, Entry, Amounts, CapabilityStatus, contract_key, get_goal_contract, used,
  set_entry,
}

-- A key that is given is not the empty text.
pub record Usage : Type 0 where
  pub idempotency_key : Option String
  pub goal_id : ℕ
  pub resource_type : String
  pub amount : ℕ

pub data Recording : Type 0 where
  -- Whether a row was inserted, and the contract of the row's goal.
  recorded : Bool → Option Contract → Recording
  missing_contract several_goals : Recording

abbrev pub has_key : String → Entry → Bool
has_key key e = elim (e.idempotency_key) [ none ↦ false | some k ↦ str_eq k key ]

-- `SELECT * FROM resource_usage_ledger WHERE idempotency_key = ?`
unfoldable pub entry_under : Option String → List Entry → Option Entry
entry_under none es = none
entry_under (some key) [] = none
entry_under (some key) (e ∷ es) = if has_key key e then some e else entry_under (some key) es

abbrev pub spent : String → ℕ → Amounts → Amounts
spent type amount usage = set_entry type (used type usage + amount) usage

abbrev pub row_of : Usage → Contract → ℕ → Entry
row_of i c now = record {
  idempotency_key = i.idempotency_key;
  goal_id = i.goal_id;
  agent_id = c.agent_id;
  tenant_id = c.tenant_id;
  resource_type = i.resource_type;
  amount = i.amount;
  created_at = now;
}

-- `UPDATE goal_contracts SET usage_json = ? WHERE goal_id = ?`
abbrev pub write_usage : Books → ℕ → Amounts → Books
write_usage b goal usage = record b {
  contracts = update goal (λ _. true) (λ c. record c { usage = usage }) b.contracts;
}

abbrev pub insert_entry : Books → Entry → Books
insert_entry b e = record b { ledger = b.ledger ++ (e ∷ []) }

unfoldable pub record_resource_usage : Books → Usage → ℕ → Books × Recording
record_resource_usage b i now = elim (entry_under i.idempotency_key b.ledger) [
  | some e ↦ (b, recorded false (get_goal_contract b e.goal_id))
  | none ↦ elim (get_goal_contract b i.goal_id) [
    | none ↦ (b, missing_contract)
    | some c ↦
        let b' =
          insert_entry (write_usage b i.goal_id (spent i.resource_type i.amount c.usage))
            (row_of i c now) in
        (b', recorded true (get_goal_contract b' i.goal_id))
  ]
]

-- The loop of a batch: the rows of the ledger, and the usage so far.
unfoldable pub record_each : Contract → ℕ → List Usage → List Entry × Amounts → List Entry × Amounts
record_each c now [] r = r
record_each c now (i ∷ inputs) (ledger, usage) = elim (entry_under i.idempotency_key ledger) [
  | some e ↦ record_each c now inputs (ledger, usage)
  | none ↦
      record_each c now inputs
        (ledger ++ (row_of i c now ∷ []), spent i.resource_type i.amount usage)
]

-- `none` for an empty batch.
unfoldable pub record_resource_usage_batch : Books → List Usage → ℕ → Books × Option Recording
record_resource_usage_batch b [] now = (b, none)
record_resource_usage_batch b (i ∷ inputs) now =
    if any (λ x. not (x.goal_id == i.goal_id)) (i ∷ inputs)
    then (b, some several_goals)
    else elim (get_goal_contract b i.goal_id) [
      | none ↦ (b, some missing_contract)
      | some c ↦
          let (ledger, usage) = record_each c now (i ∷ inputs) (b.ledger, c.usage) in
          let b' = write_usage (record b { ledger = ledger }) i.goal_id usage in
          (b', some (recorded true (get_goal_contract b' i.goal_id)))
    ]

-- A filter of the aggregation that is missing selects every row.
abbrev pub fits : Option String → String → Bool
fits none value = true
fits (some a) value = str_eq value a

abbrev pub total : (Entry → Bool) → List Entry → ℕ
total test [] = 0
total test (e ∷ es) = (if test e then e.amount else 0) + total test es

unfoldable pub aggregate_resource_usage :
    Books → (tenant agent type : Option String) → (since : ℕ) → ℕ
aggregate_resource_usage b tenant agent type since =
    total
      (λ e.
        leb since e.created_at
        && (fits tenant e.tenant_id && (fits agent e.agent_id && fits type e.resource_type)))
      b.ledger

unfoldable pub update_goal_budget : Books → ℕ → Amounts → Books × Option Contract
update_goal_budget b goal budget = elim (get_goal_contract b goal) [
  | none ↦ (b, none)
  | some c ↦
      let b' = record b {
        contracts = update goal (λ _. true) (λ x. record x { budget = budget }) b.contracts;
      } in
      (b', get_goal_contract b' goal)
]

-- `INSERT INTO goal_contracts`, in createGoalWithTasks: none if the goal has a contract. Where the
-- caller gives no usage (`contract.usage ?? {}`), that of `c` is empty.
unfoldable pub open_contract : Books → Contract → Option Books
open_contract b c = elim (get_goal_contract b c.goal_id) [
  | some d ↦ none
  | none ↦ some (record b { contracts = b.contracts ++ (c ∷ []) })
]

unfoldable pub set_capability_status : Books → ℕ → CapabilityStatus → Books × Option Contract
set_capability_status b goal status =
    let b' = record b {
      contracts =
          update goal (λ _. true) (λ x. record x { capability_status = status }) b.contracts;
    } in
    (b', get_goal_contract b' goal)

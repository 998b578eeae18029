-- ===== src/Usage/Runs.antt =====
-- Every sequence of calls keeps the balance of contracts and ledger.
use asynchronnous_agent_os.Prelude.{
  ℕ, ◌≡◌, refl, true, String, List, [], ◌∷◌, ◌++◌, none, some, arith, ◌==◌, ==_iff, if◌then◌else◌,
  inl, inr, Bool-cases, Option-cases, any, not,
}
use asynchronnous_agent_os.Table.{find, each}
use asynchronnous_agent_os.Table.Laws.{find-update}
use asynchronnous_agent_os.Usage.Books.{
  Books, Contract, Amounts, CapabilityStatus, contract_key, get_goal_contract, used, entry,
}
use asynchronnous_agent_os.Usage.Ledger.{
  Usage, record_resource_usage, record_resource_usage_batch, update_goal_budget, open_contract,
  set_capability_status,
}
use asynchronnous_agent_os.Usage.Balance.{IsBalanced, ledger_sum, record_resource_usage-IsBalanced}
use asynchronnous_agent_os.Usage.Batch.{record_resource_usage_batch-each}

-- A call on contracts and ledger.
pub data Step (b : Books) : Books → Type 0 where
  uses : (i : Usage) (now : ℕ) → Step b (record_resource_usage b i now).0
  uses_all : (inputs : List Usage) (now : ℕ) → Step b (record_resource_usage_batch b inputs now).0
  revises : (goal : ℕ) (budget : Amounts) → Step b (update_goal_budget b goal budget).0
  -- No caller of createGoalWithTasks gives a usage.
  opens :
      (c : Contract) (b' : Books) → open_contract b (record c { usage = [] }) ≡ some b' → Step b b'
  marks : (goal : ℕ) (status : CapabilityStatus) → Step b (set_capability_status b goal status).0

pub data Run (b : Books) : Books → Type 0 where
  here : Run b b
  next : {c d : Books} → Run b c → Step c d → Run b d

each-IsBalanced :
    (inputs : List Usage) (now : ℕ) (b : Books)
    → IsBalanced b
    → IsBalanced (each (λ x i. (record_resource_usage x i now).0) b inputs)
unfolding each
each-IsBalanced [] now b h = h
each-IsBalanced (i ∷ inputs) now b h =
    each-IsBalanced inputs now (record_resource_usage b i now).0
      (record_resource_usage-IsBalanced b i now h)

record_resource_usage_batch-IsBalanced :
    (b : Books) (inputs : List Usage) (now : ℕ)
    → IsBalanced b
    → IsBalanced (record_resource_usage_batch b inputs now).0
unfolding record_resource_usage_batch
record_resource_usage_batch-IsBalanced b [] now h = h
record_resource_usage_batch-IsBalanced b (i ∷ inputs) now h =
    elim (Bool-cases (any (λ x. not (x.goal_id == i.goal_id)) (i ∷ inputs))) [
      | inl several ↦ rw (several, record_resource_usage_batch) h
      | inr same ↦ elim (Option-cases (get_goal_contract b i.goal_id)) [
        | inl e ↦ rw (same, e, record_resource_usage_batch) h
        | inr (c, e) ↦
            rw (record_resource_usage_batch-each b i inputs now c e same)
              (each-IsBalanced (i ∷ inputs) now b h)
      ]
    ]

find-append :
    (i : ℕ) (c : Contract) (cs : List Contract)
    → find c.goal_id cs ≡ none
    → find i (cs ++ (c ∷ [])) ≡ (if c.goal_id == i then some c else find i cs)
unfolding find
find-append i c [] e = ground arith
find-append i c (d ∷ cs) e = ground (arith, find-append i c cs, ==_iff c.goal_id i)

Step-IsBalanced : {b b' : Books} → IsBalanced b → Step b b' → IsBalanced b'
unfolding update_goal_budget open_contract set_capability_status entry
Step-IsBalanced {b} h (uses i now) j type = record_resource_usage-IsBalanced b i now h j type
Step-IsBalanced {b} h (uses_all inputs now) j type =
    record_resource_usage_batch-IsBalanced b inputs now h j type
Step-IsBalanced {b} h (revises goal budget) j type = ground (
  arith,
  h j type,
  find-update goal j (λ _. true) (λ x. record x { budget = budget }) (λ x. refl) b.contracts,
)
Step-IsBalanced {b} h (opens c b' e) j type =
    ground (arith, h j type, find-append j (record c { usage = [] }) b.contracts)
Step-IsBalanced {b} h (marks goal status) j type = ground (
  arith,
  h j type,
  find-update goal j (λ _. true) (λ x. record x { capability_status = status }) (λ x. refl)
      b.contracts,
)

pub Run-IsBalanced : {b b' : Books} → IsBalanced b → Run b b' → IsBalanced b'
Run-IsBalanced h here = h
Run-IsBalanced h (next r st) = Step-IsBalanced (Run-IsBalanced h r) st

-- Whatever is recorded, revised or opened without usage in whatever order, from contracts whose usage
-- agrees with the ledger: the usage of a contract stays the sum of its goal's rows of the ledger, for
-- each resource.
pub usage_is_sum :
    {b b' : Books} (goal : ℕ) (type : String) (c : Contract)
    → IsBalanced b
    → Run b b'
    → get_goal_contract b' goal ≡ some c
    → used type c.usage ≡ ledger_sum b'.ledger goal type
usage_is_sum goal type c h r e = ground (arith, Run-IsBalanced h r goal type)

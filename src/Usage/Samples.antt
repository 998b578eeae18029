-- ===== src/Usage/Samples.antt =====
-- Two goals with contracts, and the theorems of the sibling modules applied to them.
use asynchronnous_agent_os.Prelude.{ℕ, ◌≡◌, ◌≤◌, refl, true, none, some, [], ◌∷◌, arith, String}
use asynchronnous_agent_os.Table.{find, update, each}
use asynchronnous_agent_os.Usage.Books.{
  Books, Contract, Amounts, CapabilityStatus, contract_key, origin_key, get_goal_contract, entry,
  used, set_entry,
}
use asynchronnous_agent_os.Usage.Ledger.{
  Usage, recorded, record_each, update_goal_budget, entry_under, record_resource_usage,
  record_resource_usage_batch, aggregate_resource_usage,
}
use asynchronnous_agent_os.Usage.Balance.{IsBalanced, ledger_sum}
use asynchronnous_agent_os.Usage.Batch.{record_resource_usage_batch-each}
use asynchronnous_agent_os.Usage.Runs.{here, next, uses, uses_all, usage_is_sum}
use asynchronnous_agent_os.Usage.Budget.{
  Patch, build_budget, check_fields, narrowed, revise_budget, apply_patch,
}
use asynchronnous_agent_os.Usage.Narrowing.{IsWithin, build_budget-IsWithin, revise_budget-IsWithin}
use asynchronnous_agent_os.Usage.Quota.{Settings, daily_remaining, execution_time_remaining}
use asynchronnous_agent_os.Usage.Kernel.{
  Prices, record_tool_call, assert_model_call, record_model_usage,
}
use asynchronnous_agent_os.Usage.Limits.{record_tool_call_bounded, model_call_bounded}

abbrev limits : Amounts
limits = ("maxInputTokens", 1000) ∷ ("maxOutputTokens", 500) ∷ ("maxToolCalls", 3) ∷ []

abbrev opened : Contract
opened = record {
  goal_id = 7;
  agent_id = "main";
  tenant_id = "default";
  parent_goal_id = none;
  deadline_at = some 9000;
  budget = limits;
  usage = [];
  capability_status = CapabilityStatus.active;
  capability_expires_at = none;
}

abbrev books : Books
books = record {
  contracts = opened ∷ [];
  ledger = [];
  origins = record { id = 7; created_at = 100; parent_goal_id = none } ∷ [];
}

abbrev settings : Settings
settings = record {
  goal_defaults = limits;
  global_daily = ("tokens", 100000) ∷ [];
  agent_daily = ("toolCalls", 50) ∷ [];
  max_context_chars = 60000;
}

abbrev call_under : String → Usage
call_under key = record {
  idempotency_key = some key;
  goal_id = 7;
  resource_type = "toolCalls";
  amount = 1;
}

books-IsBalanced : IsBalanced books
unfolding find entry
books-IsBalanced goal type = ground arith

abbrev after_calls : Books
after_calls =
    (record_resource_usage_batch (record_resource_usage books (call_under "a") 200).0
      (call_under "a" ∷ call_under "b" ∷ []) 300).0

abbrev charged : Contract
charged = record opened { usage = ("toolCalls", 2) ∷ [] }

usage_is_sum_example : used "toolCalls" charged.usage ≡ ledger_sum after_calls.ledger 7 "toolCalls"
unfolding find update entry set_entry entry_under record_resource_usage record_resource_usage_batch
    record_each
usage_is_sum_example =
    usage_is_sum {b = books} 7 "toolCalls" charged books-IsBalanced
      (next (next here (uses (call_under "a") 200))
        (uses_all (call_under "a" ∷ call_under "b" ∷ []) 300))
      refl

record_resource_usage_batch-each_example :
    (record_resource_usage_batch books (call_under "a" ∷ call_under "b" ∷ []) 300).0
    ≡ each (λ x j. (record_resource_usage x j 300).0) books (call_under "a" ∷ call_under "b" ∷ [])
unfolding find
record_resource_usage_batch-each_example =
    record_resource_usage_batch-each books (call_under "a") (call_under "b" ∷ []) 300 opened refl
      refl

abbrev wish : Patch
wish = ("maxToolCalls", some 2) ∷ []

abbrev child_limits : Amounts
child_limits = ("maxInputTokens", 1000) ∷ ("maxOutputTokens", 500) ∷ ("maxToolCalls", 2) ∷ []

build_budget-IsWithin_example : (m : ℕ) × (entry "maxToolCalls" limits ≡ some m) × (2 ≤ m)
unfolding find build_budget check_fields narrowed entry
build_budget-IsWithin_example =
    build_budget-IsWithin books limits limits child_limits (some 7) wish refl refl "maxToolCalls" 2
      refl

revise_budget-IsWithin_example :
    (c : Contract) × (get_goal_contract (revise_budget books limits 7 wish).0 7 ≡ some c)
    × IsWithin c.budget limits
unfolding find update revise_budget apply_patch update_goal_budget entry set_entry
revise_budget-IsWithin_example =
    revise_budget-IsWithin books limits limits 7 wish opened
      (some (record opened { budget = child_limits })) refl refl (λ k n e. (n, e, ground arith))
      refl

record_tool_call_bounded_example :
    (c : Contract) × (get_goal_contract (record_tool_call settings books 7 (some "a") 200).0 7
      ≡ some c)
    × (used "toolCalls" c.usage ≤ 3)
unfolding find update entry set_entry entry_under record_tool_call record_resource_usage
    daily_remaining execution_time_remaining aggregate_resource_usage
record_tool_call_bounded_example =
    record_tool_call_bounded settings books 7 200 3 (some "a") opened
      (recorded true (some (record opened { usage = ("toolCalls", 1) ∷ [] }))) refl refl refl

abbrev free : Prices
free = record { input_cost = λ n. 0; output_cost = λ n. 0; affordable = λ n. none }

model_call_bounded_example :
    (c : Contract) × (get_goal_contract
        (record_model_usage books free 7 "m" (some 90) (some 400) 300).0
        7
      ≡ some c)
    × (used "inputTokens" c.usage ≤ 1000)
    × (used "outputTokens" c.usage ≤ 500)
unfolding find entry assert_model_call daily_remaining execution_time_remaining
    aggregate_resource_usage
model_call_bounded_example =
    model_call_bounded settings books free 7 400 200 300 100 90 400 (some 500) "m" opened 1000 500
      refl refl refl refl (omega arith) (omega arith)

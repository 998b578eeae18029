-- ===== src/Usage/Kernel.antt =====
-- src/kernel/resource-kernel.js: recordToolCall, assertModelCall and recordModelUsage. The price of
-- a model's tokens, and how many output tokens an amount pays for, are arguments.
use asynchronnous_agent_os.Prelude.{
  ℕ, ◌+◌, ◌-◌, ◌/◌, Bool, false, not, ◌||◌, String, List, [], ◌∷◌, Option, none, some,
  if◌then◌else◌, ltb,
}
use Prim.Native.String.{◌++◌}
use asynchronnous_agent_os.Usage.Books.{
  Books, Contract, contract_key, get_goal_contract, entry, used,
}
use asynchronnous_agent_os.Usage.Ledger.{
  Usage, Recording, record_resource_usage, record_resource_usage_batch,
}
use asynchronnous_agent_os.Usage.Quota.{
  Settings, is_reached, min_limit, left_of, daily_remaining, assert_execution_time,
}

pub data LimitError : Type 0 where
  missing_contract no_time tool_calls_exhausted daily_tool_calls_exhausted : LimitError
  input_exceeds_budget input_exceeds_quota cost_exceeds_budget no_output_budget : LimitError
  invalid_usage : LimitError

pub data Checked (A : Type 0) : Type 0 where
  passes : A → Checked A
  fails : LimitError → Checked A

abbrev pub tool_call : ℕ → Option String → Usage
tool_call goal key = record {
  idempotency_key = key;
  goal_id = goal;
  resource_type = "toolCalls";
  amount = 1;
}

unfoldable pub record_tool_call :
    Settings → Books → ℕ → Option String → ℕ → Books × Checked Recording
record_tool_call w b goal key now = elim (get_goal_contract b goal) [
  | none ↦ (b, fails no_time)
  | some c ↦
      if not (assert_execution_time w b now goal)
      then (b, fails no_time)
      else if is_reached (entry "maxToolCalls" c.budget) (used "toolCalls" c.usage)
      then (b, fails tool_calls_exhausted)
      else if is_reached (daily_remaining w b now c "toolCalls" "maxToolCalls") 0
      then (b, fails daily_tool_calls_exhausted)
      else let (b', r) = record_resource_usage b (tool_call goal key) now in (b', passes r)
]

-- The price of input and of output tokens, and the output tokens that an amount buys, `none` where
-- output is free.
pub record Prices : Type 0 where
  pub input_cost : ℕ → ℕ
  pub output_cost : ℕ → ℕ
  pub affordable : ℕ → Option ℕ

-- `value > limit`
abbrev pub is_over_limit : Option ℕ → ℕ → Bool
is_over_limit none n = false
is_over_limit (some limit) n = ltb limit n

-- `limit - used`, where the code's difference may be negative: then no output is left.
abbrev pub remaining : Contract → String → String → Option ℕ
remaining c type key = left_of (entry key c.budget) (used type c.usage)

-- The output tokens that the limits leave; `none` without a limit.
abbrev pub output_bound : Settings → Books → Prices → Contract → ℕ → ℕ → Option ℕ
output_bound w b p c estimated now =
    let cost_left =
      min_limit (remaining c "costUsd" "maxCostUsd")
        (daily_remaining w b now c "costUsd" "maxCostUsd") in
    min_limit (remaining c "outputTokens" "maxOutputTokens") (
      min_limit
        (elim cost_left [ none ↦ none | some n ↦ p.affordable (n - p.input_cost estimated) ])
        (left_of (daily_remaining w b now c "tokens" "maxTokens") estimated))

abbrev pub estimate : ℕ → ℕ
estimate chars = (chars + 3) / 4

-- `chars` is the sum of the lengths of the messages. The result is the estimate of the input tokens
-- and the limit of the output tokens.
unfoldable pub assert_model_call : Settings → Books → Prices → ℕ → ℕ → ℕ → Checked (ℕ × Option ℕ)
assert_model_call w b p goal chars now = elim (get_goal_contract b goal) [
  | none ↦ fails missing_contract
  | some c ↦
      let estimated = estimate chars in
      let cost = p.input_cost estimated in
      let bound = output_bound w b p c estimated now in
      if not (assert_execution_time w b now goal)
      then fails no_time
      else if is_over_limit (entry "maxInputTokens" c.budget)
          (used "inputTokens" c.usage + estimated)
      then fails input_exceeds_budget
      else if is_reached (daily_remaining w b now c "tokens" "maxTokens") estimated
      then fails input_exceeds_quota
      else if is_over_limit (entry "maxCostUsd" c.budget) (used "costUsd" c.usage + cost)
          || is_over_limit (daily_remaining w b now c "costUsd" "maxCostUsd") cost
      then fails cost_exceeds_budget
      else if is_reached bound 0
      then fails no_output_budget
      else passes (estimated, bound)
]

abbrev pub model_record : ℕ → String → String → ℕ → Usage
model_record goal key type amount = record {
  idempotency_key = some (key ++ ":" ++ type);
  goal_id = goal;
  resource_type = type;
  amount = amount;
}

abbrev pub model_records : Prices → ℕ → String → ℕ → ℕ → List Usage
model_records p goal key input output =
    model_record goal key "inputTokens" input
    ∷ model_record goal key "outputTokens" output
    ∷ model_record goal key "tokens" (input + output)
    ∷ model_record goal key "costUsd" (p.input_cost input + p.output_cost output)
    ∷ model_record goal key "modelCalls" 1
    ∷ []

-- The counts are `none` where the provider's are no non-negative numbers.
unfoldable pub record_model_usage :
    Books → Prices → ℕ → String → Option ℕ → Option ℕ → ℕ → Books × Checked (Option Recording)
record_model_usage b p goal key (some input) (some output) now =
    let (b', r) = record_resource_usage_batch b (model_records p goal key input output) now in
    (b', passes r)
record_model_usage b p goal key _ _ now = (b, fails invalid_usage)

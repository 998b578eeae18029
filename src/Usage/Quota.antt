-- ===== src/Usage/Quota.antt =====
-- src/kernel/resource-kernel.js: startOfUtcDay, checkDailyQuotas, dailyRemaining, admitTask,
-- authorizeFanOut, contextLimit, executionTimeRemaining and assertExecutionTime. A limit is `none`
-- where the code reads Infinity.
use asynchronnous_agent_os.Prelude.{
  ℕ, ◌+◌, ◌-◌, ◌*◌, ◌/◌, min, Bool, true, false, not, String, List, [], ◌∷◌, Option, none, some,
  if◌then◌else◌, leb, ltb, keep, length, same, zero, suc,
}
use asynchronnous_agent_os.Table.{find}
use asynchronnous_agent_os.Usage.Books.{
  Books, Contract, Amounts, CapabilityStatus, active, expired, revoked, contract_key, origin_key,
  get_goal_contract, entry, used,
}
use asynchronnous_agent_os.Usage.Ledger.{aggregate_resource_usage, set_capability_status}

-- `config.resources` and `config.session.maxContextChars`
pub record Settings : Type 0 where
  pub goal_defaults : Amounts
  pub global_daily : Amounts
  pub agent_daily : Amounts
  pub max_context_chars : ℕ

abbrev pub day_ms : ℕ
day_ms = 86400000

abbrev pub start_of_utc_day : ℕ → ℕ
start_of_utc_day timestamp = timestamp / day_ms * day_ms

-- `used >= limit`
abbrev pub is_reached : Option ℕ → ℕ → Bool
is_reached none n = false
is_reached (some limit) n = leb limit n

abbrev pub min_limit : Option ℕ → Option ℕ → Option ℕ
min_limit none b = b
min_limit (some a) none = some a
min_limit (some a) (some b) = some (min a b)

-- `Math.max(0, limit - used)`
abbrev pub left_of : Option ℕ → ℕ → Option ℕ
left_of none n = none
left_of (some limit) n = some (limit - n)

module _ (w : Settings) (b : Books) (now : ℕ) where
  abbrev pub used_globally : String → ℕ
  used_globally type = aggregate_resource_usage b none none (some type) (start_of_utc_day now)

  abbrev pub used_by_agent : Contract → String → ℕ
  used_by_agent c type =
      aggregate_resource_usage b (some c.tenant_id) (some c.agent_id) (some type)
        (start_of_utc_day now)

  -- The first quota that is used up: its scope is global, its resource, and when to retry.
  abbrev first_used_up :
      Bool → (String → ℕ) → Amounts → List (String × String) → Option (Bool × String × ℕ)
  first_used_up is_global count limits [] = none
  first_used_up is_global count limits ((type, key) ∷ checks) =
      let rest = first_used_up is_global count limits checks in
      if is_reached (entry key limits) (count type)
      then some (is_global, type, start_of_utc_day now + day_ms)
      else rest

  abbrev daily_checks : List (String × String)
  daily_checks =
      ("tokens", "maxTokens") ∷ ("costUsd", "maxCostUsd") ∷ ("toolCalls", "maxToolCalls") ∷ []

  unfoldable pub check_daily_quotas : Contract → Option (Bool × String × ℕ)
  check_daily_quotas c = elim (first_used_up true used_globally w.global_daily daily_checks) [
    | some q ↦ some q
    | none ↦ first_used_up false (used_by_agent c) w.agent_daily daily_checks
  ]

  unfoldable pub daily_remaining : Contract → String → String → Option ℕ
  daily_remaining c type key =
      min_limit (left_of (entry key w.global_daily) (used_globally type))
        (left_of (entry key w.agent_daily) (used_by_agent c type))

  -- The time until the deadline, and 0 after it; `none` without a deadline.
  unfoldable pub execution_time_remaining : ℕ → Option ℕ
  execution_time_remaining goal = elim (get_goal_contract b goal) [
    | none ↦ some 0
    | some c ↦ elim (find goal b.origins) [
      | none ↦ some 0
      | some g ↦ elim (entry "maxWallTimeMs" c.budget) [
        | none ↦ left_of c.deadline_at now
        | some ms ↦ left_of (min_limit c.deadline_at (some (g.created_at + ms))) now
      ]
    ]
  ]

  -- Whether the assertion passes.
  abbrev pub assert_execution_time : ℕ → Bool
  assert_execution_time goal = elim (execution_time_remaining goal) [
    | none ↦ true
    | some ms ↦ ltb 0 ms
  ]

-- `missing_goal` stands for the exception at a contract without a goal.
pub data Admission : Type 0 where
  admitted : Contract → Admission
  missing_contract missing_goal inactive capability_expired deadline_expired : Admission
  wall_time_exhausted : Admission
  budget_exhausted : (resource : String) → Admission
  quota_exhausted : (is_global : Bool) (resource : String) (retry_at : ℕ) → Admission

abbrev pub is_active : CapabilityStatus → Bool
is_active active = true
is_active expired = false
is_active revoked = false

-- `at && now >= at`
abbrev pub is_over : Option ℕ → ℕ → Bool
is_over none now = false
is_over (some zero) now = false
is_over (some at) now = leb at now

-- `at && now > at`
abbrev pub is_past : Option ℕ → ℕ → Bool
is_past none now = false
is_past (some zero) now = false
is_past (some at) now = ltb at now

-- The first field of the budget that is used up.
unfoldable pub exhausted : Contract → List (String × String) → Option String
exhausted c [] = none
exhausted c ((resource, key) ∷ checks) =
    let rest = exhausted c checks in
    if is_reached (entry key c.budget) (used resource c.usage) then some resource else rest

abbrev pub budget_checks : List (String × String)
budget_checks =
    ("inputTokens", "maxInputTokens")
    ∷ ("outputTokens", "maxOutputTokens")
    ∷ ("costUsd", "maxCostUsd")
    ∷ ("toolCalls", "maxToolCalls")
    ∷ []

abbrev exceeds_wall_time : Option ℕ → ℕ → ℕ → Bool
exceeds_wall_time none created now = false
exceeds_wall_time (some ms) created now = ltb (created + ms) now

unfoldable pub admit_task : Settings → Books → ℕ → ℕ → Books × Admission
admit_task w b goal now = elim (get_goal_contract b goal) [
  | none ↦ (b, missing_contract)
  | some c ↦
      if not (is_active c.capability_status)
      then (b, inactive)
      else if is_over c.capability_expires_at now
      then ((set_capability_status b goal expired).0, capability_expired)
      else if is_past c.deadline_at now
      then (b, deadline_expired)
      else elim (find goal b.origins) [
        | none ↦ (b, missing_goal)
        | some g ↦
            if exceeds_wall_time (entry "maxWallTimeMs" c.budget) g.created_at now
            then (b, wall_time_exhausted)
            else elim (exhausted c budget_checks) [
              | some resource ↦ (b, budget_exhausted resource)
              | none ↦ elim (check_daily_quotas w b now c) [
                | some (is_global, resource, retry_at) ↦
                    (b, quota_exhausted is_global resource retry_at)
                | none ↦ (b, admitted c)
              ]
            ]
      ]
]

abbrev pub take {ℓ} : {A : Type ℓ} → ℕ → List A → List A
take n [] = []
take zero (x ∷ xs) = []
take (suc n) (x ∷ xs) = x ∷ take n xs

pub data FanOut : Type 0 where
  authorized no_contract too_many too_deep : FanOut

-- `finite(value, 0)`
abbrev or_zero : Option ℕ → ℕ
or_zero none = 0
or_zero (some n) = n

-- The goals stand in the order in which listGoals returns them.
unfoldable pub authorize_fan_out : Books → ℕ → ℕ → ℕ → FanOut
authorize_fan_out b parent count depth = elim (get_goal_contract b parent) [
  | none ↦ no_contract
  | some c ↦
      let existing =
        length (keep (λ g. same g.parent_goal_id (some parent)) (take 10000 b.origins)) in
      if ltb (or_zero (entry "maxFanOut" c.budget)) (existing + count)
      then too_many
      else if ltb (or_zero (entry "maxDepth" c.budget)) depth
      then too_deep
      else authorized
]

unfoldable pub context_limit : Settings → Books → ℕ → ℕ
context_limit w b goal = elim (get_goal_contract b goal) [
  | none ↦ w.max_context_chars
  | some c ↦ elim (entry "maxContextChars" c.budget) [
    | none ↦ w.max_context_chars
    | some n ↦ min n w.max_context_chars
  ]
]

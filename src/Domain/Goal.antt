-- ===== src/Domain/Goal.antt =====
-- src/domain/states.js: GoalStatus.
use asynchronnous_agent_os.Prelude.{Bool, true, false}

pub data GoalStatus : Type 0 where
  active succeeded failed cancelled : GoalStatus

-- The test `['SUCCEEDED', 'FAILED', 'CANCELLED'].includes(status)` of the callers.
abbrev pub is_final : GoalStatus → Bool
is_final active = false
is_final _ = true

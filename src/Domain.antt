-- ===== src/Domain.antt =====
-- src/domain/states.js: the statuses, and the table of task transitions.
pub mod Goal
use asynchronnous_agent_os.Prelude.{Bool, true, false, List, [], ◌∷◌, any}

pub data TaskStatus : Type 0 where
  created ready running waiting blocked paused succeeded failed cancelled : TaskStatus

pub data WaitKind : Type 0 where
  timer event : WaitKind

abbrev pub status_eq : TaskStatus → TaskStatus → Bool
status_eq created created = true
status_eq ready ready = true
status_eq running running = true
status_eq waiting waiting = true
status_eq blocked blocked = true
status_eq paused paused = true
status_eq succeeded succeeded = true
status_eq failed failed = true
status_eq cancelled cancelled = true
status_eq _ _ = false

-- TERMINAL_TASK_STATUSES
abbrev pub is_terminal : TaskStatus → Bool
is_terminal succeeded = true
is_terminal failed = true
is_terminal cancelled = true
is_terminal _ = false

abbrev allowed : TaskStatus → List TaskStatus
allowed created = ready ∷ blocked ∷ cancelled ∷ []
allowed ready = running ∷ paused ∷ cancelled ∷ []
allowed running = ready ∷ waiting ∷ succeeded ∷ failed ∷ cancelled ∷ []
allowed waiting = ready ∷ failed ∷ paused ∷ cancelled ∷ []
allowed blocked = ready ∷ failed ∷ paused ∷ cancelled ∷ []
allowed paused = ready ∷ waiting ∷ blocked ∷ cancelled ∷ []
allowed succeeded = []
allowed failed = ready ∷ []
allowed cancelled = []

-- `assertTransition` throws exactly where this is `false`.
abbrev pub may_transition : TaskStatus → TaskStatus → Bool
may_transition from to = any (status_eq to) (allowed from)

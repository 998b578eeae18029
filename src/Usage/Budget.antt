-- ===== src/Usage/Budget.antt =====
-- src/kernel/resource-kernel.js: buildBudget and reviseBudget. A field of a request is `none` where
-- `Number` makes of it no non-negative finite number.
use asynchronnous_agent_os.Prelude.{
  ℕ, Bool, false, String, List, [], ◌∷◌, Option, none, some, if◌then◌else◌, ltb, is_some,
}
use asynchronnous_agent_os.Usage.Books.{
  Books, Contract, Amounts, contract_key, get_goal_contract, entry, set_entry,
}
use asynchronnous_agent_os.Usage.Ledger.{update_goal_budget}

abbrev pub Patch : Type 0
Patch = List (String × Option ℕ)

pub data BudgetError : Type 0 where
  missing_contract missing_ceiling : BudgetError
  unknown_field invalid_field exceeds_ceiling : String → BudgetError

pub data Granting (A : Type 0) : Type 0 where
  granted : A → Granting A
  refused : BudgetError → Granting A

-- The budget of the parent's contract, or the defaults of the configuration.
abbrev pub ceiling_of : Books → Amounts → Option ℕ → Option Amounts
ceiling_of b defaults none = some defaults
ceiling_of b defaults (some parent) = elim (get_goal_contract b parent) [
  | none ↦ none
  | some c ↦ some c.budget
]

-- The checks of a field that is requested; `none` if it passes.
abbrev pub check_field : Amounts → String → Option ℕ → Option BudgetError
check_field ceiling k v = elim (entry k ceiling) [
  | none ↦ some (unknown_field k)
  | some maximum ↦ elim v [
    | none ↦ some (invalid_field k)
    | some n ↦ if ltb maximum n then some (exceeds_ceiling k) else none
  ]
]

unfoldable pub check_fields : Amounts → Patch → Option BudgetError
check_fields ceiling [] = none
check_fields ceiling ((k, v) ∷ rest) =
    let later = check_fields ceiling rest in
    elim (check_field ceiling k v) [ none ↦ later | some e ↦ some e ]

abbrev pub chosen : Patch → String → ℕ → ℕ
chosen requested k maximum = elim (entry k requested) [
  | none ↦ maximum
  | some v ↦ elim v [ none ↦ 0 | some n ↦ n ]
]

unfoldable pub narrowed : Patch → Amounts → Amounts
narrowed requested [] = []
narrowed requested ((k, maximum) ∷ rest) = (k, chosen requested k maximum) ∷ narrowed requested rest

unfoldable pub build_budget : Books → Amounts → Option ℕ → Patch → Granting Amounts
build_budget b defaults parent requested = elim (ceiling_of b defaults parent) [
  | none ↦ refused missing_ceiling
  | some ceiling ↦ elim (check_fields ceiling requested) [
    | some e ↦ refused e
    | none ↦ granted (narrowed requested ceiling)
  ]
]

-- `finite(ceiling[key], Infinity)` is below the value.
abbrev pub is_above : Option ℕ → ℕ → Bool
is_above none n = false
is_above (some maximum) n = ltb maximum n

unfoldable pub apply_patch : Amounts → Patch → Amounts → Granting Amounts
apply_patch ceiling [] budget = granted budget
apply_patch ceiling ((k, none) ∷ rest) budget =
    if is_some (entry k budget) then refused (invalid_field k) else refused (unknown_field k)
apply_patch ceiling ((k, some n) ∷ rest) budget =
    let later = apply_patch ceiling rest (set_entry k n budget) in
    if is_some (entry k budget)
    then (if is_above (entry k ceiling) n then refused (exceeds_ceiling k) else later)
    else refused (unknown_field k)

unfoldable pub revise_budget : Books → Amounts → ℕ → Patch → Books × Granting (Option Contract)
revise_budget b defaults goal patch = elim (get_goal_contract b goal) [
  | none ↦ (b, refused missing_contract)
  | some c ↦ elim (ceiling_of b defaults c.parent_goal_id) [
    | none ↦ (b, refused missing_ceiling)
    | some ceiling ↦ elim (apply_patch ceiling patch c.budget) [
      | refused e ↦ (b, refused e)
      | granted budget ↦ let (b', c') = update_goal_budget b goal budget in (b', granted c')
    ]
  ]
]

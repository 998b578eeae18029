-- ===== src/Usage/Balance.antt =====
-- The usage of a goal's contract is the sum of the goal's rows of the ledger.
use asynchronnous_agent_os.Prelude.{
  ℕ, ◌+◌, ◌≡◌, refl, Bool, true, ◌&&◌, String, List, [], ◌∷◌, ◌++◌, none, some, arith, str_eq,
  eq_iff, if◌then◌else◌, ◌==◌, ==_iff, inl, inr, Bool-cases, Option-cases,
}
use asynchronnous_agent_os.Table.Laws.{find-update}
use asynchronnous_agent_os.Usage.Books.{
  Books, Contract, Entry, Amounts, contract_key, get_goal_contract, used, entry-set_entry,
}
use asynchronnous_agent_os.Usage.Ledger.{
  Usage, spent, row_of, write_usage, record_resource_usage, total,
}

abbrev pub is_for : ℕ → String → Entry → Bool
is_for goal type e = e.goal_id == goal && str_eq e.resource_type type

-- The sum of the rows of a goal for a resource.
abbrev pub ledger_sum : List Entry → ℕ → String → ℕ
ledger_sum es goal type = total (is_for goal type) es

abbrev pub usage_of : Books → ℕ → String → ℕ
usage_of b goal type = elim (get_goal_contract b goal) [ none ↦ 0 | some c ↦ used type c.usage ]

abbrev pub IsBalanced : Books → Type 0
IsBalanced b = (goal : ℕ) (type : String) → usage_of b goal type ≡ ledger_sum b.ledger goal type

pub total-append :
    (test : Entry → Bool) (es fs : List Entry)
    → total test (es ++ fs) ≡ total test es + total test fs
total-append test [] fs = omega arith
total-append test (e ∷ es) fs = omega (arith, total-append test es fs)

pub used-spent :
    (j type : String) (n : ℕ) (u : Amounts)
    → used j (spent type n u) ≡ used j u + (if str_eq type j then n else 0)
used-spent j type n u = elim (Bool-cases (str_eq type j)) [
  | inl e ↦
      let same : type ≡ j = (eq_iff type j).0 e in
      ground (arith, same, entry-set_entry j type (used type u + n) u)
  | inr e ↦ ground (arith, entry-set_entry j type (used type u + n) u)
]

usage_of-write :
    (b : Books) (goal : ℕ) (u : Amounts) (i : ℕ) (type : String) (c : Contract)
    → get_goal_contract b goal ≡ some c
    → usage_of (write_usage b goal u) i type
      ≡ (if goal == i then used type u else usage_of b i type)
usage_of-write b goal u i type c e = ground (
  arith,
  ==_iff goal i,
  find-update goal i (λ _. true) (λ x. record x { usage = u }) (λ x. refl) b.contracts,
)

ledger_sum-insert :
    (es : List Entry) (i : Usage) (c : Contract) (now goal : ℕ) (type : String)
    → ledger_sum (es ++ (row_of i c now ∷ [])) goal type
      ≡ ledger_sum es goal type
        + (if (i.goal_id == goal) && str_eq i.resource_type type then i.amount else 0)
ledger_sum-insert es i c now goal type =
    ground (arith, total-append (is_for goal type) es (row_of i c now ∷ []))

pub record_resource_usage-IsBalanced :
    (b : Books) (i : Usage) (now : ℕ) → IsBalanced b → IsBalanced (record_resource_usage b i now).0
unfolding record_resource_usage
record_resource_usage-IsBalanced b i now h goal type =
    elim (Option-cases (get_goal_contract b i.goal_id)) [
      | inl e ↦ ground (arith, h goal type)
      | inr (c, e) ↦ ground (
        arith,
        h goal type,
        ==_iff i.goal_id goal,
        usage_of-write b i.goal_id (spent i.resource_type i.amount c.usage) goal type c e,
        used-spent type i.resource_type i.amount c.usage,
        ledger_sum-insert b.ledger i c now goal type,
      )
    ]

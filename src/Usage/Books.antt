-- ===== src/Usage/Books.antt =====
-- src/infra/store.js: the rows of `goal_contracts` and `resource_usage_ledger`, and the columns of
-- `goals` that the resource kernel reads. Amounts and limits are natural numbers: counts of tokens
-- and calls, milliseconds, and costs in a unit that divides them, without the rounding of doubles.
-- The columns `metadata_json` and `updated_at` are left out.
use asynchronnous_agent_os.Prelude.{
  ℕ, ◌≡◌, refl, false, String, List, [], ◌∷◌, Option, none, some, arith, str_eq, eq_iff,
  if◌then◌else◌, Bool-cases, inl, inr,
}
use asynchronnous_agent_os.Table.{Keyed, find}

pub data CapabilityStatus : Type 0 where
  active expired revoked : CapabilityStatus

-- The entries of a budget or of a usage object.
abbrev pub Amounts : Type 0
Amounts = List (String × ℕ)

pub record Contract : Type 0 where
  pub goal_id : ℕ
  pub agent_id : String
  pub tenant_id : String
  pub parent_goal_id : Option ℕ
  pub deadline_at : Option ℕ
  pub budget : Amounts
  pub usage : Amounts
  pub capability_status : CapabilityStatus
  pub capability_expires_at : Option ℕ

pub record Entry : Type 0 where
  pub idempotency_key : Option String
  pub goal_id : ℕ
  pub agent_id : String
  pub tenant_id : String
  pub resource_type : String
  pub amount : ℕ
  pub created_at : ℕ

pub record Origin : Type 0 where
  pub id : ℕ
  pub created_at : ℕ
  -- `metadata.parentGoalId`
  pub parent_goal_id : Option ℕ

pub record Books : Type 0 where
  pub contracts : List Contract
  pub ledger : List Entry
  pub origins : List Origin

instance abbrev pub contract_key : Keyed Contract
contract_key = record { key = λ c. c.goal_id }

instance abbrev pub origin_key : Keyed Origin
origin_key = record { key = λ g. g.id }

abbrev pub get_goal_contract : Books → ℕ → Option Contract
get_goal_contract b id = find id b.contracts

-- The entry under a key of an object; `none` if it has no such property.
unfoldable pub entry : {A : Type 0} → String → List (String × A) → Option A
entry k [] = none
entry k ((j, n) ∷ rest) = if str_eq j k then some n else entry k rest

-- `Number(usage[key] ?? 0)`
abbrev pub used : String → Amounts → ℕ
used k usage = elim (entry k usage) [ none ↦ 0 | some n ↦ n ]

-- `{ ...amounts, [key]: n }`
unfoldable pub set_entry : String → ℕ → Amounts → Amounts
set_entry k n [] = (k, n) ∷ []
set_entry k n ((j, m) ∷ rest) =
    let rest' = set_entry k n rest in if str_eq j k then (j, n) ∷ rest else (j, m) ∷ rest'

pub str_eq_sym : (a b : String) → str_eq a b ≡ str_eq b a
str_eq_sym a b = elim (Bool-cases (str_eq a b)) [
  | inl e ↦ let same : a ≡ b = (eq_iff a b).0 e in rw same refl
  | inr e ↦ elim (Bool-cases (str_eq b a)) [
    | inl f ↦ let same : b ≡ a = (eq_iff b a).0 f in rw same refl
    | inr f ↦ rw (e, f) refl
  ]
]

pub entry-set_entry :
    (j k : String) (n : ℕ) (u : Amounts)
    → entry j (set_entry k n u) ≡ (if str_eq k j then some n else entry j u)
unfolding entry set_entry
entry-set_entry j k n [] = refl
entry-set_entry j k n ((i, m) ∷ u) = elim (Bool-cases (str_eq i k)) [
  | inl e ↦ let same : i ≡ k = (eq_iff i k).0 e in ground (arith, same)
  | inr e ↦ elim (Bool-cases (str_eq i j)) [
    | inl f ↦
        let same : i ≡ j = (eq_iff i j).0 f in
        let other : str_eq k j ≡ false = rw (← same, str_eq_sym k i) e in ground arith
    | inr f ↦ ground (arith, entry-set_entry j k n u)
  ]
]

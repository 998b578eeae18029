-- ===== src/Usage/Narrowing.antt =====
-- A budget stays within its ceiling: the budget of the parent goal, or the configured defaults.
use asynchronnous_agent_os.Prelude.{
  ℕ, ◌≤◌, ◌≡◌, refl, true, String, [], ◌∷◌, Option, none, some, arith, str_eq, eq_iff, inl, inr,
  ◌⊎◌, ==_refl, Bool-cases, Option-cases,
}
use asynchronnous_agent_os.Usage.Books.{
  Books, Contract, Amounts, contract_key, get_goal_contract, entry, set_entry, entry-set_entry,
}
use asynchronnous_agent_os.Usage.Ledger.{update_goal_budget}
use asynchronnous_agent_os.Table.Laws.{find-update}
use asynchronnous_agent_os.Usage.Budget.{
  Patch, BudgetError, Granting, granted, refused, ceiling_of, check_fields, narrowed, build_budget,
  apply_patch, revise_budget,
}

-- Every field of the first budget is one of the second, and at most as large.
abbrev pub IsWithin : Amounts → Amounts → Type 0
IsWithin a b = (k : String) (n : ℕ) → entry k a ≡ some n → (m : ℕ) × (entry k b ≡ some m) × (n ≤ m)

checked :
    (ceiling : Amounts) (requested : Patch) (k : String) (v : Option ℕ) (m : ℕ)
    → check_fields ceiling requested ≡ none
    → entry k requested ≡ some v
    → entry k ceiling ≡ some m
    → (n : ℕ) × (v ≡ some n) × (n ≤ m)
unfolding check_fields entry
checked ceiling [] k v m c e f = cc
checked ceiling ((j, w) ∷ rest) k v m c e f = elim (Bool-cases (str_eq j k)) [
  | inl same ↦
      let s : j ≡ k = (eq_iff j k).0 same in
      elim (Option-cases v) [
        | inl z ↦ absurd (ground (arith, s))
        | inr (n, z) ↦ (n, z, ground (arith, s))
      ]
  | inr other ↦ checked ceiling rest k v m (ground arith) (ground arith) f
]

narrowed_within :
    (ceiling rest : Amounts) (requested : Patch)
    → check_fields ceiling requested ≡ none
    → (k : String) (n : ℕ) → entry k (narrowed requested rest) ≡ some n
    → ((m : ℕ) → entry k rest ≡ some m → entry k ceiling ≡ some m)
    → (m : ℕ) × (entry k rest ≡ some m) × (n ≤ m)
unfolding narrowed entry
narrowed_within ceiling [] requested c k n e sub = cc
narrowed_within ceiling ((j, maximum) ∷ rest) requested c k n e sub =
    elim (Bool-cases (str_eq j k)) [
      | inl same ↦
          let s : j ≡ k = (eq_iff j k).0 same in
          let here : entry k ceiling ≡ some maximum = sub maximum (rw same refl) in
          elim (Option-cases (entry k requested)) [
            | inl f ↦ (maximum, rw same refl, ground (arith, s))
            | inr (v, f) ↦
                let (x, g, le) = checked ceiling requested k v maximum c f here in
                (maximum, rw same refl, ground (arith, s))
          ]
      | inr other ↦
          let (m, f, le) =
            narrowed_within ceiling rest requested c k n (rw other at e)
              (λ x g. sub x (rw other g)) in
          (m, rw other f, le)
    ]

-- A budget that is granted has fields of the parent's alone, each at most as large as the parent's.
pub build_budget-IsWithin :
    (b : Books) (defaults ceiling budget : Amounts) (parent : Option ℕ) (requested : Patch)
    → ceiling_of b defaults parent ≡ some ceiling
    → build_budget b defaults parent requested ≡ granted budget
    → IsWithin budget ceiling
unfolding build_budget
build_budget-IsWithin b defaults ceiling budget parent requested e g k n f =
    elim (Option-cases (check_fields ceiling requested)) [
      | inl c ↦
          let same : narrowed requested ceiling ≡ budget = ground arith in
          narrowed_within ceiling ceiling requested c k n (rw same f) (λ x h. h)
      | inr (x, c) ↦ ground arith
    ]

apply_patch-IsWithin :
    (ceiling : Amounts) (patch : Patch) (old new : Amounts)
    → IsWithin old ceiling
    → apply_patch ceiling patch old ≡ granted new
    → IsWithin new ceiling
unfolding apply_patch
apply_patch-IsWithin ceiling [] old new h e = let same : old ≡ new = ground arith in rw same at h
apply_patch-IsWithin ceiling ((j, none) ∷ rest) old new h e = ground arith
apply_patch-IsWithin ceiling ((j, some n) ∷ rest) old new h e = elim (Option-cases (entry j old)) [
  | inl f ↦ ground arith
  | inr (x, f) ↦
      let (m, g, le) = h j x f in
      let within : IsWithin (set_entry j n old) ceiling = λ k y a. elim (Bool-cases (str_eq j k)) [
        | inl is ↦
            let s : j ≡ k = (eq_iff j k).0 is in
            (m, rw (← s) g, ground (arith, entry-set_entry k j n old, s))
        | inr other ↦ h k y (ground (arith, entry-set_entry k j n old))
      ] in
      apply_patch-IsWithin ceiling rest (set_entry j n old) new within (ground arith)
]

Granting-cases :
    {A : Type 0} (g : Granting A)
    → ((a : A) × (g ≡ granted a)) ⊎ ((x : BudgetError) × (g ≡ refused x))
Granting-cases (granted a) = inl (a, refl)
Granting-cases (refused x) = inr (x, refl)

update_goal_budget_lem :
    (b : Books) (goal : ℕ) (budget : Amounts) (c : Contract)
    → get_goal_contract b goal ≡ some c
    → get_goal_contract (update_goal_budget b goal budget).0 goal
      ≡ some (record c { budget = budget })
unfolding update_goal_budget
update_goal_budget_lem b goal budget c e = ground (
  arith,
  ==_refl goal,
  find-update goal goal (λ _. true) (λ x. record x { budget = budget }) (λ x. refl) b.contracts,
)

-- A revision that is granted keeps a budget within its ceiling.
pub revise_budget-IsWithin :
    (b : Books) (defaults ceiling : Amounts) (goal : ℕ) (patch : Patch) (c : Contract)
    (d : Option Contract)
    → get_goal_contract b goal ≡ some c
    → ceiling_of b defaults c.parent_goal_id ≡ some ceiling
    → IsWithin c.budget ceiling
    → (revise_budget b defaults goal patch).1 ≡ granted d
    → (c' : Contract) × (get_goal_contract (revise_budget b defaults goal patch).0 goal ≡ some c')
      × IsWithin c'.budget ceiling
unfolding revise_budget
revise_budget-IsWithin b defaults ceiling goal patch c d e f h g =
    elim (Granting-cases (apply_patch ceiling patch c.budget)) [
      | inr (x, a) ↦ absurd (ground arith)
      | inl (budget, a) ↦ (
        record c { budget = budget },
        ground (arith, update_goal_budget_lem b goal budget c e),
        apply_patch-IsWithin ceiling patch c.budget budget h a,
      )
    ]

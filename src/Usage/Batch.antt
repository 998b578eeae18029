-- ===== src/Usage/Batch.antt =====
-- A batch of usage records is its records one by one.
use asynchronnous_agent_os.Prelude.{
  ℕ, ◌≡◌, refl, true, false, List, [], ◌∷◌, some, arith, ◌==◌, ==_iff, ==_refl, any, not, All, sym,
  ap, ◌∙◌,
}
use asynchronnous_agent_os.Table.{find, update, each}
use asynchronnous_agent_os.Table.Laws.{find-update}
use asynchronnous_agent_os.Usage.Books.{
  Books, Contract, Entry, Amounts, contract_key, get_goal_contract,
}
use asynchronnous_agent_os.Usage.Ledger.{
  Usage, spent, write_usage, record_resource_usage, record_each, record_resource_usage_batch,
}

abbrev pub record_all : Books → List Usage → ℕ → Books
record_all b inputs now = each (λ x i. (record_resource_usage x i now).0) b inputs

abbrev with_usage : Amounts → Contract → Contract
with_usage u c = record c { usage = u }

write_twice :
    (goal : ℕ) (u v : Amounts) (cs : List Contract)
    → update goal (λ _. true) (with_usage v) (update goal (λ _. true) (with_usage u) cs)
      ≡ update goal (λ _. true) (with_usage v) cs
unfolding update
write_twice goal u v [] = refl
write_twice goal u v (c ∷ cs) = ground (arith, write_twice goal u v cs)

write_same :
    (goal : ℕ) (c : Contract) (cs : List Contract)
    → find goal cs ≡ some c
    → update goal (λ _. true) (with_usage c.usage) cs ≡ cs
unfolding find update
write_same goal c [] e = refl
write_same goal c (d ∷ cs) e = ground (arith, write_same goal c cs)

-- The books in the middle of a batch.
abbrev during : Books → ℕ → List Entry × Amounts → Books
during b goal (ledger, usage) = write_usage (record b { ledger = ledger }) goal usage

module _ (b : Books) (goal now : ℕ) (c : Contract) (e : get_goal_contract b goal ≡ some c) where
  contract-during :
      (es : List Entry) (u : Amounts)
      → get_goal_contract (during b goal (es, u)) goal ≡ some (with_usage u c)
  contract-during es u = ground (
    arith,
    ==_refl goal,
    find-update goal goal (λ _. true) (with_usage u) (λ x. refl) b.contracts,
  )

  record-during :
      (i : Usage) (es : List Entry) (u : Amounts)
      → i.goal_id ≡ goal
      → (record_resource_usage (during b goal (es, u)) i now).0
        ≡ during b goal (record_each c now (i ∷ []) (es, u))
  unfolding record_resource_usage record_each
  record-during i es u same = ground (
    arith,
    contract-during es u,
    write_twice goal u (spent i.resource_type i.amount u) b.contracts,
  )

  record_each-cons :
      (i : Usage) (inputs : List Usage) (r : List Entry × Amounts)
      → record_each c now (i ∷ inputs) r ≡ record_each c now inputs (record_each c now (i ∷ []) r)
  unfolding record_each
  record_each-cons i inputs (es, u) = ground arith

  each-during :
      (inputs : List Usage) (r : List Entry × Amounts)
      → All (λ i. i.goal_id ≡ goal) inputs
      → record_all (during b goal r) inputs now ≡ during b goal (record_each c now inputs r)
  unfolding record_each each
  each-during [] (es, u) h = refl
  each-during (i ∷ inputs) (es, u) h =
      rw (record_each-cons i inputs (es, u), record-during i es u h.0)
        (each-during inputs (record_each c now (i ∷ []) (es, u)) h.1)

same_goal :
    (goal : ℕ) (inputs : List Usage)
    → any (λ x. not (x.goal_id == goal)) inputs ≡ false
    → All (λ i. i.goal_id ≡ goal) inputs
same_goal goal [] h = tt
same_goal goal (i ∷ inputs) h =
    (ground (arith, ==_iff i.goal_id goal), same_goal goal inputs (ground arith))

-- A batch for a goal with a contract has the effect of its records one by one.
pub record_resource_usage_batch-each :
    (b : Books) (i : Usage) (inputs : List Usage) (now : ℕ) (c : Contract)
    → get_goal_contract b i.goal_id ≡ some c
    → any (λ x. not (x.goal_id == i.goal_id)) (i ∷ inputs) ≡ false
    → (record_resource_usage_batch b (i ∷ inputs) now).0
      ≡ each (λ x j. (record_resource_usage x j now).0) b (i ∷ inputs)
unfolding record_resource_usage_batch
record_resource_usage_batch-each b i inputs now c e same =
    let r = record_each c now (i ∷ inputs) (b.ledger, c.usage) in
    let start = write_same i.goal_id c b.contracts e in
    let rest =
      each-during b i.goal_id now c e (i ∷ inputs) (b.ledger, c.usage)
        (same_goal i.goal_id (i ∷ inputs) same) in
    let whole : (record_resource_usage_batch b (i ∷ inputs) now).0 ≡ during b i.goal_id r =
      ground (arith, ==_refl i.goal_id) in
    let before : during b i.goal_id (b.ledger, c.usage) ≡ b =
      ap (λ cs. record b { contracts = cs }) start in
    whole ∙ (rw before at (sym rest))

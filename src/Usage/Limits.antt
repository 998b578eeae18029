-- ===== src/Usage/Limits.antt =====
-- What the resource kernel lets through keeps a goal within its budget.
use asynchronnous_agent_os.Prelude.{
  ℕ, ◌+◌, ◌≤◌, ◌≡◌, refl, true, false, not, String, List, [], ◌∷◌, ◌++◌, Option, none, some, arith,
  str_eq, if◌then◌else◌, inl, inr, Bool-cases, Option-cases, ◌==◌, ==_refl, any,
}
use asynchronnous_agent_os.Table.Laws.{find-update}
use asynchronnous_agent_os.Usage.Books.{
  Books, Contract, Entry, Amounts, contract_key, get_goal_contract, entry, used,
}
use asynchronnous_agent_os.Usage.Ledger.{
  Usage, Recording, spent, entry_under, record_resource_usage, record_resource_usage_batch,
  record_each, row_of,
}
use asynchronnous_agent_os.Usage.Balance.{used-spent}
use asynchronnous_agent_os.Usage.Quota.{Settings, min_limit, is_reached}
use asynchronnous_agent_os.Usage.Kernel.{
  Prices, passes, record_tool_call, model_record, output_bound, assert_model_call,
  record_model_usage,
}

-- A tool call that is let through leaves the goal with at most as many tool calls as its budget
-- allows.
pub record_tool_call_bounded :
    (w : Settings) (b : Books) (goal now m : ℕ) (key : Option String) (c : Contract) (r : Recording)
    → get_goal_contract b goal ≡ some c
    → entry "maxToolCalls" c.budget ≡ some m
    → (record_tool_call w b goal key now).1 ≡ passes r
    → (c' : Contract) × (get_goal_contract (record_tool_call w b goal key now).0 goal ≡ some c')
      × (used "toolCalls" c'.usage ≤ m)
unfolding record_tool_call record_resource_usage
record_tool_call_bounded w b goal now m key c r e f g =
    elim (Option-cases (entry_under key b.ledger)) [
      | inr (x, h) ↦ (c, ground arith, ground arith)
      | inl h ↦ (
        record c { usage = spent "toolCalls" 1 c.usage },
        ground (
          arith,
          ==_refl goal,
          find-update goal goal (λ _. true) (λ x. record x { usage = spent "toolCalls" 1 c.usage })
              (λ x. refl) b.contracts,
        ),
        ground (arith, used-spent "toolCalls" "toolCalls" 1 c.usage),
      )
    ]

-- What a batch asks for of a resource.
abbrev asked : String → List Usage → ℕ
asked j [] = 0
asked j (i ∷ inputs) = (if str_eq i.resource_type j then i.amount else 0) + asked j inputs

record_each_bounded :
    (c : Contract) (now : ℕ) (j : String) (inputs : List Usage) (es : List Entry) (u : Amounts)
    → used j (record_each c now inputs (es, u)).1 ≤ used j u + asked j inputs
unfolding record_each
record_each_bounded c now j [] es u = omega arith
record_each_bounded c now j (i ∷ inputs) es u =
    elim (Option-cases (entry_under i.idempotency_key es)) [
      | inl f ↦ ground (
        arith,
        used-spent j i.resource_type i.amount u,
        record_each_bounded c now j inputs (es ++ (row_of i c now ∷ []))
            (spent i.resource_type i.amount u),
      )
      | inr (x, f) ↦ ground (arith, record_each_bounded c now j inputs es u)
    ]

batch_bounded :
    (b : Books) (i : Usage) (inputs : List Usage) (now : ℕ) (c : Contract)
    → get_goal_contract b i.goal_id ≡ some c
    → (c' : Contract) × (get_goal_contract
          (record_resource_usage_batch b (i ∷ inputs) now).0
          i.goal_id
        ≡ some c')
      × (c'.budget ≡ c.budget)
      × ((j : String) → used j c'.usage ≤ used j c.usage + asked j (i ∷ inputs))
unfolding record_resource_usage_batch
batch_bounded b i inputs now c e =
    elim (Bool-cases (any (λ x. not (x.goal_id == i.goal_id)) (i ∷ inputs))) [
      | inl several ↦ (c, ground arith, refl, λ j. ground arith)
      | inr same ↦
          let u : Amounts = (record_each c now (i ∷ inputs) (b.ledger, c.usage)).1 in
          (
            record c { usage = u },
            ground (
              arith,
              ==_refl i.goal_id,
              find-update i.goal_id i.goal_id (λ _. true) (λ x. record x { usage = u }) (λ x. refl)
                  b.contracts,
            ),
            refl,
            λ j. record_each_bounded c now j (i ∷ inputs) b.ledger c.usage,
          )
    ]

-- `n` is at most the limit, where there is one.
abbrev pub IsUnder : ℕ → Option ℕ → Type 0
IsUnder n none = Unit {0}
IsUnder n (some limit) = n ≤ limit

min_limit_under : (n x : ℕ) (other : Option ℕ) → IsUnder n (min_limit (some x) other) → n ≤ x
min_limit_under n x none h = h
min_limit_under n x (some y) h = omega (arith, h)

min_limit_left :
    (x : ℕ) (other : Option ℕ) → is_reached (min_limit (some x) other) 0 ≡ false → 1 ≤ x
min_limit_left x none h = ground arith
min_limit_left x (some y) h = ground arith

-- What the assertion has checked.
passed :
    (w : Settings) (b : Books) (p : Prices) (goal chars now estimated : ℕ) (bound : Option ℕ)
    (c : Contract) (mi mo : ℕ)
    → get_goal_contract b goal ≡ some c
    → entry "maxInputTokens" c.budget ≡ some mi
    → entry "maxOutputTokens" c.budget ≡ some mo
    → assert_model_call w b p goal chars now ≡ passes (estimated, bound)
    → (used "inputTokens" c.usage + estimated ≤ mi)
      × (is_reached bound 0 ≡ false)
      × (output_bound w b p c estimated now ≡ bound)
unfolding assert_model_call
passed w b p goal chars now estimated bound c mi mo e f g h =
    (ground arith, ground arith, ground arith)

-- A model call that is let through, and then uses no more tokens than estimated and allowed, keeps
-- the goal within its budget of input and of output tokens, where no other usage is recorded between.
pub model_call_bounded :
    (w : Settings) (b : Books) (p : Prices) (goal chars now later estimated input output : ℕ)
    (bound : Option ℕ) (key : String) (c : Contract) (mi mo : ℕ)
    → get_goal_contract b goal ≡ some c
    → entry "maxInputTokens" c.budget ≡ some mi
    → entry "maxOutputTokens" c.budget ≡ some mo
    → assert_model_call w b p goal chars now ≡ passes (estimated, bound)
    → input ≤ estimated
    → IsUnder output bound
    → (c' : Contract) × (get_goal_contract
          (record_model_usage b p goal key (some input) (some output) later).0
          goal
        ≡ some c')
      × (used "inputTokens" c'.usage ≤ mi)
      × (used "outputTokens" c'.usage ≤ mo)
unfolding assert_model_call record_model_usage
model_call_bounded w b p goal chars now later estimated input output bound key c mi mo e f g h i o =
    let (c', found, _, le) =
      batch_bounded b (model_record goal key "inputTokens" input)
        (model_record goal key "outputTokens" output
          ∷ model_record goal key "tokens" (input + output)
          ∷ model_record goal key "costUsd" (p.input_cost input + p.output_cost output)
          ∷ model_record goal key "modelCalls" 1
          ∷ [])
        later c e in
    let in_le = le "inputTokens" in
    let out_le = le "outputTokens" in
    let (fits_input, left, same) = passed w b p goal chars now estimated bound c mi mo e f g h in
    (c', found, ground (arith, in_le), ground (arith, out_le, same))

-- ===== src/Operation/KeyRows.antt =====
-- Transitions of the row that has a key.
use asynchronnous_agent_os.Prelude.{
  ℕ, ◌≡◌, refl, ◌⊎◌, inl, inr, Bool, true, false, String, List, [], ◌∷◌, some, arith, str_eq, ◌==◌,
  Bool-cases, ==_refl,
}
use asynchronnous_agent_os.Table.{find, update}
use asynchronnous_agent_os.Table.Laws.{find-update}
use asynchronnous_agent_os.Operation.{
  OperationState, state_eq, Operation, operation_key, Change, ok, err, moved, may_move, unexpected,
  storable, not_storable, transition_operation, find_by_key,
}
use asynchronnous_agent_os.Operation.Manager.{Setting, move}

pub state_eq_refl : (s : OperationState) → state_eq s s ≡ true
state_eq_refl s = ground arith

-- The row of the key, which its id selects too.
pub record HasRow (key : String) (ops : List Operation) (o : Operation) : Type 0 where
  pub by_key : find_by_key key ops ≡ some o
  pub by_id : find o.id ops ≡ some o

key-find_by_key :
    (key : String) (ops : List Operation) (o : Operation)
    → find_by_key key ops ≡ some o
    → str_eq o.idempotency_key key ≡ true
unfolding find_by_key
key-find_by_key key [] o e = cc
key-find_by_key key (x ∷ ops) o e = ground (arith, key-find_by_key key ops o)

head_row :
    (key : String) (x : Operation) (ops : List Operation) {o : Operation}
    → find_by_key key (x ∷ ops) ≡ some o
    → str_eq x.idempotency_key key ≡ true
    → x ≡ o
unfolding find_by_key
head_row key x ops h e = ground arith

-- The move of the row that both its key and its id select.
module _ (key : String) (o : Operation) (test : Operation → Bool) (state : OperationState)
    (change : Change) (now : ℕ) (t : test o ≡ true) where
  abbrev write : Operation → Operation
  write = moved state change now

  find_by_key-update :
      (ops : List Operation)
      → find_by_key key ops ≡ some o
      → find o.id ops ≡ some o
      → find_by_key key (update o.id test write ops) ≡ some (write o)
  unfolding find_by_key find update
  find_by_key-update [] h i = cc
  find_by_key-update (x ∷ ops) h i = elim (Bool-cases (str_eq x.idempotency_key key)) [
    | inl here ↦ let same : x ≡ o = head_row key x ops h here in ground (arith, ==_refl o.id)
    | inr there ↦ elim (Bool-cases (x.id == o.id)) [
      | inl e ↦
          let same : some x ≡ some o = rw e at i in
          absurd (cc (same, there, key-find_by_key key (x ∷ ops) o h))
      | inr e ↦ rw (e, there) (find_by_key-update ops (rw there at h) (rw e at i))
    ]
  ]

  HasRow-update :
      (ops : List Operation) → HasRow key ops o → HasRow key (update o.id test write ops) (write o)
  HasRow-update ops h = record {
    by_key = find_by_key-update ops h.by_key h.by_id;
    by_id = ground (arith, find-update o.id o.id test (moved state change now) (λ _. refl) ops);
  }

-- A transition that the table allows and whose values can be stored writes the row of the key.
module _ (w : Setting) (key : String) (ops : List Operation) (o : Operation) (h : HasRow key ops o)
    (state : OperationState) (change : Change) (allowed : may_move o.state state ≡ true)
    (expected : unexpected o.state change.expected_state ≡ false) where
  abbrev pub moved_rows : List Operation
  moved_rows = update o.id (λ r. state_eq r.state o.state) (moved state change w.now) ops

  abbrev pub Moves : Type 0
  Moves =
      (move w ops o state change ≡ ok (moved_rows, moved state change w.now o))
      × HasRow key moved_rows (moved state change w.now o)

  pub move-Moves : storable w.accepts change ≡ true → Moves
  unfolding transition_operation
  move-Moves fit =
      let row : HasRow key moved_rows (moved state change w.now o) =
        HasRow-update key o (λ r. state_eq r.state o.state) state change w.now
          (state_eq_refl o.state) ops h in
      (ground (arith, row.by_id, h.by_id), row)

  pub move-cases : Moves ⊎ (move w ops o state change ≡ err not_storable)
  unfolding transition_operation
  move-cases = elim (Bool-cases (storable w.accepts change)) [
    | inl fit ↦ inl (move-Moves fit)
    | inr big ↦ inr (ground (arith, h.by_id))
  ]

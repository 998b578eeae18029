-- ===== src/Table.antt =====
-- A table whose rows have a primary key: `SELECT ... WHERE id = ?` and `UPDATE ... WHERE id = ?
-- AND ...`, as src/infra/store.js uses them through SQLite. A key selects at most one row.
pub mod Laws
pub mod Keys
pub mod Loops
use asynchronnous_agent_os.Prelude.{
  ℕ, Bool, ◌≡◌, List, [], ◌∷◌, Option, none, some, ◌==◌, if◌then◌else◌,
}

-- The column that is a table's primary key.
pub record Keyed {ℓ} (A : Type ℓ) : Type ℓ where
  pub key : A → ℕ

module _ {ℓ} {A : Type ℓ} ⦃k : Keyed A⦄ where
  unfoldable pub find : ℕ → List A → Option A
  find i [] = none
  find i (r ∷ rows) = if k.key r == i then some r else find i rows

  -- The rows after the update.
  unfoldable pub update : ℕ → (A → Bool) → (A → A) → List A → List A
  update i test write [] = []
  update i test write (r ∷ rows) =
      if k.key r == i
      then (if test r then write r ∷ rows else r ∷ rows)
      else r ∷ update i test write rows

-- `for (const row of rows) handle(row)`, where the handler changes a state.
unfoldable pub each {ℓ κ} : {S : Type ℓ} {A : Type κ} → (S → A → S) → S → List A → S
each handle s [] = s
each handle s (r ∷ rows) = each handle (handle s r) rows

-- No two rows have one key.
abbrev pub Distinct {ℓ} : {A : Type ℓ} ⦃k : Keyed A⦄ → List A → Type ℓ
Distinct [] = Unit
Distinct ⦃k⦄ (r ∷ rows) = (find (k.key r) rows ≡ none) × Distinct rows

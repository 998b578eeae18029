-- ===== src/Table/Laws.antt =====
-- How an update changes a table: row by row, and at each key.
use asynchronnous_agent_os.Prelude.{
  ℕ, ◌≡◌, inl, inr, Bool, true, List, [], ◌∷◌, Option, none, some, arith, ◌==◌, if◌then◌else◌,
  Bool-cases, All,
}
use asynchronnous_agent_os.Table.{Keyed, find, update}

-- Two tables with the same number of rows, related row by row.
abbrev pub Rows {ℓ} : {A : Type ℓ} → (A → A → Type 0) → List A → List A → Type 0
Rows R [] [] = Unit
Rows R [] (y ∷ ys) = ⊥
Rows R (x ∷ xs) [] = ⊥
Rows R (x ∷ xs) (y ∷ ys) = R x y × Rows R xs ys

module _ {ℓ} {A : Type ℓ} (R : A → A → Type 0) where
  pub Rows-refl : ((a : A) → R a a) → (xs : List A) → Rows R xs xs
  Rows-refl r [] = tt
  Rows-refl r (x ∷ xs) = (r x, Rows-refl r xs)

  pub Rows-trans :
      ((a b c : A) → R a b → R b c → R a c)
      → (xs ys zs : List A) → Rows R xs ys
      → Rows R ys zs
      → Rows R xs zs
  Rows-trans t [] [] [] h g = tt
  Rows-trans t [] [] (z ∷ zs) h g = g
  Rows-trans t [] (y ∷ ys) zs h g = absurd h
  Rows-trans t (x ∷ xs) [] zs h g = absurd h
  Rows-trans t (x ∷ xs) (y ∷ ys) [] h g = g
  Rows-trans t (x ∷ xs) (y ∷ ys) (z ∷ zs) h g = (t x y z h.0 g.0, Rows-trans t xs ys zs h.1 g.1)

  pub Rows-All :
      (P : A → Type 0)
      → ((a b : A) → R a b → P a → P b)
      → (xs ys : List A) → Rows R xs ys
      → All P xs
      → All P ys
  Rows-All P keep [] [] h all = all
  Rows-All P keep [] (y ∷ ys) h all = absurd h
  Rows-All P keep (x ∷ xs) [] h all = absurd h
  Rows-All P keep (x ∷ xs) (y ∷ ys) h all = (keep x y h.0 all.0, Rows-All P keep xs ys h.1 all.1)

module _ {ℓ} {A : Type ℓ} ⦃k : Keyed A⦄ (R : A → A → Type 0) where
  -- An update relates the tables if it relates the row that the key selects to what is written.
  pub Rows-update :
      ((a : A) → R a a)
      → (i : ℕ) (test : A → Bool) (write : A → A) → ((a : A) → test a ≡ true → R a (write a))
      → (xs : List A) → Rows R xs (update i test write xs)
  unfolding update
  Rows-update r i test write w [] = tt
  Rows-update r i test write w (x ∷ xs) = elim (Bool-cases (k.key x == i)) [
    | inl here ↦ elim (Bool-cases (test x)) [
      | inl fits ↦ rw (here, fits) (w x fits, Rows-refl R r xs)
      | inr fails ↦ rw (here, fails) (r x, Rows-refl R r xs)
    ]
    | inr there ↦ rw there (r x, Rows-update r i test write w xs)
  ]

  -- The same where the update's test is true of every row, and the row was read before.
  pub Rows-update_found :
      ((a : A) → R a a)
      → (i : ℕ) (test : A → Bool) (write : A → A) (xs : List A)
      → ((a : A) → find i xs ≡ some a → test a ≡ true → R a (write a))
      → Rows R xs (update i test write xs)
  unfolding update find
  Rows-update_found r i test write [] w = tt
  Rows-update_found r i test write (x ∷ xs) w = elim (Bool-cases (k.key x == i)) [
    | inl here ↦ elim (Bool-cases (test x)) [
      | inl fits ↦ rw (here, fits) (w x (rw here) fits, Rows-refl R r xs)
      | inr fails ↦ rw (here, fails) (r x, Rows-refl R r xs)
    ]
    | inr there ↦ rw there (r x, Rows-update_found r i test write xs (λ a e t. w a (rw there e) t))
  ]

module _ {ℓ} {A : Type ℓ} ⦃k : Keyed A⦄ where
  abbrev apply : (A → Bool) → (A → A) → Option A → Option A
  apply test write none = none
  apply test write (some a) = if test a then some (write a) else some a

  -- What a key selects after an update that keeps the keys.
  pub find-update :
      (i j : ℕ) (test : A → Bool) (write : A → A)
      → ((a : A) → k.key (write a) ≡ k.key a)
      → (xs : List A)
      → find j (update i test write xs)
        ≡ (if i == j then apply test write (find j xs) else find j xs)
  unfolding find update
  find-update i j test write same [] = ground arith
  find-update i j test write same (x ∷ xs) =
      ground (arith, same x, find-update i j test write same xs)

  pub key-find : (i : ℕ) (xs : List A) (a : A) → find i xs ≡ some a → k.key a ≡ i
  unfolding find
  key-find i [] a e = cc
  key-find i (x ∷ xs) a e = ground (arith, key-find i xs a)

-- ===== src/Table/Keys.antt =====
-- Tables in which no two rows have one key.
use asynchronnous_agent_os.Prelude.{
  ℕ, ◌≡◌, refl, ◌≢◌, inl, inr, Bool, true, List, [], ◌∷◌, none, some, arith, ◌==◌, Bool-cases, All,
  keep,
}
use asynchronnous_agent_os.Table.{Keyed, find, Distinct}

module _ {ℓ} {A : Type ℓ} ⦃k : Keyed A⦄ where
  -- A row of the table, as `find` returns it.
  abbrev pub Stands : List A → A → Type ℓ
  Stands xs r = find (k.key r) xs ≡ some r

  pub Stands-cons :
      (x r : A) (xs : List A) → find (k.key x) xs ≡ none → Stands xs r → Stands (x ∷ xs) r
  unfolding find
  Stands-cons x r xs fresh h = elim (Bool-cases (k.key x == k.key r)) [
    | inl e ↦ absurd (ground arith)
    | inr e ↦ rw e h
  ]

  All-Stands-cons :
      (x : A) (xs rs : List A)
      → find (k.key x) xs ≡ none
      → All (Stands xs) rs
      → All (Stands (x ∷ xs)) rs
  All-Stands-cons x xs [] fresh h = tt
  All-Stands-cons x xs (r ∷ rs) fresh h =
      (Stands-cons x r xs fresh h.0, All-Stands-cons x xs rs fresh h.1)

  pub All-Stands : (xs : List A) → Distinct xs → All (Stands xs) xs
  unfolding find
  All-Stands [] d = tt
  All-Stands (x ∷ xs) d = (ground arith, All-Stands-cons x xs xs d.0 (All-Stands xs d.1))

  abbrev pub Picked : (A → Bool) → List A → A → Type ℓ
  Picked p xs r = Stands xs r × (p r ≡ true)

  pub All-Picked :
      (p : A → Bool) (xs rs : List A) → All (Stands xs) rs → All (Picked p xs) (keep p rs)
  All-Picked p xs [] h = tt
  All-Picked p xs (r ∷ rs) h = elim (Bool-cases (p r)) [
    | inl e ↦ rw e ((h.0, e), All-Picked p xs rs h.1)
    | inr e ↦ rw e (All-Picked p xs rs h.1)
  ]

  pub find-keep-none :
      (p : A → Bool) (i : ℕ) (xs : List A) → find i xs ≡ none → find i (keep p xs) ≡ none
  unfolding find
  find-keep-none p i [] h = refl
  find-keep-none p i (x ∷ xs) h = ground (arith, find-keep-none p i xs)

  pub Distinct-keep : (p : A → Bool) (xs : List A) → Distinct xs → Distinct (keep p xs)
  Distinct-keep p [] d = tt
  Distinct-keep p (x ∷ xs) d = elim (Bool-cases (p x)) [
    | inl e ↦ rw e (find-keep-none p (k.key x) xs d.0, Distinct-keep p xs d.1)
    | inr e ↦ rw e (Distinct-keep p xs d.1)
  ]

  pub ne_of_Stands :
      (x r : A) (xs : List A) → find (k.key x) xs ≡ none → Stands xs r → k.key r ≢ k.key x
  ne_of_Stands x r xs fresh h = ground arith

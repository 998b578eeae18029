-- ===== src/Table/Loops.antt =====
-- Loops that handle the selected rows of a table one after the other.
use asynchronnous_agent_os.Prelude.{
  ◌≡◌, refl, ap, ◌∙◌, ◌≢◌, inl, inr, Bool, true, List, [], ◌∷◌, none, arith, ◌==◌, if◌then◌else◌,
  Bool-cases, All, keep, map,
}
use asynchronnous_agent_os.Table.{Keyed, find, update, each, Distinct}
use asynchronnous_agent_os.Table.Laws.{Rows, Rows-refl, Rows-trans}
use asynchronnous_agent_os.Table.Keys.{Stands, Picked, All-Stands, All-Picked, Distinct-keep}

module _ {ℓ} {A : Type ℓ} ⦃k : Keyed A⦄ where
  abbrev Others : A → List A → Type 0
  Others x [] = Unit
  Others x (r ∷ rs) = (k.key r ≢ k.key x) × Others x rs

  fresh-Others : (x : A) (rs : List A) → find (k.key x) rs ≡ none → Others x rs
  unfolding find
  fresh-Others x [] h = tt
  fresh-Others x (r ∷ rs) h = (ground arith, fresh-Others x rs (ground arith))

  Others-keep : (p : A → Bool) (x : A) (rs : List A) → Others x rs → Others x (keep p rs)
  Others-keep p x [] h = tt
  Others-keep p x (r ∷ rs) h = elim (Bool-cases (p r)) [
    | inl e ↦ rw e (h.0, Others-keep p x rs h.1)
    | inr e ↦ rw e (Others-keep p x rs h.1)
  ]

-- A loop whose handler writes only the row that it was given.
module _ {ℓ κ} {A : Type ℓ} ⦃k : Keyed A⦄ {S : Type κ} (table : S → List A) (handle : S → A → S)
    (test : A → A → Bool) (write : A → A)
    (writes : (s : S) (t : A) → table (handle s t) ≡ update (k.key t) (test t) write (table s))
    (keeps : (t : A) → k.key (write t) ≡ k.key t) where
  abbrev updates : List A → List A → List A
  updates [] xs = xs
  updates (t ∷ rs) xs = updates rs (update (k.key t) (test t) write xs)

  each-updates : (rs : List A) (s : S) → table (each handle s rs) ≡ updates rs (table s)
  unfolding each
  each-updates [] s = refl
  each-updates (t ∷ rs) s = each-updates rs (handle s t) ∙ ap (updates rs) (writes s t)

  updates-Others :
      (rs : List A) (y : A) (ys : List A) → Others y rs → updates rs (y ∷ ys) ≡ y ∷ updates rs ys
  unfolding update
  updates-Others [] y ys h = refl
  updates-Others (t ∷ rs) y ys h = elim (Bool-cases (k.key y == k.key t)) [
    | inl e ↦ absurd (ground (arith, h.0))
    | inr e ↦ rw e (updates-Others rs y (update (k.key t) (test t) write ys) h.1)
  ]

  updates_head :
      (x : A) (rs xs : List A)
      → test x x ≡ true
      → updates (x ∷ rs) (x ∷ xs) ≡ updates rs (write x ∷ xs)
  unfolding update
  updates_head x rs xs e = let same : (k.key x == k.key x) ≡ true = ground arith in rw (same, e)

  Others-write : (y : A) (rs : List A) → Others y rs → Others (write y) rs
  Others-write y [] h = tt
  Others-write y (r ∷ rs) h = (rw (keeps y) h.0, Others-write y rs h.1)

  module _ (p : A → Bool) where
    abbrev pub written : A → A
    written t = if p t then write t else t

    -- The statement selects the row that it was built from.
    abbrev pub Selects : A → Type 0
    Selects t = p t ≡ true → test t t ≡ true

    updates-keep :
        (xs : List A) → Distinct xs → All Selects xs → updates (keep p xs) xs ≡ map written xs
    updates-keep [] d picks = refl
    updates-keep (x ∷ xs) d picks =
        let others : Others x (keep p xs) = Others-keep p x xs (fresh-Others x xs d.0) in
        elim (Bool-cases (p x)) [
          | inl e ↦ rw e (
              updates_head x (keep p xs) xs (picks.0 e)
              ∙ updates-Others (keep p xs) (write x) xs (Others-write x (keep p xs) others)
              ∙ ap (◌∷◌ (write x)) (updates-keep xs d.1 picks.1))
          | inr e ↦
              rw e
                (updates-Others (keep p xs) x xs others ∙ ap (◌∷◌ x) (updates-keep xs d.1 picks.1))
        ]

    -- Such a loop over the selected rows writes each of them once, and no other.
    pub each-keep :
        (s : S)
        → Distinct (table s)
        → All Selects (table s)
        → table (each handle s (keep p (table s))) ≡ map written (table s)
    each-keep s d picks = each-updates (keep p (table s)) s ∙ updates-keep (table s) d picks

-- A loop whose handler keeps an invariant, relates the tables, and leaves the rows that are still to
-- be handled.
module _ {ℓ κ} {A : Type ℓ} ⦃k : Keyed A⦄ {S : Type κ} (table : S → List A) (handle : S → A → S)
    (R : A → A → Type 0) (R_refl : (a : A) → R a a) (R_trans : (a b c : A) → R a b → R b c → R a c)
    (p : A → Bool) (I : S → Type 0)
    (keeps : (s : S) (t : A) → I s → Stands (table s) t → p t ≡ true → I (handle s t))
    (step : (s : S) (t : A)
      → I s
      → Stands (table s) t
      → p t ≡ true
      → Rows R (table s) (table (handle s t)))
    (frame : (s : S) (t r : A)
      → I s
      → Stands (table s) t
      → p t ≡ true
      → k.key r ≢ k.key t
      → Stands (table s) r
      → p r ≡ true
      → Stands (table (handle s t)) r) where
  All-frame :
      (s : S) (t : A) (rs : List A)
      → I s
      → Stands (table s) t
      → p t ≡ true
      → Others t rs
      → All (Picked p (table s)) rs
      → All (Picked p (table (handle s t))) rs
  All-frame s t [] v h e o all = tt
  All-frame s t (r ∷ rs) v h e o all =
      ((frame s t r v h e o.0 all.0.0 all.0.1, all.0.1), All-frame s t rs v h e o.1 all.1)

  each-Picked :
      (rs : List A) (s : S)
      → I s
      → All (Picked p (table s)) rs
      → Distinct rs
      → I (each handle s rs) × Rows R (table s) (table (each handle s rs))
  unfolding each
  each-Picked [] s v all d = (v, Rows-refl R R_refl (table s))
  each-Picked (t ∷ rs) s v all d =
      let rest =
        each-Picked rs (handle s t) (keeps s t v all.0.0 all.0.1)
          (All-frame s t rs v all.0.0 all.0.1 (fresh-Others t rs d.0) all.1) d.1 in
      (
        rest.0,
        Rows-trans R R_trans (table s) (table (handle s t)) (table (each handle (handle s t) rs))
            (step s t v all.0.0 all.0.1) rest.1,
      )

  pub each-Rows :
      (s : S)
      → I s
      → Distinct (table s)
      → I (each handle s (keep p (table s)))
        × Rows R (table s) (table (each handle s (keep p (table s))))
  each-Rows s v d =
      each-Picked (keep p (table s)) s v (All-Picked p (table s) (table s) (All-Stands (table s) d))
        (Distinct-keep p (table s) d)

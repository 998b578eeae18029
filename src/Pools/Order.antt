-- ===== src/Pools/Order.antt =====
-- Lists of calls: one that leaves out entries of another, and the removal of one entry.
use asynchronnous_agent_os.Prelude.{
  ℕ, suc, ◌≡◌, refl, ap, inl, inr, Bool, true, List, [], ◌∷◌, ◌++◌, arith, if◌then◌else◌, ◌==◌,
  keep, length, contains, Bool-cases,
}

abbrev pub take_out : ℕ → List ℕ → List ℕ
take_out c [] = []
take_out c (x ∷ xs) = let rest = take_out c xs in if x == c then xs else x ∷ rest

-- `Within xs ys`: `xs` is `ys` with some entries left out.
pub data Within : List ℕ → List ℕ → Type 0 where
  empty : Within [] []
  skip : {xs ys : List ℕ} (y : ℕ) → Within xs ys → Within xs (y ∷ ys)
  same : {xs ys : List ℕ} (x : ℕ) → Within xs ys → Within (x ∷ xs) (x ∷ ys)

pub Within_refl : (xs : List ℕ) → Within xs xs
Within_refl [] = empty
Within_refl (x ∷ xs) = same x (Within_refl xs)

pub Within-append :
    {xs ys zs ws : List ℕ} → Within xs ys → Within zs ws → Within (xs ++ zs) (ys ++ ws)
Within-append empty w = w
Within-append (skip y v) w = skip y (Within-append v w)
Within-append (same x v) w = same x (Within-append v w)

pub Within_trans : {xs ys zs : List ℕ} → Within xs ys → Within ys zs → Within xs zs
Within_trans v empty = v
Within_trans v (skip z w) = skip z (Within_trans v w)
Within_trans (skip _ v) (same y w) = skip y (Within_trans v w)
Within_trans (same _ v) (same x w) = same x (Within_trans v w)

pub keep-Within : (p : ℕ → Bool) (xs : List ℕ) → Within (keep p xs) xs
keep-Within p [] = empty
keep-Within p (x ∷ xs) = elim (Bool-cases (p x)) [
  | inl h ↦ rw h (same x (keep-Within p xs))
  | inr h ↦ rw h (skip x (keep-Within p xs))
]

pub length-take_out :
    (c : ℕ) (xs : List ℕ) → contains c xs ≡ true → suc (length (take_out c xs)) ≡ length xs
length-take_out c [] h = ground arith
length-take_out c (x ∷ xs) h = ground (arith, length-take_out c xs)

pub append_assoc : (xs ys zs : List ℕ) → (xs ++ ys) ++ zs ≡ xs ++ (ys ++ zs)
append_assoc [] ys zs = refl
append_assoc (x ∷ xs) ys zs = ap (λ l. x ∷ l) (append_assoc xs ys zs)

pub append_nil : (xs : List ℕ) → xs ++ [] ≡ xs
append_nil [] = refl
append_nil (x ∷ xs) = ap (λ l. x ∷ l) (append_nil xs)

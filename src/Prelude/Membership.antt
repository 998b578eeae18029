-- ===== src/Prelude/Membership.antt =====
-- The entries of a list, of an appended one and of a mapped one.
use mathlib.Core.Path.{◌≡◌, refl}
use mathlib.Core.Logic.{◌⊎◌, inl, inr}
use mathlib.Core.Bool.{Bool, false}
use mathlib.Core.List.{List, [], ◌∷◌, ◌++◌, map}
use native.Mathlib.Omega.{arith}
use asynchronnous_agent_os.Prelude.Lists.{any}

pub data In {ℓ} {A : Type ℓ} (a : A) : List A → Type ℓ where
  first : {xs : List A} → In a (a ∷ xs)
  later : {x : A} {xs : List A} → In a xs → In a (x ∷ xs)

module _ {ℓ} {A : Type ℓ} where
  pub In-append : (xs ys : List A) {a : A} → In a (xs ++ ys) → In a xs ⊎ In a ys
  In-append [] ys m = inr m
  In-append (x ∷ xs) ys first = inl first
  In-append (x ∷ xs) ys (later m) = elim (In-append xs ys m) [
    | inl l ↦ inl (later l)
    | inr r ↦ inr r
  ]

  pub In-map {κ} :
      {B : Type κ} (f : A → B) (xs : List A) {b : B}
      → In b (map f xs)
      → (a : A) × In a xs × (b ≡ f a)
  In-map f [] m = elim m [ ]
  In-map f (x ∷ xs) first = (x, first, refl)
  In-map f (x ∷ xs) (later m) = let (a, n, e) = In-map f xs m in (a, later n, e)

  pub In-any : (p : A → Bool) (xs : List A) {a : A} → any p xs ≡ false → In a xs → p a ≡ false
  In-any p [] h m = elim m [ ]
  In-any p (x ∷ xs) h first = ground arith
  In-any p (x ∷ xs) h (later m) = In-any p xs (ground arith) m

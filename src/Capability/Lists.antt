-- ===== src/Capability/Lists.antt =====
-- What the lists of a frozen capability set let through.
use asynchronnous_agent_os.Prelude.{
  ◌≡◌, refl, Bool, true, ◌||◌, String, List, [], ◌∷◌, Option, none, some, str_eq, eq_iff, any, all,
  arith, Bool-cases, inl, inr,
}
use asynchronnous_agent_os.Capability.Rules.{includes, unique, list, allows}
use asynchronnous_agent_os.Capability.Freeze.{narrow_list}

includes_same :
    (v x : String) (xs : List String) → str_eq x v ≡ true → includes v xs ≡ includes x xs
includes_same v x xs e = let same : x ≡ v = (eq_iff x v).0 e in rw same refl

unique_seen :
    (v : String) (seen xs : List String)
    → (includes v (unique seen xs) || includes v seen) ≡ (includes v xs || includes v seen)
unfolding unique
unique_seen v seen [] = refl
unique_seen v seen (x ∷ xs) = elim (Bool-cases (str_eq x v)) [
  | inl e ↦ ground (arith, includes_same v x seen e, unique_seen v seen xs)
  | inr e ↦ ground (arith, unique_seen v seen xs, unique_seen v (x ∷ seen) xs)
]

pub includes-list : (v : String) (xs : List String) → includes v (list (some xs)) ≡ includes v xs
includes-list v xs = ground (arith, unique_seen v [] xs)

pub allows-list : (xs : List String) (v : String) → allows (list (some xs)) v ≡ allows xs v
allows-list xs v = rw (includes-list "*" xs, includes-list v xs) refl

pub all-includes :
    (p : String → Bool) (v : String) (xs : List String)
    → all p xs ≡ true
    → includes v xs ≡ true
    → p v ≡ true
all-includes p v [] h i = ground arith
all-includes p v (x ∷ xs) h i = elim (Bool-cases (str_eq x v)) [
  | inl e ↦ let same : x ≡ v = (eq_iff x v).0 e in rw (← same) (ground arith)
  | inr e ↦ all-includes p v xs (ground arith) (ground arith)
]

pub any-includes :
    (p : String → Bool) (xs : List String)
    → any p xs ≡ true
    → (x : String) × (includes x xs ≡ true) × (p x ≡ true)
any-includes p [] h = ground arith
any-includes p (x ∷ xs) h = elim (Bool-cases (p x)) [
  | inl e ↦ (x, ground (arith, (eq_iff x x).1 refl), e)
  | inr e ↦ let (y, i, f) = any-includes p xs (ground arith) in (y, ground arith, f)
]

pub includes-any :
    (p : String → Bool) (v : String) (xs : List String)
    → includes v xs ≡ true
    → p v ≡ true
    → any p xs ≡ true
includes-any p v [] i e = ground arith
includes-any p v (x ∷ xs) i e = elim (Bool-cases (str_eq x v)) [
  | inl f ↦ let same : x ≡ v = (eq_iff x v).0 f in rw same (ground arith)
  | inr f ↦ ground (arith, includes-any p v xs)
]

pub narrow_list-allows :
    (parent : List String) (requested : Option (List String)) (child : List String) (v : String)
    → narrow_list parent requested ≡ some child
    → allows (list (some child)) v ≡ true
    → allows (list (some parent)) v ≡ true
unfolding narrow_list
narrow_list-allows parent none child v e h =
    let same : list (some parent) ≡ child = ground arith in
    rw (allows-list (list (some parent)) v) at (rw (← same) at h)
narrow_list-allows parent (some r) child v e h =
    let base = list (some parent) in
    let same : list (some r) ≡ child = ground arith in
    let passed : all (allows base) (list (some r)) ≡ true = ground arith in
    let h' : allows (list (some r)) v ≡ true =
      rw (allows-list (list (some r)) v) at (rw (← same) at h) in
    elim (Bool-cases (includes v (list (some r)))) [
      | inl i ↦ all-includes (allows base) v (list (some r)) passed i
      | inr i ↦
          let star = all-includes (allows base) "*" (list (some r)) passed (ground arith) in
          ground arith
    ]

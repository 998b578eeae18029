-- ===== src/Capability/Narrowing.antt =====
-- Whatever a frozen capability set lets through, the parent's lets through.
use asynchronnous_agent_os.Prelude.{
  ◌≡◌, refl, Bool, true, String, List, [], ◌∷◌, Option, none, some, str_eq, eq_iff, any, all, arith,
  Bool-cases, inl, inr, >>=_some,
}
use asynchronnous_agent_os.Capability.Rules.{Platform, includes, unique, list, allows, path_within}
use asynchronnous_agent_os.Capability.Freeze.{
  Accounts, narrow_list, freeze_roots, freeze_domains, scopes_of, freeze_each, freeze_accounts,
}
use asynchronnous_agent_os.Capability.Paths.{path_within_trans}
use asynchronnous_agent_os.Capability.Lists.{
  includes-list, all-includes, any-includes, includes-any, narrow_list-allows,
}

any-list :
    (p : String → Bool) (xs : List String)
    → any p (list (some (list (some xs)))) ≡ true
    → any p (list (some xs)) ≡ true
any-list p xs h =
    let (x, i, e) = any-includes p (list (some (list (some xs)))) h in
    includes-any p x (list (some xs)) (rw includes-list at i) e

-- A child whose roots are inherited or frozen reaches what its parent reaches.
pub reach_narrows :
    (w : Platform) (parent : List String) (requested : Option (List String)) (child : List String)
    (path : String)
    → freeze_roots w parent requested ≡ some child
    → any (λ root. path_within w root path) (list (some child)) ≡ true
    → any (λ root. path_within w root path) (list (some parent)) ≡ true
unfolding freeze_roots
reach_narrows w parent requested child path e h =
    let (r, i, f) = any-includes (λ root. path_within w root path) (list (some child)) h in
    let passed : all (λ root. any (λ allowed. path_within w allowed root) (list (some parent)))
          child
        ≡ true =
      ground arith in
    let i' : includes r child ≡ true = rw includes-list at i in
    let (a, k, g) =
      any-includes (λ allowed. path_within w allowed r) (list (some parent))
        (all-includes (λ root. any (λ allowed. path_within w allowed root) (list (some parent))) r
          child passed i') in
    includes-any (λ root. path_within w root path) a (list (some parent)) k
      (path_within_trans w a r path g f)

pub contact_narrows :
    (w : Platform) (parent child : List String) (p : String → Bool)
    → freeze_domains w parent none ≡ some child
    → any p (list (some child)) ≡ true
    → any p (list (some parent)) ≡ true
unfolding freeze_domains
contact_narrows w parent child p e h =
    let same : list (some parent) ≡ child = ground arith in any-list p parent (rw (← same) at h)

each_account :
    (parent desired child : Accounts) (type account : String)
    → freeze_each parent desired ≡ some child
    → allows (list (scopes_of type child)) account ≡ true
    → allows (list (scopes_of type parent)) account ≡ true
unfolding freeze_each scopes_of unique
each_account parent [] child type account e h =
    let same : [] ≡ child = ground arith in
    let h' : allows (list (scopes_of type [])) account ≡ true = rw (← same) at h in
    absurd (ground arith)
each_account parent ((t, requested) ∷ rest) child type account e h =
    let (s, e1, r1) = >>=_some (scopes_of t parent) _ child e in
    let (nw, e2, r2) = >>=_some (narrow_list s (some requested)) _ child r1 in
    let (later, e3, r3) = >>=_some (freeze_each parent rest) _ child r2 in
    let same : (t, nw) ∷ later ≡ child = ground arith in
    let h' : allows (list (scopes_of type ((t, nw) ∷ later))) account ≡ true = rw (← same) at h in
    elim (Bool-cases (str_eq t type)) [
      | inl i ↦
          let is : t ≡ type = (eq_iff t type).0 i in
          let found : scopes_of type parent ≡ some s = rw (← is) e1 in
          rw found (narrow_list-allows s (some requested) nw account e2 (rw i at h'))
      | inr i ↦ each_account parent rest later type account e3 (rw i at h')
    ]

pub account_narrows :
    (parent : Accounts) (desired : Option Accounts) (child : Accounts) (type account : String)
    → freeze_accounts parent desired ≡ some child
    → allows (list (scopes_of type child)) account ≡ true
    → allows (list (scopes_of type parent)) account ≡ true
account_narrows parent none child type account e h =
    let same : parent ≡ child = ground arith in rw same h
account_narrows parent (some desired) child type account e h =
    each_account parent desired child type account e h

pub all_narrows :
    (p q : String → Bool) (xs : List String)
    → ((x : String) → p x ≡ true → q x ≡ true)
    → all p xs ≡ true
    → all q xs ≡ true
all_narrows p q [] h a = refl
all_narrows p q (x ∷ xs) h a =
    let first = h x (ground arith) in let rest = all_narrows p q xs h (ground arith) in ground arith

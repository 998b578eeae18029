-- ===== src/Claims/Exclusion.antt =====
-- Mutual exclusion by claims.
use asynchronnous_agent_os.Prelude.{
  ℕ, ◌≡◌, ◌≢◌, refl, inl, inr, Bool, true, false, ◌&&◌, ◌||◌, not, String, List, [], ◌∷◌, ◌++◌,
  Option, none, some, arith, str_eq, eq_iff, any, map, ◌==◌, Bool-cases, Option-cases, In,
  In-append, In-map, In-any,
}
use asynchronnous_agent_os.Json.{Json}
use asynchronnous_agent_os.Table.{each}
use asynchronnous_agent_os.Store.{Store, Task, get_task}
use asynchronnous_agent_os.Claims.{
  shared, is_exclusive, Claim, Declared, Request, requests, tenant_of, same_tenant, conflicts_with,
  claim_of, acquire_resource_claims, release_if, holds, release_resource_claims,
  release_stale_resource_claims,
}

-- Two held claims of one scope by two tasks of one tenant, not both shared.
abbrev pub clash : Store → Claim → Claim → Bool
clash s c d =
    (c.held && d.held)
    && (not (c.task_id == d.task_id)
        && (str_eq c.scope d.scope
            && (same_tenant (tenant_of s c.goal_id) (tenant_of s d.goal_id)
                && (is_exclusive c.mode || is_exclusive d.mode))))

abbrev pub IsExclusive : Store → List Claim → Type 0
IsExclusive s claims = (c d : Claim) → In c claims → In d claims → clash s c d ≡ false

str_eq_sym : (a b : String) → str_eq a b ≡ str_eq b a
str_eq_sym a b = elim (Bool-cases (str_eq a b)) [
  | inl h ↦ let e : a ≡ b = (eq_iff a b).0 h in rw e refl
  | inr h ↦ elim (Bool-cases (str_eq b a)) [
    | inl g ↦ let e : b ≡ a = (eq_iff b a).0 g in rw e refl
    | inr g ↦ rw (h, g) refl
  ]
]

same_tenant_sym : (a b : Option String) → same_tenant a b ≡ same_tenant b a
same_tenant_sym none none = refl
same_tenant_sym none (some b) = refl
same_tenant_sym (some a) none = refl
same_tenant_sym (some a) (some b) = str_eq_sym a b

clash_sym : (s : Store) (c d : Claim) → clash s c d ≡ false → clash s d c ≡ false
clash_sym s c d h = ground (
  arith,
  str_eq_sym c.scope d.scope,
  same_tenant_sym (tenant_of s c.goal_id) (tenant_of s d.goal_id),
)

module _ (s : Store) where
  -- The new rows of a task against the old ones, and among themselves.
  new_old :
      (t : Task) (owner now : ℕ) (r : Request) (c : Claim)
      → conflicts_with s t r c ≡ false
      → clash s c (claim_of t owner now r) ≡ false
  new_old t owner now r c h = ground arith

  new_new :
      (t : Task) (owner now : ℕ) (r q : Request)
      → clash s (claim_of t owner now r) (claim_of t owner now q) ≡ false
  new_new t owner now r q = ground arith

  append-IsExclusive :
      (claims : List Claim) (t : Task) (owner now : ℕ) (requested : List Request)
      → IsExclusive s claims
      → any (λ r. any (conflicts_with s t r) claims) requested ≡ false
      → IsExclusive s (claims ++ map (claim_of t owner now) requested)
  append-IsExclusive claims t owner now requested h free c d m n =
      let admitted : (r : Request) (x : Claim)
          → In r requested
          → In x claims
          → conflicts_with s t r x ≡ false =
        λ r x p q.
          In-any (conflicts_with s t r) claims
            (In-any (λ r. any (conflicts_with s t r) claims) requested free p) q in
      elim (In-append claims (map (claim_of t owner now) requested) m) [
        | inl old ↦ elim (In-append claims (map (claim_of t owner now) requested) n) [
          | inl old' ↦ h c d old old'
          | inr new ↦
              let (r, p, e) = In-map (claim_of t owner now) requested new in
              rw e (new_old t owner now r c (admitted r c p old))
        ]
        | inr new ↦
            let (r, p, e) = In-map (claim_of t owner now) requested new in
            elim (In-append claims (map (claim_of t owner now) requested) n) [
              | inl old ↦ rw e (
                  clash_sym s d (claim_of t owner now r)
                    (new_old t owner now r d (admitted r d p old)))
              | inr new' ↦
                  let (q, p', e') = In-map (claim_of t owner now) requested new' in
                  rw (e, e') (new_new t owner now r q)
            ]
      ]

  acquire-IsExclusive :
      (no_detail : Json) (declared : List Declared) (claims : List Claim) (id owner now : ℕ)
      → IsExclusive s claims
      → IsExclusive s (acquire_resource_claims s no_detail declared claims id owner now).0
  unfolding acquire_resource_claims
  acquire-IsExclusive no_detail declared claims id owner now h =
      elim (Option-cases (get_task s id)) [
        | inl missing ↦ let p : rows ≡ claims = ground arith in rw p h
        | inr (t, found) ↦
            let requested : List Request = requests no_detail [] declared in
            elim (Bool-cases (any (λ r. any (conflicts_with s t r) claims) requested)) [
              | inl taken ↦ let p : rows ≡ claims = ground arith in rw p h
              | inr free ↦
                  let p : rows ≡ claims ++ map (claim_of t owner now) requested = ground arith in
                  rw p (append-IsExclusive claims t owner now requested h free)
            ]
      ]
    where
      rows : List Claim
      rows = (acquire_resource_claims s no_detail declared claims id owner now).0

  release_if-held :
      (test : Claim → Bool) (now : ℕ) (c d : Claim)
      → clash s c d ≡ false
      → clash s (release_if test now c) (release_if test now d) ≡ false
  release_if-held test now c d h = ground arith

  map-IsExclusive :
      (test : Claim → Bool) (now : ℕ) (claims : List Claim)
      → IsExclusive s claims
      → IsExclusive s (map (release_if test now) claims)
  map-IsExclusive test now claims h c d m n =
      let (c', p, e) = In-map (release_if test now) claims m in
      let (d', q, f) = In-map (release_if test now) claims n in
      rw (e, f) (release_if-held test now c' d' (h c' d' p q))

-- The table and the store beside it. Other calls change the store; the goal of a claim keeps its
-- tenant, since no statement writes that column.
pub record State : Type 0 where
  pub store : Store
  pub claims : List Claim

pub data Step : State → State → Type 0 where
  acquires :
      {x : State} (no_detail : Json) (declared : List Declared) (task owner now : ℕ)
      → Step x (record x {
        claims = (acquire_resource_claims x.store no_detail declared x.claims task owner now).0;
      })
  releases :
      {x : State} (task now : ℕ)
      → Step x (record x { claims = (release_resource_claims x.claims task now).0 })
  sweeps :
      {x : State} (now : ℕ)
      → Step x (record x { claims = release_stale_resource_claims x.store x.claims now })
  other :
      {x : State} (s : Store)
      → ((c : Claim) → In c x.claims → tenant_of s c.goal_id ≡ tenant_of x.store c.goal_id)
      → Step x (record x { store = s })

pub data Reach : State → State → Type 0 where
  here : {x : State} → Reach x x
  next : {x y z : State} → Reach x y → Step y z → Reach x z

each-IsExclusive :
    (s : Store) (now : ℕ) (claims rows : List Claim)
    → IsExclusive s claims
    → IsExclusive s (each (λ cs c. (release_resource_claims cs c.task_id now).0) claims rows)
unfolding each release_resource_claims
each-IsExclusive s now claims [] h = h
each-IsExclusive s now claims (c ∷ rows) h =
    each-IsExclusive s now (map (release_if (holds c.task_id) now) claims) rows
      (map-IsExclusive s (holds c.task_id) now claims h)

Step-IsExclusive :
    {x y : State} → Step x y → IsExclusive x.store x.claims → IsExclusive y.store y.claims
unfolding release_resource_claims release_stale_resource_claims
Step-IsExclusive (acquires {x} no_detail declared task owner now) h =
    acquire-IsExclusive x.store no_detail declared x.claims task owner now h
Step-IsExclusive (releases {x} task now) h = map-IsExclusive x.store (holds task) now x.claims h
Step-IsExclusive (sweeps {x} now) h = each-IsExclusive x.store now x.claims _ h
Step-IsExclusive (other {x} s same) h = λ c d m n.
    let p : tenant_of s c.goal_id ≡ tenant_of x.store c.goal_id = same c m in
    let q : tenant_of s d.goal_id ≡ tenant_of x.store d.goal_id = same d n in rw (p, q) (h c d m n)

Reach-IsExclusive :
    {x y : State} → Reach x y → IsExclusive x.store x.claims → IsExclusive y.store y.claims
Reach-IsExclusive here h = h
Reach-IsExclusive (next path e) h = Step-IsExclusive e (Reach-IsExclusive path h)

-- Whatever calls are made in whatever order from a table without rows: two held claims of one scope
-- that belong to different tasks of one tenant are both shared.
pub held_claims_share :
    (s : Store) (y : State)
    → Reach (record { store = s; claims = [] }) y
    → (c d : Claim) → In c y.claims
    → In d y.claims
    → c.held ≡ true
    → d.held ≡ true
    → c.task_id ≢ d.task_id
    → c.scope ≡ d.scope
    → same_tenant (tenant_of y.store c.goal_id) (tenant_of y.store d.goal_id) ≡ true
    → (c.mode ≡ shared) × (d.mode ≡ shared)
held_claims_share s y path c d m n a b t e u =
    let free : clash y.store c d ≡ false = Reach-IsExclusive path (λ c d m n. elim m [ ]) c d m n in
    let scopes : str_eq c.scope d.scope ≡ true = (eq_iff c.scope d.scope).1 e in
    ground (arith, scopes)

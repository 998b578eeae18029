-- ===== src/Claims/Stale.antt =====
-- The sweep of the stale claims.
use asynchronnous_agent_os.Prelude.{
  ℕ, ◌≡◌, refl, ap, inl, inr, Bool, true, ◌&&◌, List, [], ◌∷◌, arith, any, map, keep, ◌==◌, ==_iff,
  ==_refl, Bool-cases, Option-cases, In, first, later, ◌∙◌, sym, ◌⊎◌, ◌≢◌, false, none, some,
}
use asynchronnous_agent_os.Domain.{running}
use asynchronnous_agent_os.Table.{each}
use asynchronnous_agent_os.Table.Laws.{Rows}
use asynchronnous_agent_os.Store.{Store, Task, get_task, task_key}
use asynchronnous_agent_os.Claims.{
  Claim, not_running, release_if, holds, release_resource_claims, is_stale,
  release_stale_resource_claims,
}

-- A held claim of a task that some row of the list belongs to.
abbrev held_by_any : List Claim → Claim → Bool
held_by_any rows c = c.held && any (λ r. r.task_id == c.task_id) rows

release_if_twice :
    (now : ℕ) (r : Claim) (rows : List Claim) (c : Claim)
    → release_if (held_by_any rows) now (release_if (holds r.task_id) now c)
      ≡ release_if (held_by_any (r ∷ rows)) now c
release_if_twice now r rows c = ground arith

map_twice :
    (now : ℕ) (r : Claim) (rows claims : List Claim)
    → map (release_if (held_by_any rows) now) (map (release_if (holds r.task_id) now) claims)
      ≡ map (release_if (held_by_any (r ∷ rows)) now) claims
map_twice now r rows [] = refl
map_twice now r rows (c ∷ claims) =
    rw (release_if_twice now r rows c, map_twice now r rows claims) refl

map_none : (now : ℕ) (claims : List Claim) → map (release_if (held_by_any []) now) claims ≡ claims
map_none now [] = refl
map_none now (c ∷ claims) =
    let e : release_if (held_by_any []) now c ≡ c = ground arith in rw (e, map_none now claims) refl

each-map :
    (now : ℕ) (claims rows : List Claim)
    → each (λ cs c. (release_resource_claims cs c.task_id now).0) claims rows
      ≡ map (release_if (held_by_any rows) now) claims
unfolding each release_resource_claims
each-map now claims [] = sym (map_none now claims)
each-map now claims (r ∷ rows) =
    each-map now (map (release_if (holds r.task_id) now) claims) rows ∙ map_twice now r rows claims

module _ (s : Store) where
  -- A stale row of the task stands in the list, or none does.
  stale_task :
      (rows : List Claim) (c : Claim)
      → any (λ r. r.task_id == c.task_id) (keep (is_stale s) rows) ≡ true
      → c.held ≡ true
      → is_stale s c ≡ true
  stale_task [] c a h = cc
  stale_task (r ∷ rows) c a h = elim (Bool-cases (is_stale s r)) [
    | inl stale ↦ elim (Bool-cases (r.task_id == c.task_id)) [
      | inl e ↦
          let same : not_running s r.task_id ≡ not_running s c.task_id =
            ap (not_running s) ((==_iff r.task_id c.task_id).0 e) in
          ground (arith, same, stale)
      | inr e ↦ stale_task rows c (ground (arith, stale, e)) h
    ]
    | inr fine ↦ stale_task rows c (rw fine at a) h
  ]

  stale_found :
      (rows : List Claim) (c : Claim)
      → In c rows
      → is_stale s c ≡ true
      → any (λ r. r.task_id == c.task_id) (keep (is_stale s) rows) ≡ true
  stale_found [] c m e = elim m [ ]
  stale_found (r ∷ rows) _ first e = rw e (ground (arith, ==_refl r.task_id))
  stale_found (r ∷ rows) c (later m) e = ground (arith, stale_found rows c m e)

  release_alike :
      (now : ℕ) (claims rows : List Claim)
      → ((c : Claim) → In c rows → In c claims)
      → map (release_if (held_by_any (keep (is_stale s) claims)) now) rows
        ≡ map (release_if (is_stale s) now) rows
  release_alike now claims [] sub = refl
  release_alike now claims (c ∷ rows) sub =
      let e : release_if (held_by_any (keep (is_stale s) claims)) now c
          ≡ release_if (is_stale s) now c =
        ground (arith, stale_task claims c, stale_found claims c (sub c first)) in
      rw (e, release_alike now claims rows (λ d m. sub d (later m))) refl

  -- The sweep is one pass over the table.
  release_stale_resource_claims-map :
      (claims : List Claim) (now : ℕ)
      → release_stale_resource_claims s claims now ≡ map (release_if (is_stale s) now) claims
  unfolding release_stale_resource_claims
  release_stale_resource_claims-map claims now =
      each-map now claims (keep (is_stale s) claims) ∙ release_alike now claims claims (λ c m. m)

  -- A claim that was held for a task that is missing or does not run, and is released; or another,
  -- and the row is as it was.
  abbrev pub ClaimSwept : ℕ → Claim → Claim → Type 0
  ClaimSwept now c d =
      ((c.held ≡ true)
        × ((get_task s c.task_id ≡ none)
            ⊎ ((t : Task) × (get_task s c.task_id ≡ some t) × (t.status ≢ running)))
        × (d.held ≡ false)
        × (d.released_at ≡ some now)
        × (d.task_id ≡ c.task_id)
        × (d.scope ≡ c.scope)
        × (d.mode ≡ c.mode)
        × (d.owner ≡ c.owner))
      ⊎ (((c.held ≡ false) ⊎ ((t : Task) × (get_task s c.task_id ≡ some t) × (t.status ≡ running)))
          × (d ≡ c))

  claim_swept : (now : ℕ) (c : Claim) → ClaimSwept now c (release_if (is_stale s) now c)
  claim_swept now c = elim (Option-cases (get_task s c.task_id)) [
    | inl a ↦ ground arith
    | inr (t, a) ↦ ground arith
  ]

  claims_swept :
      (now : ℕ) (claims : List Claim)
      → Rows (ClaimSwept now) claims (map (release_if (is_stale s) now) claims)
  claims_swept now [] = tt
  claims_swept now (c ∷ claims) = (claim_swept now c, claims_swept now claims)

  -- The sweep ends, at its time, each held claim whose task is missing or does not run: the claim is
  -- no longer held, and keeps its task, scope, mode and owner. It changes no other row, and adds and
  -- removes none.
  pub release_stale_resource_claims_lem :
      (claims : List Claim) (now : ℕ)
      → Rows (ClaimSwept now) claims (release_stale_resource_claims s claims now)
  release_stale_resource_claims_lem claims now =
      rw (release_stale_resource_claims-map claims now) (claims_swept now claims)

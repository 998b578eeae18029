-- ===== src/Pools.antt =====
-- src/kernel/resource-pools.js: a pool of permits with a queue of waiting calls. A call is a number,
-- drawn when it asks; that its signal is aborted is a Boolean. The promise of a call that waits is
-- settled by what another call does, so each operation returns the promises that it settles.
pub mod Order
pub mod Machine
mod Samples
use asynchronnous_agent_os.Prelude.{
  ℕ, suc, ◌-◌, max, Bool, true, false, List, [], ◌∷◌, ◌++◌, Option, none, some, ltb, if◌then◌else◌,
  ◌==◌, not, keep, String, str_eq, length,
}

pub record Pool : Type 0 where
  pub name : String
  pub capacity : ℕ
  pub active : ℕ
  pub queue : List ℕ

-- A settled promise of `acquire`.
pub data Settled : Type 0 where
  resolved : ℕ → Settled
  rejected : ℕ → Settled

-- The constructor, for one entry of the capacities.
abbrev pub new_pool : String → ℕ → Pool
new_pool name capacity = record { name = name; capacity = max 1 capacity; active = 0; queue = [] }

unfoldable pub get_pool : String → List Pool → Option Pool
get_pool name [] = none
get_pool name (p ∷ pools) = if str_eq p.name name then some p else get_pool name pools

-- The pool of the name, and the pools with it.
unfoldable pub ensure : String → List Pool → Pool × List Pool
ensure name pools = elim (get_pool name pools) [
  | some p ↦ (p, pools)
  | none ↦ let p = new_pool name 1 in (p, pools ++ (p ∷ []))
]

unfoldable pub acquire : Pool → ℕ → Bool → Pool × List Settled
acquire p call aborted =
    if aborted
    then (p, rejected call ∷ [])
    else if ltb p.active p.capacity
    then (record p { active = suc p.active }, resolved call ∷ [])
    else (record p { queue = p.queue ++ (call ∷ []) }, [])

-- The listener of a waiting call: the entry leaves the queue.
unfoldable pub abort : Pool → ℕ → Pool × List Settled
abort p call = (record p { queue = keep (λ c. not (c == call)) p.queue }, rejected call ∷ [])

-- The loop of `drain`, on the queue.
unfoldable pub drain_queue : (ℕ → Bool) → ℕ → ℕ → List ℕ → ℕ × List ℕ × List Settled
drain_queue aborted capacity active [] = (active, [], [])
drain_queue aborted capacity active (call ∷ queue) =
    let (active1, queue1, settled1) = drain_queue aborted capacity active queue in
    let (active2, queue2, settled2) = drain_queue aborted capacity (suc active) queue in
    if ltb active capacity
    then (if aborted call
        then (active1, queue1, rejected call ∷ settled1)
        else (active2, queue2, resolved call ∷ settled2))
    else (active, call ∷ queue, [])

unfoldable pub drain : (ℕ → Bool) → Pool → Pool × List Settled
drain aborted p =
    let (active, queue, settled) = drain_queue aborted p.capacity p.active p.queue in
    (record p { active = active; queue = queue }, settled)

-- The `finally` block of `run`, for a call whose promise of a permit was resolved.
unfoldable pub give_back : (ℕ → Bool) → Pool → Pool × List Settled
give_back aborted p = drain aborted (record p { active = p.active - 1 })

abbrev pub status : Pool → String × ℕ × ℕ × ℕ
status p = (p.name, p.capacity, p.active, length p.queue)

-- ===== src/Pools/Machine.antt =====
-- The runs of one pool.
use asynchronnous_agent_os.Prelude.{
  ℕ, suc, ◌+◌, ◌-◌, ◌≤◌, ◌≡◌, refl, ◌⊎◌, inl, inr, Bool, true, false, List, [], ◌∷◌, ◌++◌, arith,
  ltb, ◌==◌, not, length, length-append, contains, Bool-cases, String,
}
use asynchronnous_agent_os.Pools.{
  Pool, Settled, resolved, rejected, acquire, abort, drain_queue, drain, give_back, new_pool,
}
use asynchronnous_agent_os.Pools.Order.{
  take_out, Within, empty, skip, same, Within_refl, Within-append, Within_trans, keep-Within,
  length-take_out, append_assoc, append_nil,
}

-- The calls whose promise is resolved, in the order of the resolutions.
abbrev pub granted : List Settled → List ℕ
granted [] = []
granted (resolved c ∷ ss) = c ∷ granted ss
granted (rejected c ∷ ss) = granted ss

-- The pool, the calls that hold a permit, those that were ever granted one, and those that ever
-- asked, both in their order.
pub record Run : Type 0 where
  pub pool : Pool
  pub holders : List ℕ
  pub grants : List ℕ
  pub arrivals : List ℕ

abbrev after : Run → Pool × List Settled → Run
after r (p, ss) = record r {
  pool = p;
  holders = r.holders ++ granted ss;
  grants = r.grants ++ granted ss;
}

-- A call asks, a call that holds a permit ends, or the signal of a waiting call is aborted.
pub data Step : Run → Run → Type 0 where
  asks :
      {r : Run} (c : ℕ) (aborted : Bool)
      → Step r (after (record r { arrivals = r.arrivals ++ (c ∷ []) }) (acquire r.pool c aborted))
  ends :
      {r : Run} (c : ℕ) (aborted : ℕ → Bool)
      → contains c r.holders ≡ true
      → Step r (after (record r { holders = take_out c r.holders }) (give_back aborted r.pool))
  aborts : {r : Run} (c : ℕ) → contains c r.pool.queue ≡ true → Step r (after r (abort r.pool c))

pub data Reach : Run → Run → Type 0 where
  here : {r : Run} → Reach r r
  step : {r s t : Run} → Reach r s → Step s t → Reach r t

-- The permits that are held are counted and within the capacity; none is free while a call waits; and
-- the calls are granted, and wait, in the order in which they asked.
pub record IsSound (r : Run) : Type 0 where
  pub counted : r.pool.active ≡ length r.holders
  pub bounded : r.pool.active ≤ r.pool.capacity
  pub busy : (r.pool.queue ≡ []) ⊎ (r.pool.active ≡ r.pool.capacity)
  pub in_order : Within (r.grants ++ r.pool.queue) r.arrivals

-- What `drain` leaves of a queue.
abbrev Drained : ℕ → ℕ → List ℕ → ℕ × List ℕ × List Settled → Type 0
Drained capacity active queue (active', queue', settled) =
    (active' ≤ capacity)
    × ((queue' ≡ []) ⊎ (active' ≡ capacity))
    × (active' ≡ active + length (granted settled))
    × Within (granted settled ++ queue') queue

drain_queue-Drained :
    (aborted : ℕ → Bool) (capacity active : ℕ) (queue : List ℕ)
    → active ≤ capacity
    → Drained capacity active queue (drain_queue aborted capacity active queue)
unfolding drain_queue
drain_queue-Drained aborted capacity active [] h = (h, inl refl, ground arith, empty)
drain_queue-Drained aborted capacity active (c ∷ queue) h =
    elim (Bool-cases (ltb active capacity)) [
      | inl free ↦ elim (Bool-cases (aborted c)) [
        | inl gone ↦
            let (b, q, n, i) = drain_queue-Drained aborted capacity active queue h in
            rw (free, gone) (b, q, n, skip c i)
        | inr waits ↦
            let (b, q, n, i) =
              drain_queue-Drained aborted capacity (suc active) queue (ground arith) in
            rw (free, waits) (b, q, ground (arith, n), same c i)
      ]
      | inr full ↦ rw full (h, inr (ground arith), ground arith, Within_refl (c ∷ queue))
    ]

acquire-IsSound :
    (r : Run) (c : ℕ) (aborted : Bool)
    → IsSound r
    → IsSound (after (record r { arrivals = r.arrivals ++ (c ∷ []) }) (acquire r.pool c aborted))
unfolding acquire
acquire-IsSound r c true s = record {
  counted = rw (append_nil r.holders) s.counted;
  bounded = s.bounded;
  busy = s.busy;
  in_order =
      rw (append_nil r.grants)
        (rw (append_nil (r.grants ++ r.pool.queue)) at (Within-append s.in_order (skip c empty)));
}
acquire-IsSound r c false s = elim (Bool-cases (ltb r.pool.active r.pool.capacity)) [
  | inl free ↦
      let idle : r.pool.queue ≡ [] = ground (arith, s.busy) in
      let order : Within r.grants r.arrivals =
        rw (append_nil r.grants) at (rw idle at s.in_order) in
      simp free (record {
        counted = ground (arith, s.counted, length-append r.holders (c ∷ []));
        bounded = ground arith;
        busy = inl idle;
        in_order =
            rw (idle, append_nil (r.grants ++ (c ∷ []))) (Within-append order (same c empty));
      })
  | inr full ↦ simp full (record {
    counted = rw (append_nil r.holders) s.counted;
    bounded = s.bounded;
    busy = inr (ground (arith, s.bounded));
    in_order = rw (append_nil r.grants) (
        rw (append_assoc r.grants r.pool.queue (c ∷ [])) at
          (Within-append s.in_order (same c empty)));
  })
]

give_back-IsSound :
    (r : Run) (c : ℕ) (aborted : ℕ → Bool)
    → contains c r.holders ≡ true
    → IsSound r
    → IsSound (after (record r { holders = take_out c r.holders }) (give_back aborted r.pool))
unfolding give_back drain
give_back-IsSound r c aborted h s =
    let fewer : suc (length (take_out c r.holders)) ≡ length r.holders =
      length-take_out c r.holders h in
    let (b, q, n, i) =
      drain_queue-Drained aborted r.pool.capacity (r.pool.active - 1) r.pool.queue
        (ground (arith, s.bounded)) in
    let d : ℕ × List ℕ × List Settled =
      drain_queue aborted r.pool.capacity (r.pool.active - 1) r.pool.queue in
    record {
      counted =
          ground (arith, n, fewer, s.counted, length-append (take_out c r.holders) (granted d.2));
      bounded = b;
      busy = q;
      in_order =
          rw (append_assoc r.grants (granted d.2) d.1)
            (Within_trans (Within-append (Within_refl r.grants) i) s.in_order);
    }

abort-IsSound :
    (r : Run) (c : ℕ)
    → contains c r.pool.queue ≡ true
    → IsSound r
    → IsSound (after r (abort r.pool c))
unfolding abort
abort-IsSound r c h s = record {
  counted = rw (append_nil r.holders) s.counted;
  bounded = s.bounded;
  busy = ground (arith, s.busy);
  in_order = rw (append_nil r.grants) (
      Within_trans
        (Within-append (Within_refl r.grants) (keep-Within (λ x. not (x == c)) r.pool.queue))
        s.in_order);
}

Step-IsSound : {r t : Run} → Step r t → IsSound r → IsSound t
Step-IsSound (asks {r} c aborted) s = acquire-IsSound r c aborted s
Step-IsSound (ends {r} c aborted h) s = give_back-IsSound r c aborted h s
Step-IsSound (aborts {r} c h) s = abort-IsSound r c h s

Reach-from : {r t : Run} → Reach r t → IsSound r → IsSound t
Reach-from here s = s
Reach-from (step path e) s = Step-IsSound e (Reach-from path s)

abbrev pub start : String → ℕ → Run
start name capacity = record {
  pool = new_pool name capacity;
  holders = [];
  grants = [];
  arrivals = [];
}

-- In every run of a new pool: the count of active calls is the number of those that hold a permit,
-- and within the capacity; no call waits while a permit is free; and the calls are granted, and wait,
-- in the order in which they asked.
pub every_run-IsSound :
    (name : String) (capacity : ℕ) (r : Run) → Reach (start name capacity) r → IsSound r
every_run-IsSound name capacity r path =
    Reach-from path
      (record { counted = refl; bounded = ground arith; busy = inl refl; in_order = empty })

-- ===== src/Execute/Ready.antt =====
-- When a worker has something left to do, and when a queue does not make its caller wait.
use monte_carlo.Prelude.{
  ℕ, ◌+◌, ◌≤◌, ◌<◌, ◌≡◌, ap, arith, refl, List, [], ◌∷◌, ◌++◌, Bool, true, false, Option, none,
  some, length, total, ltb, max, inl, inr, ◌⊎◌, Bool-cases, ltb→lt, lt→ltb,
}
use monte_carlo.Queue.{BoundedQueue, push, pop_items}
use monte_carlo.Execute.{
  WorkerPc, starting, taking, computing, submitting, worker_failing, leaving, closing_last, gone,
}
use monte_carlo.Execute.Invariant.{is_out, is_counted, is_last}

module _ {Job Done : Type 0} where
  abbrev pub is_active : WorkerPc Job Done → ℕ
  is_active gone = 0
  is_active _ = 1

  -- A worker with something left to do.
  pub active_worker :
      (ws : List (WorkerPc Job Done))
      → 0 < total is_active ws
      → (before : List (WorkerPc Job Done)) × (after : List (WorkerPc Job Done)) × (p : WorkerPc Job
          Done)
        × (ws ≡ before ++ (p ∷ after))
        × (is_active p ≡ 1)
  active_worker [] h = absurd (omega arith)
  active_worker (gone ∷ ws) h =
      let (before, after, p, at, active) = active_worker ws (omega arith) in
      (gone ∷ before, after, p, ap (λ (l : List (WorkerPc Job Done)). gone ∷ l) at, active)
  active_worker (starting ∷ ws) h = ([], ws, starting, refl, refl)
  active_worker (taking ∷ ws) h = ([], ws, taking, refl, refl)
  active_worker (computing job ∷ ws) h = ([], ws, computing job, refl, refl)
  active_worker (submitting r ∷ ws) h = ([], ws, submitting r, refl, refl)
  active_worker (worker_failing f ∷ ws) h = ([], ws, worker_failing f, refl, refl)
  active_worker (leaving ∷ ws) h = ([], ws, leaving, refl, refl)
  active_worker (closing_last ∷ ws) h = ([], ws, closing_last, refl, refl)

  -- A worker that is out of its loop, or else active.
  pub active_or_out :
      (ws : List (WorkerPc Job Done)) → length ws ≤ total is_active ws + total is_out ws
  active_or_out [] = omega arith
  active_or_out (p ∷ ws) = ground (arith, active_or_out ws)

  pub counted-active :
      (ws : List (WorkerPc Job Done)) → total is_counted ws + total is_last ws ≤ total is_active ws
  counted-active [] = omega arith
  counted-active (p ∷ ws) = ground (arith, counted-active ws)

module _ {A : Type 0} where
  -- `pop` does not wait.
  abbrev pub CanPop : BoundedQueue A → Type 0
  CanPop q = (0 < length q.items) ⊎ (q.closed ≡ true)

  -- `push` does not wait.
  abbrev pub CanPush : BoundedQueue A → Type 0
  CanPush q = (length q.items < q.capacity) ⊎ (q.closed ≡ true)

  pub pop_ready :
      (items : List A) (q : BoundedQueue A)
      → (0 < length items) ⊎ (q.closed ≡ true)
      → (x : Option A) × (q' : BoundedQueue A) × (pop_items items q ≡ some (x, q'))
  pop_ready [] q (inl some_item) = absurd (omega arith)
  pop_ready [] q (inr shut) = (none, q, rw shut refl)
  pop_ready (x ∷ xs) q h = (some x, record q { items = xs }, refl)

  abbrev enqueued : A → BoundedQueue A → BoundedQueue A
  enqueued item q = record q {
    items = q.items ++ (item ∷ []);
    max_depth = max q.max_depth (length (q.items ++ (item ∷ [])));
  }

  pub push_ready :
      (item : A) (q : BoundedQueue A)
      → CanPush q
      → (accepted : Bool) × (q' : BoundedQueue A) × (push item q ≡ some (accepted, q'))
  push_ready item q h = elim (Bool-cases q.closed) [
    | inl shut ↦ (false, q, rw shut refl)
    | inr open' ↦ elim h [
      | inr shut ↦ cc
      | inl room ↦ (true, enqueued item q, rw (open', lt→ltb (length q.items) q.capacity room) refl)
    ]
  ]

  pub closed_or_open :
      (q : BoundedQueue A)
      → 0 < q.capacity
      → CanPop q ⊎ ((length q.items < q.capacity) × (q.closed ≡ false))
  closed_or_open q room = elim (Bool-cases q.closed) [
    | inl shut ↦ inl (inr shut)
    | inr open' ↦ some_item q.items open' room
  ]
    where
      some_item :
          (items : List A)
          → q.closed ≡ false
          → 0 < q.capacity
          → ((0 < length items) ⊎ (q.closed ≡ true))
            ⊎ ((length items < q.capacity) × (q.closed ≡ false))
      some_item [] open' room = inr (room, open')
      some_item (x ∷ xs) open' room = inl (inl (omega arith))

  pub room_or_full :
      (q : BoundedQueue A)
      → 0 < q.capacity
      → CanPush q ⊎ ((0 < length q.items) × (q.closed ≡ false))
  room_or_full q room = elim (Bool-cases q.closed) [
    | inl shut ↦ inl (inr shut)
    | inr open' ↦ elim (Bool-cases (ltb (length q.items) q.capacity)) [
      | inl lt ↦ inl (inl (ltb→lt (length q.items) q.capacity lt))
      | inr ge ↦ inr (ground arith, open')
    ]
  ]

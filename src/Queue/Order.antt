-- ===== src/Queue/Order.antt =====
-- The queue is first in, first out, and holds no more than its capacity.
use monte_carlo.Prelude.{
  ℕ, ◌≤◌, ◌<◌, ◌≡◌, arith, refl, List, [], ◌∷◌, ◌++◌, true, false, Option, none, some, length,
  length-append, append_assoc, append-nil, sym, ap, ◌∙◌, ◌⊎◌, inl, inr,
}
use monte_carlo.Exception.{ok}
use monte_carlo.Queue.{BoundedQueue, make_queue, push, pop, pop_items, close}

pub record IsBounded {A : Type 0} (q : BoundedQueue A) : Type 0 where
  pub some_room : 0 < q.capacity
  pub fits : length q.items ≤ q.capacity
  pub depth_seen : length q.items ≤ q.max_depth
  pub depth_fits : q.max_depth ≤ q.capacity

module _ {A : Type 0} where
  -- A call by some thread that went through: what was pushed or popped, if anything was.
  pub data Call (q : BoundedQueue A) (pushed popped : List A) (q' : BoundedQueue A) : Type 0 where
    pushes :
        (x : A)
        → push x q ≡ some (true, q')
        → pushed ≡ x ∷ []
        → popped ≡ []
        → Call q pushed popped q'
    refused :
        (x : A) → push x q ≡ some (false, q') → pushed ≡ [] → popped ≡ [] → Call q pushed popped q'
    pops :
        (x : A)
        → pop q ≡ some (some x, q')
        → pushed ≡ []
        → popped ≡ x ∷ []
        → Call q pushed popped q'
    drained : pop q ≡ some (none, q') → pushed ≡ [] → popped ≡ [] → Call q pushed popped q'
    closes : q' ≡ close q → pushed ≡ [] → popped ≡ [] → Call q pushed popped q'

  pub pop_items-cases :
      (items : List A) (q q' : BoundedQueue A) (popped : Option A)
      → pop_items items q ≡ some (popped, q')
      → ((x : A) × (xs : List A) × (items ≡ x ∷ xs)
          × (popped ≡ some x)
          × (q' ≡ record q { items = xs }))
        ⊎ ((items ≡ []) × (q.closed ≡ true) × (popped ≡ none) × (q' ≡ q))
  pop_items-cases [] q q' popped h = ground arith
  pop_items-cases (x ∷ xs) q q' popped h = inl (x, xs, refl, ground arith, ground arith)

  -- Calls of any threads, one after the other, with all that they pushed and popped.
  pub data Calls (q : BoundedQueue A) : List A → List A → BoundedQueue A → Type 0 where
    start : Calls q [] [] q
    later :
        {ins outs pushed popped : List A} {q' q'' : BoundedQueue A}
        → Calls q ins outs q'
        → Call q' pushed popped q''
        → Calls q (ins ++ pushed) (outs ++ popped) q''

  Call-order :
      (q q' : BoundedQueue A) (pushed popped : List A)
      → Call q pushed popped q'
      → q.items ++ pushed ≡ popped ++ q'.items
  Call-order q q' pushed popped (pushes x e p o) = ground arith
  Call-order q q' pushed popped (refused x e p o) = ground (arith, append-nil q.items)
  Call-order q q' pushed popped (pops x e p o) = elim (pop_items-cases q.items q q' (some x) e) [
    | inl (y, ys, items, head, q'-is) ↦
        let rest : q'.items ≡ ys = ground arith in
        let same : x ≡ y = ground arith in rw (items, p, o, rest, same, append-nil ys) refl
    | inr (a, b, c, d) ↦ cc
  ]
  Call-order q q' pushed popped (drained e p o) =
      ground (arith, append-nil q.items, pop_items-cases q.items q q' none e)
  Call-order q q' pushed popped (closes e p o) = ground (arith, append-nil q.items)

  Call-IsBounded :
      (q q' : BoundedQueue A) (pushed popped : List A)
      → Call q pushed popped q'
      → IsBounded q
      → IsBounded q'
  Call-IsBounded q q' pushed popped (pushes x e p o) h =
      ground (arith, length-append q.items (x ∷ []))
  Call-IsBounded q q' pushed popped (refused x e p o) h = ground arith
  Call-IsBounded q q' pushed popped (pops x e p o) h =
      ground (arith, pop_items-cases q.items q q' (some x) e)
  Call-IsBounded q q' pushed popped (drained e p o) h =
      ground (arith, pop_items-cases q.items q q' none e)
  Call-IsBounded q q' pushed popped (closes e p o) h = ground arith

  Call-capacity :
      (q q' : BoundedQueue A) (pushed popped : List A)
      → Call q pushed popped q'
      → q'.capacity ≡ q.capacity
  Call-capacity q q' pushed popped (pushes x e p o) = ground arith
  Call-capacity q q' pushed popped (refused x e p o) = ground arith
  Call-capacity q q' pushed popped (pops x e p o) =
      ground (arith, pop_items-cases q.items q q' (some x) e)
  Call-capacity q q' pushed popped (drained e p o) =
      ground (arith, pop_items-cases q.items q q' none e)
  Call-capacity q q' pushed popped (closes e p o) = ground arith

  Calls-capacity :
      (q q' : BoundedQueue A) (ins outs : List A) → Calls q ins outs q' → q'.capacity ≡ q.capacity
  Calls-capacity q q' ins outs start = refl
  Calls-capacity q q' ins outs (later {ins = i} {outs = o} {pushed = u} {popped = v} {q' = m} c d) =
      Call-capacity m q' u v d ∙ Calls-capacity q m i o c

  Calls-order :
      (q q' : BoundedQueue A) (ins outs : List A)
      → Calls q ins outs q'
      → q.items ++ ins ≡ outs ++ q'.items
  Calls-order q q' ins outs start = append-nil q.items
  Calls-order q q' ins outs (later {ins = i} {outs = o} {pushed = u} {popped = v} {q' = m} c d) =
      sym (append_assoc q.items i u)
      ∙ ap (λ (l : List A). l ++ u) (Calls-order q m i o c)
      ∙ append_assoc o m.items u
      ∙ ap (λ (l : List A). o ++ l) (Call-order m q' u v d)
      ∙ sym (append_assoc o v q'.items)

  Calls-IsBounded :
      (q q' : BoundedQueue A) (ins outs : List A) → Calls q ins outs q' → IsBounded q → IsBounded q'
  Calls-IsBounded q q' ins outs start h = h
  Calls-IsBounded q q' ins outs (later {ins = i} {outs = o} {pushed = u} {popped = v} {q' = m} c d)
        h =
      Call-IsBounded m q' u v d (Calls-IsBounded q m i o c h)

  -- Whatever threads call a queue of positive capacity, and in whatever order: what was pushed is
  -- what was popped followed by what is still queued, in the same order, and neither the items nor
  -- the greatest depth that was seen ever exceed the capacity.
  pub make_queue-order :
      (capacity : ℕ) (q q' : BoundedQueue A) (ins outs : List A)
      → make_queue capacity ≡ ok q
      → Calls q ins outs q'
      → (ins ≡ outs ++ q'.items) × (length q'.items ≤ capacity) × (q'.max_depth ≤ capacity)
  make_queue-order capacity q q' ins outs made calls =
      let empty : q.items ≡ [] = ground arith in
      let same : q.capacity ≡ capacity = ground arith in
      let bounded = Calls-IsBounded q q' ins outs calls (record {
        some_room = ground arith;
        fits = ground arith;
        depth_seen = ground arith;
        depth_fits = ground arith;
      }) in
      (
        ap (λ (l : List A). l ++ ins) (sym empty) ∙ Calls-order q q' ins outs calls,
        omega (arith, bounded.fits, Calls-capacity q q' ins outs calls),
        omega (arith, bounded.depth_fits, Calls-capacity q q' ins outs calls),
      )

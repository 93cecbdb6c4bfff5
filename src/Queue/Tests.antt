-- ===== src/Queue/Tests.antt =====
-- Two threads over a queue of capacity one.
use monte_carlo.Prelude.{ℕ, ◌≡◌, ◌≤◌, refl, [], ◌∷◌, ◌++◌, false, length}
use monte_carlo.Queue.{BoundedQueue}
use monte_carlo.Queue.Order.{Calls, pushes, pops, start, later, make_queue-order}

abbrev empty_queue : BoundedQueue ℕ
empty_queue = record { items = []; capacity = 1; closed = false; max_depth = 0 }

abbrev seen_queue : BoundedQueue ℕ
seen_queue = record { items = 8 ∷ []; capacity = 1; closed = false; max_depth = 1 }

calls : Calls empty_queue (7 ∷ 8 ∷ []) (7 ∷ []) seen_queue
calls =
    later (later (later start (pushes 7 refl refl refl)) (pops 7 refl refl refl))
      (pushes 8 refl refl refl)

make_queue-order_example :
    (7 ∷ 8 ∷ [] ≡ 7 ∷ [] ++ seen_queue.items)
    × (length seen_queue.items ≤ 1)
    × (seen_queue.max_depth ≤ 1)
make_queue-order_example =
    make_queue-order 1 empty_queue seen_queue (7 ∷ 8 ∷ []) (7 ∷ []) refl calls

-- ===== src/Queue.antt =====
-- include/mc/bounded_queue.hpp: the monitor between the scheduler, the workers and the
-- coordinator. Each operation runs under the lock of the queue, so it is one step.
pub mod Order
pub mod Tests
use monte_carlo.Prelude.{
  ℕ, zero, suc, List, [], ◌∷◌, ◌++◌, Bool, true, false, Option, none, some, ltb, ◌==◌, max, length,
  if◌then◌else◌, bytes_of,
}
use monte_carlo.Exception.{Result, ok, err, invalid_argument, what}

-- `max_depth` is `*max_observed_depth_`, which the caller may ask for; `blocked_ns` is a time, and
-- left out.
pub record BoundedQueue (A : Type 0) : Type 0 where
  pub items : List A
  pub capacity : ℕ
  pub closed : Bool
  pub max_depth : ℕ

module _ {A : Type 0} where
  abbrev pub make_queue : ℕ → Result (BoundedQueue A)
  make_queue capacity =
      if capacity == 0
      then err (invalid_argument (what "bounded queue capacity must be positive"))
      else ok (record { items = []; capacity = capacity; closed = false; max_depth = 0 })

  -- `push` waits, which is `none`, until the queue is closed or has room.
  abbrev pub push : A → BoundedQueue A → Option (Bool × BoundedQueue A)
  push item q =
      if q.closed
      then some (false, q)
      else if ltb (length q.items) q.capacity
      then some (
        true,
        record q {
          items = q.items ++ (item ∷ []);
          max_depth = max q.max_depth (length (q.items ++ (item ∷ [])));
        },
      )
      else none

  -- The head and the rest of the items; on none of them `pop` waits until the queue is closed.
  abbrev pub pop_items : List A → BoundedQueue A → Option (Option A × BoundedQueue A)
  pop_items [] q = if q.closed then some (none, q) else none
  pop_items (x ∷ xs) q = some (some x, record q { items = xs })

  abbrev pub pop : BoundedQueue A → Option (Option A × BoundedQueue A)
  pop q = pop_items q.items q

  abbrev pub close : BoundedQueue A → BoundedQueue A
  close q = record q { closed = true }

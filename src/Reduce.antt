-- ===== src/Reduce.antt =====
-- `reduce_block_results` of src/runtime/engine.cpp: the fixed-position pairwise reduction.
pub mod Count
pub mod Tree
pub mod Overflow
pub mod Single
pub mod Tests
use monte_carlo.Prelude.{ℕ, zero, suc, List, [], ◌∷◌, length, ltb}
use monte_carlo.Prelude.{true, false}
use monte_carlo.Exception.{Result, ok, err, ◌>>=◌}
use monte_carlo.Float64.{Float64}
use monte_carlo.Aggregate.{AggregateStats, merge, empty_stats}

module _ {D : Type 0} ⦃fp : Float64 D⦄ where
  -- The `for` loop over one level: neighbours are merged, an odd last element is carried over.
  pub next_level : List (AggregateStats D) → Result (List (AggregateStats D))
  next_level (x ∷ y ∷ rest) = do m ← merge x y; ms ← next_level rest; ok (m ∷ ms)
  next_level (x ∷ []) = ok (x ∷ [])
  next_level [] = ok []

  -- `while (level.size() > 1)`, at most one round for each unit of fuel.
  unfoldable pub reduce_levels : ℕ → List (AggregateStats D) → Result (List (AggregateStats D))
  reduce_levels zero level = ok level
  reduce_levels (suc fuel) level = elim (ltb 1 (length level)) [
    | true ↦ next_level level >>= reduce_levels fuel
    | false ↦ ok level
  ]

  -- level.front()
  unfoldable pub front : List (AggregateStats D) → AggregateStats D
  front [] = empty_stats
  front (x ∷ xs) = x

  -- A level at least halves, so as many rounds as there are leaves are enough.
  unfoldable pub reduce_block_results : List (AggregateStats D) → Result (AggregateStats D)
  reduce_block_results leaves = do level ← reduce_levels (length leaves) leaves; ok (front level)

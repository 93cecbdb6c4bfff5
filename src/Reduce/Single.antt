-- ===== src/Reduce/Single.antt =====
-- A reduction in which all leaves but one are without observations.
use monte_carlo.Prelude.{
  ℕ, zero, suc, ◌+◌, ◌/◌, ◌<◌, ◌≤◌, ◌≡◌, arith, refl, List, [], ◌∷◌, length, ltb, All, inl, inr,
  ◌⊎◌, true,
}
use monte_carlo.Exception.{ok}
use monte_carlo.Float64.{Float64}
use monte_carlo.Aggregate.{AggregateStats}
use monte_carlo.Aggregate.Merge.{IsValid, merge-no_observations_left, merge-no_observations_right}
use monte_carlo.Reduce.{next_level, reduce_levels, front, reduce_block_results}

module _ {D : Type 0} ⦃fp : Float64 D⦄ where
  abbrev pub IsIdle : AggregateStats D → Type 0
  IsIdle s = IsValid s × (s.n ≡ 0)

  -- The leaf `s` somewhere among leaves without observations.
  abbrev pub Alone : AggregateStats D → List (AggregateStats D) → Type 0
  Alone s [] = ⊥
  Alone s (x ∷ xs) = ((x ≡ s) × All IsIdle xs) ⊎ (IsIdle x × Alone s xs)

  next_level-IsIdle :
      (xs : List (AggregateStats D))
      → All IsIdle xs
      → (ys : List (AggregateStats D)) × (next_level xs ≡ ok ys)
        × All IsIdle ys
        × (length ys ≡ (length xs + 1) / 2)
  unfolding next_level
  next_level-IsIdle [] h = ([], refl, tt, refl)
  next_level-IsIdle (x ∷ []) h = (x ∷ [], refl, h, refl)
  next_level-IsIdle (x ∷ y ∷ rest) ((vx, nx), ((vy, ny), h)) =
      let (ys, level, idle, len) = next_level-IsIdle rest h in
      (
        y ∷ ys,
        rw (merge-no_observations_left x y vx nx vy, level) refl,
        ((vy, ny), idle),
        omega arith,
      )

  module _ (s : AggregateStats D) (valid : IsValid s) (some_n : 0 < s.n) where
    next_level-Alone :
        (xs : List (AggregateStats D))
        → Alone s xs
        → (ys : List (AggregateStats D)) × (next_level xs ≡ ok ys)
          × Alone s ys
          × (length ys ≡ (length xs + 1) / 2)
    unfolding next_level
    next_level-Alone [] h = absurd h
    next_level-Alone (x ∷ []) h = (x ∷ [], refl, h, refl)
    next_level-Alone (x ∷ y ∷ rest) (inl (same, ((vy, ny), h))) =
        let (ys, level, idle, len) = next_level-IsIdle rest h in
        (
          s ∷ ys,
          rw (same, merge-no_observations_right y s vy ny valid some_n, level) refl,
          inl (refl, idle),
          omega arith,
        )
    next_level-Alone (x ∷ y ∷ rest) (inr ((vx, nx), inl (same, h))) =
        let (ys, level, idle, len) = next_level-IsIdle rest h in
        (
          s ∷ ys,
          rw (same, merge-no_observations_left x s vx nx valid, level) refl,
          inl (refl, idle),
          omega arith,
        )
    next_level-Alone (x ∷ y ∷ rest) (inr ((vx, nx), inr ((vy, ny), h))) =
        let (ys, level, alone, len) = next_level-Alone rest h in
        (
          y ∷ ys,
          rw (merge-no_observations_left x y vx nx vy, level) refl,
          inr ((vy, ny), alone),
          omega arith,
        )

    reduce_levels-Alone :
        (fuel : ℕ) (xs : List (AggregateStats D))
        → Alone s xs
        → length xs ≤ fuel + 1
        → reduce_levels fuel xs ≡ ok (s ∷ [])
    unfolding reduce_levels
    reduce_levels-Alone fuel [] h few = absurd h
    reduce_levels-Alone zero (x ∷ []) (inl (same, h)) few = rw same refl
    reduce_levels-Alone (suc fuel) (x ∷ []) (inl (same, h)) few = rw same refl
    reduce_levels-Alone fuel (x ∷ []) (inr (idle, h)) few = absurd h
    reduce_levels-Alone zero (x ∷ y ∷ rest) h few = absurd (omega arith)
    reduce_levels-Alone (suc fuel) (x ∷ y ∷ rest) h few =
        let more : ltb 1 (length (x ∷ y ∷ rest)) ≡ true = ground arith in
        let (ys, level, alone, len) = next_level-Alone (x ∷ y ∷ rest) h in
        rw (more, level, reduce_levels) (reduce_levels-Alone fuel ys alone (omega arith))

    -- Wherever among leaves without observations a valid leaf with observations stands, and
    -- however many of them there are, the reduction returns, and returns exactly this leaf, with
    -- no rounding of its values.
    pub reduce_block_results-Alone :
        (leaves : List (AggregateStats D)) → Alone s leaves → reduce_block_results leaves ≡ ok s
    unfolding reduce_block_results front
    reduce_block_results-Alone leaves h =
        rw (reduce_levels-Alone (length leaves) leaves h (omega arith)) refl

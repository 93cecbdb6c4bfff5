-- ===== src/Reduce/Count.antt =====
-- The reduction ends with one aggregate, which counts every observation of the leaves.
use monte_carlo.Prelude.{
  ℕ, zero, suc, ◌+◌, ◌/◌, ◌<◌, ◌≤◌, ◌≡◌, arith, refl, List, [], ◌∷◌, length, ltb, All, min,
  Bool-cases, inl, inr,
}
use monte_carlo.Exception.{ok, >>=-eq-ok}
use monte_carlo.Float64.{Float64}
use monte_carlo.Aggregate.{AggregateStats, merge}
use monte_carlo.Aggregate.Merge.{IsValid, merge-IsValid}
use monte_carlo.Reduce.{next_level, reduce_levels, front, reduce_block_results}

module _ {D : Type 0} ⦃fp : Float64 D⦄ where
  abbrev pub total_n : List (AggregateStats D) → ℕ
  total_n [] = 0
  total_n (x ∷ xs) = x.n + total_n xs

  -- One level keeps the count and validity, and halves the length, rounding up.
  next_level_lem :
      (xs ys : List (AggregateStats D))
      → All IsValid xs
      → next_level xs ≡ ok ys
      → (total_n ys ≡ total_n xs) × All IsValid ys × (length ys ≡ (length xs + 1) / 2)
  unfolding next_level
  next_level_lem [] ys v h = let e : [] ≡ ys = cc in rw (← e) (refl, tt, refl)
  next_level_lem (x ∷ []) ys v h = let e : x ∷ [] ≡ ys = cc in rw (← e) (refl, v, refl)
  next_level_lem (x ∷ y ∷ rest) ys v h =
      let (m, merged, h1) = >>=-eq-ok (merge x y) _ h in
      let (ms, level, h2) = >>=-eq-ok (next_level rest) _ h1 in
      let (n, w, len) = next_level_lem rest ms v.1.1 level in
      let (a, b, valid, count) = merge-IsValid x y m merged in
      let e : m ∷ ms ≡ ys = cc in rw (← e) (omega (arith, n, count), (valid, w), omega (arith, len))

  reduce_levels_lem :
      (fuel : ℕ) (xs ys : List (AggregateStats D))
      → All IsValid xs
      → length xs ≤ fuel + 1
      → reduce_levels fuel xs ≡ ok ys
      → (total_n ys ≡ total_n xs)
        × All IsValid ys
        × (length ys ≤ 1)
        × (min 1 (length ys) ≡ min 1 (length xs))
  unfolding reduce_levels
  reduce_levels_lem zero xs ys v p h = let e : xs ≡ ys = cc in rw (← e) (refl, v, omega arith, refl)
  reduce_levels_lem (suc fuel) xs ys v p h = elim (Bool-cases (ltb 1 (length xs))) [
    | inl more ↦
        let (zs, level, h1) = >>=-eq-ok (next_level xs) _ (rw (more, reduce_levels) at h) in
        let (n, w, len) = next_level_lem xs zs v level in
        let (n', w', len', some') = reduce_levels_lem fuel zs ys w (ground arith) h1 in
        (omega arith, w', len', ground arith)
    | inr done ↦ let e : xs ≡ ys = ground arith in rw (← e) (refl, v, ground arith, refl)
  ]

  -- With a unit of fuel for each leaf the reduction loop ends by its own test: at most one
  -- aggregate is left.
  pub reduce_levels_enough :
      (leaves level : List (AggregateStats D))
      → All IsValid leaves
      → reduce_levels (length leaves) leaves ≡ ok level
      → length level ≤ 1
  reduce_levels_enough leaves level v h =
      (reduce_levels_lem (length leaves) leaves level v (omega arith) h).2

  -- A reduction of one or more valid leaves that returns gives a valid aggregate that counts
  -- every observation of every leaf, exactly once.
  pub reduce_block_results-n :
      (leaves : List (AggregateStats D)) (r : AggregateStats D)
      → All IsValid leaves
      → 0 < length leaves
      → reduce_block_results leaves ≡ ok r
      → (r.n ≡ total_n leaves) × IsValid r
  unfolding reduce_block_results
  reduce_block_results-n leaves r v pos h =
      let (level, reduced, h1) = >>=-eq-ok (reduce_levels (length leaves) leaves) _ h in
      let (n, w, len, some_left) =
        reduce_levels_lem (length leaves) leaves level v (omega arith) reduced in
      only level n w len some_left (ground arith)
    where
      only :
          (level : List (AggregateStats D))
          → total_n level ≡ total_n leaves
          → All IsValid level
          → length level ≤ 1
          → min 1 (length level) ≡ min 1 (length leaves)
          → front level ≡ r
          → (r.n ≡ total_n leaves) × IsValid r
      only [] n w len e f = absurd (omega arith)
      only (x ∷ []) n w len e f = let e' : x ≡ r = unfold front in f in rw (← e') (omega arith, w.0)
      only (x ∷ y ∷ rest) n w len e f = absurd (omega arith)

-- ===== src/Reduce/Overflow.antt =====
-- A reduction whose observation count would wrap does not return.
use monte_carlo.Prelude.{
  ℕ, zero, suc, ◌<◌, ◌≤◌, ◌≡◌, arith, List, [], ◌∷◌, length, ltb, All, Bool-cases, inl, inr,
}
use monte_carlo.Exception.{ok, err, Exception, >>=-eq-ok, Result-cases}
use monte_carlo.Float64.{Float64}
use monte_carlo.Aggregate.{AggregateStats, merge, u64_max}
use monte_carlo.Aggregate.Merge.{IsValid, merge-fits}
use monte_carlo.Reduce.{next_level, reduce_levels, front, reduce_block_results}
use monte_carlo.Reduce.Count.{total_n, reduce_block_results-n}

module _ {D : Type 0} ⦃fp : Float64 D⦄ where
  -- A count that its 64-bit field holds.
  abbrev pub Fits : AggregateStats D → Type 0
  Fits s = s.n ≤ u64_max

  next_level-Fits :
      (xs ys : List (AggregateStats D)) → All Fits xs → next_level xs ≡ ok ys → All Fits ys
  unfolding next_level
  next_level-Fits [] ys f h = let e : [] ≡ ys = cc in rw (← e) tt
  next_level-Fits (x ∷ []) ys f h = let e : x ∷ [] ≡ ys = cc in rw (← e) f
  next_level-Fits (x ∷ y ∷ rest) ys f h =
      let (m, merged, h1) = >>=-eq-ok (merge x y) _ h in
      let (ms, level, h2) = >>=-eq-ok (next_level rest) _ h1 in
      let e : m ∷ ms ≡ ys = cc in
      rw (← e) (merge-fits x y m f.0 f.1.0 merged, next_level-Fits rest ms f.1.1 level)

  reduce_levels-Fits :
      (fuel : ℕ) (xs ys : List (AggregateStats D))
      → All Fits xs
      → reduce_levels fuel xs ≡ ok ys
      → All Fits ys
  unfolding reduce_levels
  reduce_levels-Fits zero xs ys f h = let e : xs ≡ ys = cc in rw (← e) f
  reduce_levels-Fits (suc fuel) xs ys f h = elim (Bool-cases (ltb 1 (length xs))) [
    | inl more ↦
        let (zs, level, h1) = >>=-eq-ok (next_level xs) _ (rw (more, reduce_levels) at h) in
        reduce_levels-Fits fuel zs ys (next_level-Fits xs zs f level) h1
    | inr done ↦ let e : xs ≡ ys = ground arith in rw (← e) f
  ]

  front-Fits : (xs : List (AggregateStats D)) → All Fits xs → Fits (front xs)
  unfolding front
  front-Fits [] f = omega arith
  front-Fits (x ∷ xs) f = f.0

  reduce_block_results-Fits :
      (leaves : List (AggregateStats D)) (r : AggregateStats D)
      → All Fits leaves
      → reduce_block_results leaves ≡ ok r
      → Fits r
  unfolding reduce_block_results
  reduce_block_results-Fits leaves r f h =
      let (level, reduced, h') = >>=-eq-ok (reduce_levels (length leaves) leaves) _ h in
      let e : front level ≡ r = cc in
      rw (← e) (front-Fits level (reduce_levels-Fits (length leaves) leaves level f reduced))

  some_leaf : (xs : List (AggregateStats D)) → 0 < total_n xs → 0 < length xs
  some_leaf [] h = absurd (omega arith)
  some_leaf (x ∷ xs) h = omega arith

  -- If the observation counts of valid leaves, each of them 64-bit, do not fit 64 bits together,
  -- the reduction ends in an exception, wherever in the tree the sums would wrap: it never
  -- returns an aggregate with a count that has wrapped.
  pub reduce_block_results-overflow :
      (leaves : List (AggregateStats D))
      → All IsValid leaves
      → All Fits leaves
      → u64_max < total_n leaves
      → (e : Exception) × (reduce_block_results leaves ≡ err e)
  reduce_block_results-overflow leaves v f over =
      elim (Result-cases (reduce_block_results leaves)) [
        | inr failed ↦ failed
        | inl (r, returned) ↦
            let counted =
              reduce_block_results-n leaves r v (some_leaf leaves (omega arith)) returned in
            absurd (omega (arith, counted.0, reduce_block_results-Fits leaves r f returned))
      ]

-- ===== src/Aggregate/Merge.antt =====
-- Merging keeps the invariant and the observation count.
use monte_carlo.Prelude.{ℕ, ◌+◌, ◌%◌, ◌^◌, ◌≤◌, ◌<◌, ◌≡◌, ◌↔◌, none, some, arith, refl}
use monte_carlo.Exception.{ok, throw_some-eq-ok}
use monte_carlo.Float64.{Float64}
use monte_carlo.Aggregate.{
  AggregateStats, merge, merge_valid, merged_values, invariant_error, u64_max,
}

module _ {D : Type 0} ⦃fp : Float64 D⦄ where
  abbrev pub IsValid : AggregateStats D → Type 0
  IsValid s = invariant_error s none ≡ none

  -- What a merge that returned has established.
  merge-eq-ok :
      (left right result : AggregateStats D)
      → merge left right ≡ ok result
      → IsValid left × IsValid right × (merge_valid left right ≡ ok result)
  unfolding merge
  merge-eq-ok left right result h =
      let (l, h') = throw_some-eq-ok (invariant_error left none) _ _ h in
      let (r, h'') = throw_some-eq-ok (invariant_error right none) _ _ h' in (l, r, h'')

  merged_values-n :
      (left right : AggregateStats D) → (merged_values left right).n ≡ (left.n + right.n) % 2 ^ 64
  unfolding merged_values
  merged_values-n left right = refl

  merge_valid-IsValid :
      (left right result : AggregateStats D)
      → IsValid left
      → IsValid right
      → merge_valid left right ≡ ok result
      → IsValid result
  unfolding merge_valid
  merge_valid-IsValid left right result l r h = ground arith

  merge_valid-n :
      (left right result : AggregateStats D)
      → merge_valid left right ≡ ok result
      → result.n ≡ left.n + right.n
  unfolding merge_valid
  merge_valid-n left right result h = ground (arith, merged_values-n left right)

  merge_valid-fits :
      (left right result : AggregateStats D)
      → left.n ≤ u64_max
      → right.n ≤ u64_max
      → merge_valid left right ≡ ok result
      → result.n ≤ u64_max
  unfolding merge_valid
  merge_valid-fits left right result l r h = ground (arith, merged_values-n left right)

  -- A merge that returns does so from two valid aggregates, gives a valid one, and counts every
  -- observation of both: the 64-bit sum has not wrapped.
  pub merge-IsValid :
      (left right result : AggregateStats D)
      → merge left right ≡ ok result
      → IsValid left × IsValid right × IsValid result × (result.n ≡ left.n + right.n)
  merge-IsValid left right result h =
      let (l, r, k) = merge-eq-ok left right result h in
      (l, r, merge_valid-IsValid left right result l r k, merge_valid-n left right result k)

  -- An aggregate of no observations, merged on the left, gives the other one back.
  pub merge-no_observations_left :
      (nothing s : AggregateStats D)
      → IsValid nothing
      → nothing.n ≡ 0
      → IsValid s
      → merge nothing s ≡ ok s
  unfolding merge merge_valid
  merge-no_observations_left nothing s v e w = rw (v, w) (ground arith)

  -- Merged on the right, it gives back an aggregate that has observations.
  pub merge-no_observations_right :
      (nothing s : AggregateStats D)
      → IsValid nothing
      → nothing.n ≡ 0
      → IsValid s
      → 0 < s.n
      → merge s nothing ≡ ok s
  unfolding merge merge_valid
  merge-no_observations_right nothing s v e w p = rw (v, w) (ground arith)

  -- The sum of two 64-bit counts, where a merge returns, is a 64-bit count.
  pub merge-fits :
      (left right result : AggregateStats D)
      → left.n ≤ u64_max
      → right.n ≤ u64_max
      → merge left right ≡ ok result
      → result.n ≤ u64_max
  merge-fits left right result l r h =
      merge_valid-fits left right result l r (merge-eq-ok left right result h).2

  -- An aggregate with an expected count is valid exactly if it has that count and is valid.
  pub invariant_error_iff :
      (s : AggregateStats D) (n : ℕ) → (invariant_error s (some n) ≡ none) ↔ ((s.n ≡ n) × IsValid s)
  unfolding invariant_error
  invariant_error_iff s n = (λ h. ground arith, λ v. ground arith)

-- ===== src/Reduce/Tests.antt =====
-- Three aggregates over the words of Sample, reduced.
use monte_carlo.Prelude.{inl, inr, ◌≡◌, ◌≤◌, ◌↔◌, arith, refl, List, [], ◌∷◌, length}
use monte_carlo.Exception.{ok, err, Exception}
use monte_carlo.Sample.{Word, word_float}
use monte_carlo.Aggregate.{AggregateStats, empty_stats}
use monte_carlo.Aggregate.Merge.{IsValid}
use monte_carlo.Aggregate.Tests.{
  four_six, five_five, both, four_six-IsValid, five_five-IsValid, merge-both, full, full-IsValid,
  empty-IsValid,
}
use monte_carlo.Reduce.{next_level, reduce_levels, front, reduce_block_results}
use monte_carlo.Reduce.Count.{total_n, reduce_levels_enough, reduce_block_results-n}
use monte_carlo.Reduce.Overflow.{reduce_block_results-overflow}
use monte_carlo.Reduce.Single.{reduce_block_results-Alone}
use monte_carlo.Reduce.Tree.{evals, reduction_tree, reduce_levels-eq-reduction_tree}

abbrev two_leaves : List (AggregateStats Word)
two_leaves = four_six ∷ five_five ∷ []

reduce_levels-both : reduce_levels 2 two_leaves ≡ ok (both ∷ [])
unfolding reduce_levels next_level
reduce_levels-both = rw merge-both refl

reduce_block_results-both : reduce_block_results two_leaves ≡ ok both
unfolding reduce_block_results front
reduce_block_results-both = rw reduce_levels-both refl

reduce_levels_enough_example : length (both ∷ []) ≤ 1
reduce_levels_enough_example =
    reduce_levels_enough two_leaves (both ∷ []) (four_six-IsValid, (five_five-IsValid, tt))
      reduce_levels-both

reduce_block_results-n_example : (both.n ≡ total_n two_leaves) × IsValid both
reduce_block_results-n_example =
    reduce_block_results-n two_leaves both (four_six-IsValid, (five_five-IsValid, tt)) (omega arith)
      reduce_block_results-both

reduce_levels-eq-reduction_tree_example :
    (reduce_levels 2 two_leaves ≡ ok (both ∷ []))
    ↔ (evals (reduction_tree two_leaves) ≡ ok (both ∷ []))
reduce_levels-eq-reduction_tree_example = reduce_levels-eq-reduction_tree two_leaves (both ∷ [])

-- Two small leaves, and one that holds as many observations as a count can.
abbrev too_many : List (AggregateStats Word)
too_many = four_six ∷ five_five ∷ full ∷ []

reduce_block_results-overflow_example : (e : Exception) × (reduce_block_results too_many ≡ err e)
reduce_block_results-overflow_example =
    reduce_block_results-overflow too_many
      (four_six-IsValid, (five_five-IsValid, (full-IsValid, tt)))
      (omega arith, (omega arith, (omega arith, tt))) (omega arith)

-- One leaf among leaves without observations.
abbrev mostly_empty : List (AggregateStats Word)
mostly_empty = empty_stats ∷ empty_stats ∷ four_six ∷ []

reduce_block_results-Alone_example : reduce_block_results mostly_empty ≡ ok four_six
reduce_block_results-Alone_example =
    reduce_block_results-Alone four_six four_six-IsValid (omega arith) mostly_empty
      (inr ((empty-IsValid, refl), inr ((empty-IsValid, refl), inl (refl, tt))))

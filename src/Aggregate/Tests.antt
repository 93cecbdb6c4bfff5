-- ===== src/Aggregate/Tests.antt =====
-- Examples of aggregates over the words of Sample, and the theorems about merging at them.
use monte_carlo.Prelude.{◌+◌, ◌-◌, ◌^◌, ◌≡◌, arith, refl, List, [], ◌∷◌, All, length}
use monte_carlo.Exception.{ok}
use monte_carlo.Sample.{Word, word, word_float, word_order}
use monte_carlo.Aggregate.{
  AggregateStats, empty_stats, first_observation, merge, merge_valid, merged_values,
  invariant_error, content_error, tolerance, max_of_four, mean_outside, single_inconsistent,
}
use monte_carlo.Aggregate.Merge.{IsValid, merge-IsValid}
use monte_carlo.Aggregate.Observe.{add_all, Within, add_all-bounds}

-- The observations 4 and 6.
abbrev pub four_six : AggregateStats Word
four_six = record { n = 2; mean = word 5; m2 = word 2; min = word 4; max = word 6 }

abbrev pub five_five : AggregateStats Word
five_five = record { n = 2; mean = word 5; m2 = word 0; min = word 5; max = word 5 }

abbrev pub both : AggregateStats Word
both = record { n = 4; mean = word 5; m2 = word 2; min = word 4; max = word 6 }

-- An aggregate of as many observations as a count can hold.
abbrev pub full : AggregateStats Word
full = record { n = 2 ^ 64 - 1; mean = word 5; m2 = word 2; min = word 4; max = word 6 }

pub four_six-IsValid : IsValid four_six
unfolding invariant_error content_error tolerance max_of_four mean_outside single_inconsistent
four_six-IsValid = refl

pub five_five-IsValid : IsValid five_five
unfolding invariant_error content_error tolerance max_of_four mean_outside single_inconsistent
five_five-IsValid = refl

-- One observation, of 4 or of 6.
pub single-IsValid : IsValid (first_observation (word 4)) × IsValid (first_observation (word 6))
unfolding invariant_error content_error tolerance max_of_four mean_outside single_inconsistent
single-IsValid = (refl, refl)

pub both-IsValid : IsValid both
unfolding invariant_error content_error tolerance max_of_four mean_outside single_inconsistent
both-IsValid = refl

pub full-IsValid : IsValid full
unfolding invariant_error content_error tolerance max_of_four mean_outside single_inconsistent
full-IsValid = refl

pub empty-IsValid : IsValid (empty_stats {D = Word})
unfolding invariant_error content_error
empty-IsValid = refl

pub merge-both : merge four_six five_five ≡ ok both
unfolding merge merge_valid merged_values invariant_error content_error tolerance max_of_four
    mean_outside single_inconsistent
merge-both = refl

merge-IsValid_example :
    IsValid four_six × IsValid five_five × IsValid both × (both.n ≡ four_six.n + five_five.n)
merge-IsValid_example = merge-IsValid four_six five_five both merge-both

abbrev observations : List Word
observations = word 4 ∷ word 6 ∷ []

add_all-bounds_example :
    (r : AggregateStats Word) × (add_all empty_stats observations ≡ ok r)
    × (r.n ≡ 1 + length (word 6 ∷ []))
    × All (Within r) observations
add_all-bounds_example =
    add_all-bounds word_order (word 4) (word 6 ∷ []) (refl, (refl, tt)) (omega arith)

-- ===== src/Parallel/Confidence/Tests.antt =====
-- A run of thirty observations.
use monte_carlo.Prelude.{◌≤◌, ◌≡◌, refl, some, true}
use monte_carlo.Exception.{ok}
use monte_carlo.Sample.{Word, word, word_float}
use monte_carlo.Aggregate.{standard_error, sqrt_of_mean, sample_variance}
use monte_carlo.Parallel.{RunResult}
use monte_carlo.Parallel.Confidence.{
  confidence_low, confidence_high, confidence_bound, bound_with, bound_of,
  confidence_low-confidence_high,
}

-- Thirty observations around 5.
abbrev thirty : RunResult Word
thirty = record {
  aggregate = record { n = 30; mean = word 5; m2 = word 29; min = word 4; max = word 6 };
  scenarios_processed = 30;
  block_count = 1;
  workers_used = 1;
}

thirty_low : confidence_low thirty (word 1) ≡ ok (some (word 5))
unfolding confidence_low confidence_bound bound_with bound_of standard_error sqrt_of_mean
    sample_variance
thirty_low = refl

confidence_low-confidence_high_example :
    (30 ≤ 30)
    × ((half_width : Word) × (word 5 ≡ word_float.fsub (word 5) half_width)
        × (confidence_high thirty (word 1) ≡ ok (some (word_float.fadd (word 5) half_width)))
        × (true ≡ true)
        × (true ≡ true))
confidence_low-confidence_high_example =
    confidence_low-confidence_high thirty (word 1) (word 5) thirty_low

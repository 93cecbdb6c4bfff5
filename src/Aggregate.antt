-- ===== src/Aggregate.antt =====
-- include/mc/aggregate.hpp and src/aggregation/aggregate.cpp: block-local Welford statistics and
-- their pairwise merge.
pub mod Merge
pub mod Observe
pub mod Tests
use monte_carlo.Prelude.{
  ℕ, ◌+◌, ◌-◌, ◌%◌, ◌^◌, List, Bool, true, false, Option, none, some, ltb, ◌==◌, ◌!=◌, ◌&&◌, ◌||◌,
  not, if◌then◌else◌, bytes_of, ◌++◌,
}
use monte_carlo.Exception.{
  Result, ok, err, ◌>>=◌, ◌>>◌, throw_if, throw_some, invalid_argument, domain_error,
  overflow_error, what,
}
use monte_carlo.Float64.{Float64, f_zero, f_one, fne, fmin, fmax}

pub record AggregateStats (D : Type 0) : Type 0 where
  pub n : ℕ
  pub mean : D
  pub m2 : D
  pub min : D
  pub max : D

abbrev pub u64_max : ℕ
u64_max = 2 ^ 64 - 1

module _ {D : Type 0} ⦃fp : Float64 D⦄ where
  open fp use {from_bits, of_u64, fadd, fsub, fmul, fdiv, fabs, fsqrt, feq, flt, is_finite}

  -- `AggregateStats{}`
  abbrev pub empty_stats : AggregateStats D
  empty_stats = record { n = 0; mean = f_zero; m2 = f_zero; min = f_zero; max = f_zero }

  abbrev pub first_observation : D → AggregateStats D
  first_observation x = record { n = 1; mean = x; m2 = f_zero; min = x; max = x }

  -- Welford's update, with `++n` wrapping as std::uint64_t does.
  unfoldable pub next_observation : AggregateStats D → D → AggregateStats D
  next_observation s x =
      let count = (s.n + 1) % 2 ^ 64 in
      let delta = fsub x s.mean in
      let mean' = fadd s.mean (fdiv delta (of_u64 count)) in
      let delta_after = fsub x mean' in
      record {
        n = count;
        mean = mean';
        m2 = fadd s.m2 (fmul delta delta_after);
        min = fmin s.min x;
        max = fmax s.max x;
      }

  -- AggregateStats::add
  unfoldable pub add : AggregateStats D → D → Result (AggregateStats D)
  add s x =
      if not (is_finite x)
      then err (domain_error (what "aggregate observation must be finite"))
      else if s.n == 0
      then ok (first_observation x)
      else ok (next_observation s x)

  unfoldable pub sample_variance : AggregateStats D → Option D
  sample_variance s = if ltb s.n 2 then none else some (fdiv s.m2 (of_u64 (s.n - 1)))

  unfoldable pub sqrt_of_mean : ℕ → Option D → Option D
  sqrt_of_mean n none = none
  sqrt_of_mean n (some variance) = some (fsqrt (fdiv variance (of_u64 n)))

  unfoldable pub standard_error : AggregateStats D → Option D
  unfolding sqrt_of_mean
  standard_error s = sqrt_of_mean s.n (sample_variance s)

  -- `std::max` of an initializer list: the first of the greatest elements.
  max_of_four : D → D → D → D → D
  max_of_four a b c d = fmax (fmax (fmax a b) c) d

  -- 64.0 * epsilon * scale
  tolerance : AggregateStats D → D
  unfolding max_of_four
  tolerance s =
      fmul (fmul (from_bits 0x4050000000000000) (from_bits 0x3CB0000000000000))
        (max_of_four f_one (fabs s.mean) (fabs s.min) (fabs s.max))

  mean_outside : AggregateStats D → Bool
  mean_outside s = flt s.mean (fsub s.min (tolerance s)) || flt (fadd s.max (tolerance s)) s.mean

  single_inconsistent : AggregateStats D → Bool
  single_inconsistent s =
      s.n == 1
      && (fne s.m2 f_zero
          || (flt (tolerance s) (fabs (fsub s.mean s.min))
              || flt (tolerance s) (fabs (fsub s.mean s.max))))

  -- The checks that do not depend on the expected count.
  content_error : AggregateStats D → Option (List ℕ)
  content_error s =
      if s.n == 0
      then (if fne s.mean f_zero || (fne s.m2 f_zero || (fne s.min f_zero || fne s.max f_zero))
          then some (what "empty aggregate does not use the canonical zero representation")
          else none)
      else if not (is_finite s.mean)
          || (not (is_finite s.m2) || (not (is_finite s.min) || not (is_finite s.max)))
      then some (what "aggregate contains a non-finite value")
      else if flt s.m2 f_zero
      then some (what "aggregate m2 must be nonnegative")
      else if flt s.max s.min
      then some (what "aggregate minimum exceeds maximum")
      else if mean_outside s
      then some (what "aggregate mean lies outside its minimum/maximum range")
      else if single_inconsistent s
      then some (what "single-observation aggregate fields are inconsistent")
      else none

  -- AggregateStats::invariant_error
  pub invariant_error : AggregateStats D → Option ℕ → Option (List ℕ)
  invariant_error s none = content_error s
  invariant_error s (some expected_n) =
      if s.n != expected_n
      then some (what "aggregate observation count does not match the expected count")
      else content_error s

  merged_values : AggregateStats D → AggregateStats D → AggregateStats D
  merged_values left right =
      let total = (left.n + right.n) % 2 ^ 64 in
      let left_n = of_u64 left.n in
      let right_n = of_u64 right.n in
      let total_n = of_u64 total in
      let delta = fsub right.mean left.mean in
      record {
        n = total;
        mean = fadd left.mean (fmul delta (fdiv right_n total_n));
        m2 =
            fadd (fadd left.m2 right.m2)
              (fmul (fmul delta delta) (fdiv (fmul left_n right_n) total_n));
        min = fmin left.min right.min;
        max = fmax left.max right.max;
      }

  -- The part of `merge` after both arguments are known to be valid.
  merge_valid : AggregateStats D → AggregateStats D → Result (AggregateStats D)
  merge_valid left right =
      if left.n == 0
      then ok right
      else if right.n == 0
      then ok left
      else if ltb (u64_max - left.n) right.n
      then err (overflow_error (what "aggregate observation count overflow"))
      else do
        let result = merged_values left right
        throw_some (invariant_error result none)
            (λ e. overflow_error (what "merged aggregate is not representable: " ++ e))
        ok result

  pub merge : AggregateStats D → AggregateStats D → Result (AggregateStats D)
  merge left right = do
    throw_some (invariant_error left none)
        (λ e. invalid_argument (what "left aggregate is invalid: " ++ e))
    throw_some (invariant_error right none)
        (λ e. invalid_argument (what "right aggregate is invalid: " ++ e))
    merge_valid left right
